-- ===== src/Examples/Faults.antt =====
-- The theorems on the reset hint and on the partial review, applied, and a run on a text that lowering
-- lengthens.
use rick_driven_development.Prelude.{
  ℕ, Bool, ltb, ◌≡◌, refl, ◌≤◌, false, true, [], ◌∷◌, ◌++◌, some, arith, length, if◌then◌else◌,
  ◌&&◌, eqb,
}
use rick_driven_development.Event.Payload.{Bytes, PersonaFailedPayload, FailureKind, zero_failed}
use rick_driven_development.Event.Envelope.{persona_failed}
use rick_driven_development.Workflow.Builtin.Planning.{pr_review_workflow_def}
use rick_driven_development.Aggregate.Runtime.{done, panic}
use rick_driven_development.Aggregate.State.{WorkflowAggregate, has_completed}
use rick_driven_development.Aggregate.Apply.{apply_failed}
use rick_driven_development.Aggregate.Fingerprint.{codes}
use rick_driven_development.Aggregate.Failure.{extract_rate_limit_reset_hint}
use rick_driven_development.Aggregate.Decide.{decide}
use rick_driven_development.Aggregate.Decide.Failures.{skip_or_fail}
use rick_driven_development.Aggregate.Decide.Resume.{Decided}
use rick_driven_development.Aggregate.Program.{program}
use rick_driven_development.Aggregate.ResetHint.{IsAscii, extract_total, decide_total}
use rick_driven_development.Aggregate.PartialReview.{fails, reviewer_failure}
use rick_driven_development.Examples.Data.{
  plain, lower_ascii, length-lower_ascii, stamp, arrives, midway, limited,
}

abbrev notice : Bytes
notice = codes "Limit reached, resets 3pm"

all_below : ℕ → Bytes → Bool
all_below n [] = true
all_below n (b ∷ bs) = ltb b n && all_below n bs

all_below-IsAscii : (bs : Bytes) → all_below 128 bs ≡ true → IsAscii bs
unfolding all_below
all_below-IsAscii [] h = tt
all_below-IsAscii (b ∷ bs) h = (ground (arith, h), all_below-IsAscii bs (ground (arith, h)))

notice-IsAscii : IsAscii notice
unfolding all_below
notice-IsAscii = all_below-IsAscii notice refl

extract_total_example :
    (hint : Bytes) × (extract_rate_limit_reset_hint lower_ascii notice ≡ done hint)
    × (length hint ≤ 128)
extract_total_example =
    extract_total lower_ascii notice (λ s ascii. length-lower_ascii s) notice-IsAscii

decide_total_example :
    (r : Decided) × (decide plain stamp midway (arrives (persona_failed (some (limited notice))))
      ≡ done r)
decide_total_example =
    decide_total plain stamp midway (arrives (persona_failed (some (limited notice))))
      (λ s ascii. length-lower_ascii s) notice-IsAscii

-- U+023A in UTF-8 has two bytes, its lower case U+2C65 has three.
lower_stroke : Bytes → Bytes
lower_stroke [] = []
lower_stroke (b ∷ []) = b ∷ []
lower_stroke (b ∷ c ∷ bs) =
    let rest = lower_stroke bs in
    let next = lower_stroke (c ∷ bs) in
    if eqb b 200 && eqb c 186 then 226 ∷ 177 ∷ 165 ∷ rest else b ∷ next

abbrev strokes : Bytes
strokes = 200 ∷ 186 ∷ 200 ∷ 186 ∷ 200 ∷ 186 ∷ 200 ∷ 186 ∷ []

abbrev stroked_notice : Bytes
stroked_notice = strokes ++ strokes ++ codes "resets "

lengthened_stderr_panics :
    decide
      (record plain { to_lower = lower_stroke })
      stamp
      midway
      (arrives (persona_failed (some (limited stroked_notice))))
    ≡ panic
unfolding program lower_stroke
lengthened_stderr_panics = refl

abbrev reviewing : WorkflowAggregate
reviewing = record midway { workflow_def = some pr_review_workflow_def; completed_personas = [] }

abbrev correctness_failed : PersonaFailedPayload
correctness_failed = record zero_failed {
  persona = "pr-correctness";
  failure_kind = FailureKind.backend_error;
}

reviewer_failure_example :
    (has_completed (apply_failed correctness_failed reviewing) "pr-correctness" ≡ false)
    × (fails (
          skip_or_fail stamp reviewing pr_review_workflow_def
            (arrives (persona_failed (some correctness_failed)))
            correctness_failed)
        ≡ true)
unfolding program
reviewer_failure_example =
    reviewer_failure stamp reviewing (arrives (persona_failed (some correctness_failed)))
      correctness_failed refl refl (λ e. cc)
