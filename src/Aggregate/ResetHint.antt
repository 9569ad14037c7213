-- ===== src/Aggregate/ResetHint.antt =====
-- internal/engine/aggregate.go: extractRateLimitResetHint, which searches the lowered text and slices the
-- original one.
use rick_driven_development.Prelude.{
  ℕ, suc, ◌+◌, ◌≤◌, ◌<◌, ◌≡◌, refl, inl, inr, true, not, List, [], ◌∷◌, Option, some, arith, leb,
  length, length-take-le, drop, take, if◌then◌else◌, Option-cases,
}
use rick_driven_development.Event.Payload.{Bytes, PersonaFailedPayload, zero_failed}
use rick_driven_development.Event.Envelope.{Envelope, Body, Json, Stamp, unmarshal, persona_failed}
use rick_driven_development.Workflow.Def.{WorkflowDef}
use rick_driven_development.Aggregate.Runtime.{Runtime, done, panic, Outcome-cases}
use rick_driven_development.Aggregate.Fingerprint.{codes}
use rick_driven_development.Aggregate.Failure.{
  starts_with, index_from, first_line, trim_space, slice_from, extract_rate_limit_reset_hint,
}
use rick_driven_development.Aggregate.State.{WorkflowAggregate, is_running, is_required_persona}
use rick_driven_development.Aggregate.Decide.Failures.{
  maybe_auto_retry, rate_limit_pause, maybe_rate_limit_pause, skip_or_fail, fail_required,
  decide_persona_failed,
}
use rick_driven_development.Aggregate.Decide.Resume.{Decided}
use rick_driven_development.Aggregate.Decide.{decide_body, decide}

starts_with-length : (s pat : Bytes) → starts_with s pat ≡ true → length pat ≤ length s
unfolding starts_with
starts_with-length s [] h = omega arith
starts_with-length [] (c ∷ pat) h = ground arith
starts_with-length (b ∷ s) (c ∷ pat) h = ground (arith, starts_with-length s pat)

index_from-bound :
    (k : ℕ) (pat s : Bytes) (i : ℕ)
    → index_from k pat s ≡ some i
    → (k ≤ i) × (i + length pat ≤ k + length s)
unfolding index_from
index_from-bound k pat [] i h = ground (arith, starts_with-length [] pat)
index_from-bound k pat (b ∷ s) i h =
    ground (arith, starts_with-length (b ∷ s) pat, index_from-bound (suc k) pat s i)

abbrev pub IsAscii : Bytes → Type 0
IsAscii [] = Unit {0}
IsAscii (b ∷ bs) = (b < 128) × IsAscii bs

-- strings.ToLower replaces the letters of an ASCII text one by one.
abbrev pub KeepsAscii : (Bytes → Bytes) → Type 0
KeepsAscii to_lower = (s : Bytes) → IsAscii s → length (to_lower s) ≡ length s

-- The failure, if the event is one, has an ASCII text in `stderr`.
abbrev pub HasAsciiStderr : Body → Type 0
HasAsciiStderr (persona_failed j) = IsAscii (unmarshal zero_failed j).stderr
HasAsciiStderr _ = Unit {0}

extract-returns :
    (to_lower : Bytes → Bytes) (s : Bytes)
    → length (to_lower s) ≡ length s
    → (hint : Bytes) × (extract_rate_limit_reset_hint to_lower s ≡ done hint) × (length hint ≤ 128)
unfolding extract_rate_limit_reset_hint slice_from
extract-returns to_lower [] keeps = ([], refl, omega arith)
extract-returns to_lower (b ∷ s) keeps =
    elim (Option-cases (index_from 0 (codes "resets ") (to_lower (b ∷ s)))) [
      | inl n ↦ ([], rw (n, extract_rate_limit_reset_hint) refl, omega arith)
      | inr (i, e) ↦
          let fits : leb (i + 7) (length (b ∷ s)) ≡ true =
            ground (arith, keeps, index_from-bound 0 (codes "resets ") (to_lower (b ∷ s)) i e) in
          let tail = trim_space (first_line (drop (i + 7) (b ∷ s))) in
          (
            take 128 tail,
            rw (e, extract_rate_limit_reset_hint) (rw (fits, slice_from) refl),
            length-take-le 128 tail,
          )
    ]

-- The reset hint of an ASCII text is extracted without a panic and has at most 128 bytes, if lowering
-- keeps the length of ASCII texts.
pub extract_total :
    (to_lower : Bytes → Bytes) (s : Bytes)
    → KeepsAscii to_lower
    → IsAscii s
    → (hint : Bytes) × (extract_rate_limit_reset_hint to_lower s ≡ done hint) × (length hint ≤ 128)
extract_total to_lower s keeps ascii = extract-returns to_lower s (keeps s ascii)

maybe_rate_limit_pause-total :
    (rt : Runtime) (s : Stamp) (w : WorkflowAggregate) (d : WorkflowDef) (env : Envelope)
    (p : PersonaFailedPayload)
    → length (rt.to_lower p.stderr) ≡ length p.stderr
    → (o : Option Envelope) × (maybe_rate_limit_pause rt s w d env p ≡ done o)
unfolding maybe_rate_limit_pause rate_limit_pause
maybe_rate_limit_pause-total rt s w d env p keeps =
    elim (Outcome-cases (maybe_rate_limit_pause rt s w d env p)) [
      | inr found ↦ found
      | inl bad ↦
          let (hint, e, _) = extract-returns rt.to_lower p.stderr keeps in
          absurd (pauses hint e bad)
    ]
  where
    pauses :
        (hint : Bytes)
        → extract_rate_limit_reset_hint rt.to_lower p.stderr ≡ done hint
        → ¬ (maybe_rate_limit_pause rt s w d env p ≡ panic)
    pauses hint e bad = ground (arith, e, bad)

fail_required-total :
    (rt : Runtime) (s : Stamp) (w : WorkflowAggregate) (d : WorkflowDef) (env : Envelope)
    (p : PersonaFailedPayload)
    → length (rt.to_lower p.stderr) ≡ length p.stderr
    → (es : List Envelope) × (fail_required rt s w d env p ≡ done es)
unfolding fail_required
fail_required-total rt s w d env p keeps = elim (Option-cases (maybe_auto_retry s w d env p)) [
  | inr (e, r) ↦ (e ∷ [], ground (arith, r))
  | inl r ↦
      let (o, q) = maybe_rate_limit_pause-total rt s w d env p keeps in
      elim (Option-cases o) [
        | inl n ↦ (skip_or_fail s w d env p, ground (arith, r, q, n))
        | inr (e, n) ↦ (e ∷ [], ground (arith, r, q, n))
      ]
]

decide_persona_failed-total :
    (rt : Runtime) (s : Stamp) (w : WorkflowAggregate) (env : Envelope)
    (j : Json PersonaFailedPayload)
    → length (rt.to_lower (unmarshal zero_failed j).stderr)
      ≡ length (unmarshal zero_failed j).stderr
    → (es : List Envelope) × (decide_persona_failed rt s w env j ≡ done es)
unfolding decide_persona_failed
decide_persona_failed-total rt s w env j keeps = elim (Option-cases w.workflow_def) [
  | inl n ↦ ([], ground (arith, n))
  | inr (d, e) ↦
      let p = unmarshal zero_failed j in
      let (es, q) = fail_required-total rt s w d env p keeps in
      (
        (if not (is_running w.status)
            then []
            else if not (is_required_persona w p.persona)
            then []
            else es),
        ground (arith, e, q),
      )
]

decide_body-total :
    (rt : Runtime) (s : Stamp) (w : WorkflowAggregate) (env : Envelope) (b : Body)
    → KeepsAscii rt.to_lower
    → HasAsciiStderr b
    → (r : Decided) × (decide_body rt s w env b ≡ done r)
unfolding decide_body
decide_body-total rt s w env (persona_failed j) keeps ascii =
    let (es, e) =
      decide_persona_failed-total rt s w env j (keeps (unmarshal zero_failed j).stderr ascii) in
    (record { state = w; events = es }, rw e refl)
decide_body-total rt s w env _ keeps ascii = (_, refl)

-- Decide returns, in every state, on every event that is not a failure with another text than ASCII in
-- its stderr, if lowering keeps the length of ASCII texts.
pub decide_total :
    (rt : Runtime) (s : Stamp) (w : WorkflowAggregate) (env : Envelope)
    → KeepsAscii rt.to_lower
    → HasAsciiStderr env.body
    → (r : Decided) × (decide rt s w env ≡ done r)
unfolding decide
decide_total rt s w env keeps ascii = decide_body-total rt s w env env.body keeps ascii
