-- ===== src/Aggregate/Rounds.antt =====
-- internal/engine/aggregate.go: Apply on feedback, completions and retries.
use rick_driven_development.Prelude.{
  ℕ, ◌+◌, ◌≡◌, refl, ◌≢◌, String, true, false, not, ◌&&◌, ◌||◌, List, [], ◌∷◌, none, some, arith,
  ◌==◌, eq_iff, contains, if◌then◌else◌, Bool-cases, inl, inr,
}
use rick_driven_development.Prelude.Dict.{
  lookup, get_or, erase, lookup-set, lookup-erase, get_or-set, get_or-erase, lookup-erase_value,
}
use rick_driven_development.Event.Payload.{FeedbackGeneratedPayload, WorkflowRetriedPayload}
use rick_driven_development.Event.Envelope.{Envelope, feedback_generated, workflow_retried}
use rick_driven_development.Aggregate.Runtime.{Runtime}
use rick_driven_development.Aggregate.State.{
  WorkflowAggregate, running, has_completed, is_stale_after_feedback,
}
use rick_driven_development.Aggregate.Apply.{
  apply, apply_body, apply_feedback, apply_retried, invalidate, drop_persona, count_auto_retry,
}

-- What feedback does to the persona `x`: the target has one round more, source and target have not
-- completed, the source waits for the target, and nothing changes for any other persona.
pub record IsRoundOf (w w' : WorkflowAggregate) (p : FeedbackGeneratedPayload) (x : String)
    : Type 0 where
  pub rounds : get_or 0 x w'.feedback_count ≡ (
      if p.target_persona == x
      then get_or 0 x w.feedback_count + 1
      else get_or 0 x w.feedback_count)
  pub standing :
      has_completed w' x
      ≡ (if x == p.target_persona || x == p.source_persona then false else has_completed w x)
  pub waits :
      lookup x w'.feedback_pending
      ≡ (if p.source_persona == x then some p.target_persona else lookup x w.feedback_pending)
  pub stale : is_stale_after_feedback w' p.source_persona ≡ true

-- Feedback from a named source on another persona counts one more round for the target and for no
-- other persona, takes both out of the completed personas and no other, records that the source waits
-- for the target and leaves what the others wait for, and makes completions of the source stale.
pub feedback_round :
    (rt : Runtime) (w : WorkflowAggregate) (env : Envelope) (p : FeedbackGeneratedPayload)
    (x : String)
    → env.body ≡ feedback_generated (some p)
    → p.source_persona ≢ ""
    → p.source_persona ≢ p.target_persona
    → IsRoundOf w (apply rt w env) p x
unfolding apply apply_body apply_feedback has_completed is_stale_after_feedback
feedback_round rt w env p x e named distinct = rw e (record {
  rounds = ground (
    arith,
    eq_iff p.source_persona "",
    get_or-set 0 p.target_persona x more w.feedback_count,
    eq_iff p.target_persona x,
  );
  standing = ground (
    arith,
    eq_iff p.source_persona "",
    eq_iff x p.target_persona,
    eq_iff p.target_persona x,
    eq_iff x p.source_persona,
    eq_iff p.source_persona x,
    get_or-erase false p.target_persona x w.completed_personas,
    get_or-erase false p.source_persona x (erase p.target_persona w.completed_personas),
  );
  waits = ground (
    arith,
    eq_iff p.source_persona "",
    lookup-set p.source_persona x p.target_persona w.feedback_pending,
  );
  stale = ground (
    arith,
    eq_iff p.source_persona "",
    eq_iff p.source_persona p.source_persona,
    eq_iff p.target_persona p.target_persona,
    lookup-set p.source_persona p.source_persona p.target_persona w.feedback_pending,
    get_or-erase false p.target_persona p.target_persona w.completed_personas,
    get_or-erase false p.source_persona p.target_persona
        (erase p.target_persona w.completed_personas),
  );
})
  where
    more : ℕ
    more = get_or 0 p.target_persona w.feedback_count + 1

invalidate-completed :
    (ps : List String) (w : WorkflowAggregate) (x : String)
    → has_completed (invalidate ps w) x ≡ (if contains ps x then false else has_completed w x)
unfolding invalidate has_completed contains
invalidate-completed [] w x = refl
invalidate-completed (p ∷ ps) w x = ground (
  arith,
  invalidate-completed ps (drop_persona p w) x,
  get_or-erase false p x w.completed_personas,
)

invalidate-none :
    (ps : List String) (w : WorkflowAggregate) (x : String)
    → lookup x w.feedback_pending ≡ none
    → lookup x (invalidate ps w).feedback_pending ≡ none
unfolding invalidate
invalidate-none [] w x n = n
invalidate-none (p ∷ ps) w x n = invalidate-none ps (drop_persona p w) x (
    ground (
      arith,
      n,
      lookup-erase p x w.feedback_pending,
      lookup-erase_value p x (erase p w.feedback_pending),
    ))

invalidate-pending :
    (ps : List String) (w : WorkflowAggregate) (x : String)
    → contains ps x ≡ true
    → lookup x (invalidate ps w).feedback_pending ≡ none
unfolding invalidate contains
invalidate-pending [] w x h = ground arith
invalidate-pending (p ∷ ps) w x h = elim (Bool-cases (p == x)) [
  | inl e ↦ invalidate-none ps (drop_persona p w) x (
      ground (
        arith,
        e,
        lookup-erase p x w.feedback_pending,
        lookup-erase_value p x (erase p w.feedback_pending),
      ))
  | inr e ↦ invalidate-pending ps (drop_persona p w) x (ground (arith, e))
]

invalidate-retries :
    (ps : List String) (w : WorkflowAggregate) → (invalidate ps w).auto_retries ≡ w.auto_retries
unfolding invalidate
invalidate-retries [] w = refl
invalidate-retries (p ∷ ps) w = invalidate-retries ps (drop_persona p w)

-- A retry takes exactly the invalidated personas out of the completed ones and frees them from
-- waiting, and sets the workflow running; it counts as an automatic retry of its phase only if it is
-- marked so and names a phase.
pub retry_standing :
    (rt : Runtime) (w : WorkflowAggregate) (env : Envelope) (p : WorkflowRetriedPayload)
    (x : String)
    → env.body ≡ workflow_retried (some p)
    → let w' = apply rt w env in
      (w'.status ≡ running)
      × (has_completed w' x
          ≡ (if contains p.invalidated_personas x then false else has_completed w x))
      × (contains p.invalidated_personas x ≡ true → lookup x w'.feedback_pending ≡ none)
      × (get_or 0 x w'.auto_retries ≡ (
          if p.automatic && (not (p.from_phase == "") && p.from_phase == x)
          then get_or 0 x w.auto_retries + 1
          else get_or 0 x w.auto_retries))
unfolding apply apply_body apply_retried count_auto_retry has_completed
retry_standing rt w env p x e = rw e (
  refl,
  ground (arith, invalidate-completed p.invalidated_personas w0 x),
  λ m. ground (arith, invalidate-pending p.invalidated_personas w0 x m),
  ground (
    arith,
    invalidate-retries p.invalidated_personas w0,
    eq_iff p.from_phase x,
    get_or-set 0 p.from_phase x (get_or 0 p.from_phase w.auto_retries + 1) w.auto_retries,
  ),
)
  where
    w0 : WorkflowAggregate
    w0 = record w { version = env.version }
