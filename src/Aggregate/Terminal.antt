-- ===== src/Aggregate/Terminal.antt =====
-- internal/engine/aggregate.go: decisions in a terminal status, and the envelopes of decided events.
use rick_driven_development.Prelude.{
  ℕ, ◌+◌, ◌≡◌, refl, String, Bool, true, false, List, [], ◌∷◌, Option, none, arith,
}
use rick_driven_development.Event.Payload.{
  PersonaFailedPayload, VerdictPayload, HintEmittedPayload, HintRejectedPayload,
  WorkflowRequestedPayload,
}
use rick_driven_development.Event.Envelope.{
  Envelope, Body, Json, Stamp, workflow_requested, workflow_resumed, token_budget_exceeded,
}
use rick_driven_development.Workflow.Def.{WorkflowDef}
use rick_driven_development.Aggregate.Runtime.{Runtime, done}
use rick_driven_development.Aggregate.State.{
  WorkflowAggregate, Status, completed, failed, cancelled, is_running,
}
use rick_driven_development.Aggregate.Emit.{emit, maybe_emit_workflow_completed}
use rick_driven_development.Aggregate.Decide.Branches.{
  FailureBranch, retried, paused_for, fell_through,
}
use rick_driven_development.Aggregate.Decide.Induction.{decide_induction}
use rick_driven_development.Aggregate.Decide.Failures.{skip_or_fail}
use rick_driven_development.Aggregate.Decide.Verdicts.{
  escalate_verdict, max_iterations_reached, feedback, decide_failing_verdict,
}
use rick_driven_development.Aggregate.Decide.Resume.{
  Decided, resume_retry, resume_feedback, resume_retarget, resume_scan, decide_workflow_resumed,
}
use rick_driven_development.Aggregate.Decide.Hints.{decide_hint_emitted, decide_hint_rejected}
use rick_driven_development.Aggregate.Decide.{
  decide_workflow_requested, decide_token_budget_exceeded, decide,
}

abbrev pub is_terminal : Status → Bool
is_terminal completed = true
is_terminal failed = true
is_terminal cancelled = true
is_terminal _ = false

-- The events on which Decide does not look at the status first.
abbrev pub ignores_status : Option WorkflowDef → Body → Bool
ignores_status none (workflow_requested j) = true
ignores_status d (token_budget_exceeded j) = true
ignores_status d (workflow_resumed j) = true
ignores_status d _ = false

module _ (rt : Runtime) (s : Stamp) (w : WorkflowAggregate) (env : Envelope) where
  -- The events that a decision emits follow the aggregate's version and name their cause: there is
  -- at most one.
  abbrev pub IsNumbered : List Envelope → Type 0
  IsNumbered [] = Unit {0}
  IsNumbered (e ∷ []) =
      (e.aggregate_id ≡ w.id)
      × (e.version ≡ w.version + 1)
      × (e.causation_id ≡ env.id)
      × (e.correlation_id ≡ env.correlation_id)
      × (e.schema_version ≡ 1)
  IsNumbered (e ∷ f ∷ es) = ⊥

  maybe_emit-IsNumbered : IsNumbered (maybe_emit_workflow_completed s w env)
  unfolding maybe_emit_workflow_completed emit
  maybe_emit-IsNumbered = ground arith

  requested-IsNumbered : IsNumbered (decide_workflow_requested s w env)
  unfolding decide_workflow_requested emit
  requested-IsNumbered = ground arith

  failed-IsNumbered :
      (d : WorkflowDef) (p : PersonaFailedPayload) (es : List Envelope)
      → FailureBranch rt s w env d p es
      → IsNumbered es
  unfolding emit skip_or_fail
  failed-IsNumbered d p es (retried e r q) = ground (arith, r.event)
  failed-IsNumbered d p es (paused_for e hint r q) = ground (arith, r.event)
  failed-IsNumbered d p es (fell_through n q) = ground (arith, maybe_emit-IsNumbered)

  verdict-IsNumbered : (v : VerdictPayload) → IsNumbered (decide_failing_verdict rt s w env v)
  unfolding decide_failing_verdict escalate_verdict max_iterations_reached feedback emit
  verdict-IsNumbered v = ground arith

  scan-IsNumbered : (counts : List (String × ℕ)) → IsNumbered (resume_scan s w env counts).events
  unfolding resume_scan resume_feedback emit
  scan-IsNumbered [] = tt
  scan-IsNumbered ((persona, count) ∷ counts) = ground (arith, scan-IsNumbered counts)

  resumed-IsNumbered : IsNumbered (decide_workflow_resumed rt s w env).events
  unfolding decide_workflow_resumed resume_retry resume_retarget resume_feedback emit
  resumed-IsNumbered = ground (arith, scan-IsNumbered (rt.range_order w.feedback_count))

  hint-IsNumbered : (j : Json HintEmittedPayload) → IsNumbered (decide_hint_emitted s w env j)
  unfolding decide_hint_emitted emit
  hint-IsNumbered j = ground arith

  rejection-IsNumbered :
      (j : Json HintRejectedPayload) → IsNumbered (decide_hint_rejected s w env j)
  unfolding decide_hint_rejected emit
  rejection-IsNumbered j = ground arith

  -- Every decision emits at most one event, which takes the version after the aggregate's, belongs to
  -- the aggregate, and carries the cause and the correlation of the event decided on.
  pub decide-IsNumbered : (r : Decided) → decide rt s w env ≡ done r → IsNumbered r.events
  unfolding decide_token_budget_exceeded emit
  decide-IsNumbered =
      decide_induction (λ _ es. IsNumbered es) rt s w env
        (record {
          on_nothing = tt;
          on_requested = λ _. requested-IsNumbered;
          on_completed = maybe_emit-IsNumbered;
          on_failed = λ d p es _ _ _ b. failed-IsNumbered d p es b;
          on_verdict = λ v _ _ _. verdict-IsNumbered v;
          on_budget = λ _. (refl, refl, refl, refl, refl);
          on_resumed = λ _. resumed-IsNumbered;
          on_hint = hint-IsNumbered;
          on_rejection = rejection-IsNumbered;
        })

  module _ (over : is_terminal w.status ≡ true)
      (guarded : ignores_status w.workflow_def env.body ≡ false) where
    not_running : is_running w.status ≡ false
    not_running = ground arith

    requested-quiet :
        {j : Json WorkflowRequestedPayload}
        → env.body ≡ workflow_requested j
        → decide_workflow_requested s w env ≡ []
    unfolding decide_workflow_requested
    requested-quiet e = ground (arith, e)

    hint-quiet : (j : Json HintEmittedPayload) → decide_hint_emitted s w env j ≡ []
    unfolding decide_hint_emitted
    hint-quiet j = ground arith

    rejection-quiet : (j : Json HintRejectedPayload) → decide_hint_rejected s w env j ≡ []
    unfolding decide_hint_rejected
    rejection-quiet j = ground arith

    completion-quiet : maybe_emit_workflow_completed s w env ≡ []
    unfolding maybe_emit_workflow_completed
    completion-quiet = ground arith

    -- A completed, failed or cancelled workflow emits nothing more, whatever arrives, but for the
    -- three kinds of event on which Decide does not look at the status.
    pub decide_of_terminal :
        (r : Decided) → decide rt s w env ≡ done r → (r.state ≡ w) × (r.events ≡ [])
    decide_of_terminal =
        decide_induction (λ w' es. (w' ≡ w) × (es ≡ [])) rt s w env
          (record {
            on_nothing = (refl, refl);
            on_requested = λ e. (refl, requested-quiet e);
            on_completed = (refl, completion-quiet);
            on_failed = λ d p es _ on _ _. absurd (ground (arith, not_running, on));
            on_verdict = λ v on _ _. absurd (ground (arith, not_running, on));
            on_budget = λ e. absurd (ground (arith, e));
            on_resumed = λ e. absurd (ground (arith, e));
            on_hint = λ j. (refl, hint-quiet j);
            on_rejection = λ j. (refl, rejection-quiet j);
          })
