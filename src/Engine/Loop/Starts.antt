-- ===== src/Engine/Loop/Starts.antt =====
-- internal/engine/engine.go: what tryProcessDecision publishes.
use rick_driven_development.Prelude.{
  ℕ, ◌≡◌, refl, subst, String, Bool, true, not, List, [], ◌∷◌, arith, ◌==◌, if◌then◌else◌,
}
use rick_driven_development.Event.Payload.{
  PersonaFailedPayload, VerdictPayload, HintEmittedPayload, HintRejectedPayload,
}
use rick_driven_development.Event.Envelope.{Envelope, Json, Stamp}
use rick_driven_development.Workflow.Def.{WorkflowDef}
use rick_driven_development.Aggregate.Runtime.{Runtime, Outcome, done, panic}
use rick_driven_development.Aggregate.State.{WorkflowAggregate}
use rick_driven_development.Aggregate.Apply.{apply_all}
use rick_driven_development.Aggregate.Emit.{emit, maybe_emit_workflow_completed}
use rick_driven_development.Aggregate.Decide.Branches.{
  FailureBranch, retried, paused_for, fell_through,
}
use rick_driven_development.Aggregate.Decide.Induction.{decide_induction}
use rick_driven_development.Aggregate.Decide.Failures.{skip_or_fail}
use rick_driven_development.Aggregate.Decide.Verdicts.{
  escalate_verdict, max_iterations_reached, feedback, decide_failing_verdict,
}
use rick_driven_development.Aggregate.Decide.Resume.{
  Decided, resume_retry, resume_feedback, resume_retarget, resume_scan, decide_workflow_resumed,
}
use rick_driven_development.Aggregate.Decide.Hints.{decide_hint_emitted, decide_hint_rejected}
use rick_driven_development.Aggregate.Decide.{
  decide_workflow_requested, decide_token_budget_exceeded, decide,
}
use rick_driven_development.Engine.{Step, finish_step, track_before, try_process_decision}
use rick_driven_development.Engine.Loop.{is_request}
use rick_driven_development.Engine.Loop.Capacity.{StartsOnRequest}

module _ (rt : Runtime) (s : Stamp) (w : WorkflowAggregate) (env : Envelope) where
  completion-StartsOnRequest : StartsOnRequest env (maybe_emit_workflow_completed s w env)
  unfolding maybe_emit_workflow_completed emit
  completion-StartsOnRequest = ground arith

  requested-StartsOnRequest :
      is_request env.body ≡ true → StartsOnRequest env (decide_workflow_requested s w env)
  unfolding decide_workflow_requested emit
  requested-StartsOnRequest e = ground (arith, e)

  failed-StartsOnRequest :
      (d : WorkflowDef) (p : PersonaFailedPayload) (es : List Envelope)
      → FailureBranch rt s w env d p es
      → StartsOnRequest env es
  unfolding emit skip_or_fail
  failed-StartsOnRequest d p es (retried e r q) = ground (arith, r.event)
  failed-StartsOnRequest d p es (paused_for e hint r q) = ground (arith, r.event)
  failed-StartsOnRequest d p es (fell_through n q) = ground (arith, completion-StartsOnRequest)

  verdict-StartsOnRequest :
      (v : VerdictPayload) → StartsOnRequest env (decide_failing_verdict rt s w env v)
  unfolding decide_failing_verdict escalate_verdict max_iterations_reached feedback emit
  verdict-StartsOnRequest v = ground arith

  scan-StartsOnRequest :
      (counts : List (String × ℕ)) → StartsOnRequest env (resume_scan s w env counts).events
  unfolding resume_scan resume_feedback emit
  scan-StartsOnRequest [] = tt
  scan-StartsOnRequest ((persona, count) ∷ counts) = ground (arith, scan-StartsOnRequest counts)

  resumed-StartsOnRequest : StartsOnRequest env (decide_workflow_resumed rt s w env).events
  unfolding decide_workflow_resumed resume_retry resume_retarget resume_feedback emit
  resumed-StartsOnRequest = ground (arith, scan-StartsOnRequest (rt.range_order w.feedback_count))

  hint-StartsOnRequest :
      (j : Json HintEmittedPayload) → StartsOnRequest env (decide_hint_emitted s w env j)
  unfolding decide_hint_emitted emit
  hint-StartsOnRequest j = ground arith

  rejection-StartsOnRequest :
      (j : Json HintRejectedPayload) → StartsOnRequest env (decide_hint_rejected s w env j)
  unfolding decide_hint_rejected emit
  rejection-StartsOnRequest j = ground arith

  decide-StartsOnRequest : (r : Decided) → decide rt s w env ≡ done r → StartsOnRequest env r.events
  unfolding decide_token_budget_exceeded emit
  decide-StartsOnRequest =
      decide_induction (λ _ es. StartsOnRequest env es) rt s w env
        (record {
          on_nothing = tt;
          on_requested = λ e. requested-StartsOnRequest (ground (arith, e));
          on_completed = completion-StartsOnRequest;
          on_failed = λ d p es _ _ _ b. failed-StartsOnRequest d p es b;
          on_verdict = λ v _ _ _. verdict-StartsOnRequest v;
          on_budget = λ _ h. cc;
          on_resumed = λ _. resumed-StartsOnRequest;
          on_hint = hint-StartsOnRequest;
          on_rejection = rejection-StartsOnRequest;
        })

-- One step of the engine publishes at most one event, and that starts a workflow only if the event it
-- processes requests one.
pub try_process_decision-StartsOnRequest :
    (rt : Runtime) (before_stamp s after_stamp : Stamp) (w : WorkflowAggregate) (agg_id : String)
    (env : Envelope) (step : Step)
    → try_process_decision rt before_stamp s after_stamp w agg_id env ≡ done step
    → StartsOnRequest env step.published
unfolding try_process_decision
try_process_decision-StartsOnRequest rt before_stamp s after_stamp w agg_id env step q =
    by_decision (decide rt s (apply_all rt w before) env) refl q
  where
    elsewhere : Bool
    elsewhere = not (agg_id == env.aggregate_id)

    before : List Envelope
    before = if elsewhere then track_before before_stamp w env env.body else []

    by_decision :
        (o : Outcome Decided)
        → decide rt s (apply_all rt w before) env ≡ o
        → finish_step after_stamp elsewhere env before o ≡ done step
        → StartsOnRequest env step.published
    by_decision panic e f = cc
    by_decision (done r) e f =
        let same : r.events ≡ step.published = ground (arith, f) in
        subst (StartsOnRequest env) same
          (decide-StartsOnRequest rt s (apply_all rt w before) env r e)
