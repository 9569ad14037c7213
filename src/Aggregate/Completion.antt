-- ===== src/Aggregate/Completion.antt =====
-- internal/engine/aggregate.go: maybeEmitWorkflowCompleted.
use rick_driven_development.Prelude.{
  ℕ, ◌≡◌, refl, ◌↔◌, String, Bool, true, false, ◌||◌, List, [], ◌∷◌, some, arith, eq_iff, contains,
  Option-cases, inl, inr,
}
use rick_driven_development.Event.Payload.{
  PersonaFailedPayload, PersonaCompletedPayload, VerdictPayload, HintEmittedPayload,
  HintRejectedPayload,
}
use rick_driven_development.Event.Envelope.{
  Envelope, Body, Json, Stamp, workflow_completed, persona_completed,
}
use rick_driven_development.Workflow.Def.{WorkflowDef}
use rick_driven_development.Aggregate.Runtime.{Runtime, done}
use rick_driven_development.Aggregate.State.{
  WorkflowAggregate, has_completed, is_running, all_completed,
}
use rick_driven_development.Aggregate.Emit.{emit, maybe_emit_workflow_completed}
use rick_driven_development.Aggregate.Decide.Branches.{
  FailureBranch, retried, paused_for, fell_through,
}
use rick_driven_development.Aggregate.Decide.Induction.{decide_induction}
use rick_driven_development.Aggregate.Decide.Failures.{skip_or_fail}
use rick_driven_development.Aggregate.Decide.Verdicts.{
  escalate_verdict, max_iterations_reached, feedback, decide_failing_verdict,
}
use rick_driven_development.Aggregate.Decide.Resume.{
  Decided, resume_retry, resume_feedback, resume_retarget, resume_scan, decide_workflow_resumed,
}
use rick_driven_development.Aggregate.Decide.Hints.{decide_hint_emitted, decide_hint_rejected}
use rick_driven_development.Aggregate.Decide.{
  decide_workflow_requested, decide_token_budget_exceeded, decide_body, decide,
}

abbrev pub is_completion : Body → Bool
is_completion (workflow_completed j) = true
is_completion _ = false

-- Some event declares the workflow complete.
abbrev pub completes : List Envelope → Bool
completes [] = false
completes (e ∷ es) = is_completion e.body || completes es

-- The workflow runs, and every persona that its definition requires has completed or was skipped.
abbrev pub IsComplete : WorkflowAggregate → Type 0
IsComplete w =
    (d : WorkflowDef) × (w.workflow_def ≡ some d)
    × (is_running w.status ≡ true)
    × ((p : String) → contains d.required p ≡ true → has_completed w p ≡ true)

all_completed_sound :
    (w : WorkflowAggregate) (rs : List String) (p : String)
    → all_completed w rs ≡ true
    → contains rs p ≡ true
    → has_completed w p ≡ true
unfolding all_completed contains
all_completed_sound w [] p h m = ground arith
all_completed_sound w (r ∷ rs) p h m = ground (arith, all_completed_sound w rs p, eq_iff r p)

all_completed_complete :
    (w : WorkflowAggregate) (rs : List String)
    → ((p : String) → contains rs p ≡ true → has_completed w p ≡ true)
    → all_completed w rs ≡ true
unfolding all_completed contains
all_completed_complete w [] h = refl
all_completed_complete w (r ∷ rs) h = ground (
  arith,
  h r (ground (arith, eq_iff r r)),
  all_completed_complete w rs (λ p m. h p (ground (arith, m))),
)

completes-maybe_emit :
    (s : Stamp) (w : WorkflowAggregate) (env : Envelope)
    → (completes (maybe_emit_workflow_completed s w env) ≡ true) ↔ IsComplete w
unfolding maybe_emit_workflow_completed emit
completes-maybe_emit s w env = (to, back)
  where
    to : completes (maybe_emit_workflow_completed s w env) ≡ true → IsComplete w
    to h = elim (Option-cases w.workflow_def) [
      | inl n ↦ absurd (ground (arith, n))
      | inr (d, e) ↦
          (d, e, ground (arith, e), λ p. all_completed_sound w d.required p (ground (arith, e)))
    ]

    back : IsComplete w → completes (maybe_emit_workflow_completed s w env) ≡ true
    back (d, e, r, all) = ground (arith, e, r, all_completed_complete w d.required all)

-- A completed persona makes Decide declare the workflow complete just when the workflow runs and
-- every required persona has completed.
pub persona_completed-completes :
    (rt : Runtime) (s : Stamp) (w : WorkflowAggregate) (env : Envelope)
    {j : Json PersonaCompletedPayload}
    → env.body ≡ persona_completed j
    → (r : Decided) × (decide rt s w env ≡ done r) × ((completes r.events ≡ true) ↔ IsComplete w)
unfolding decide decide_body
persona_completed-completes rt s w env {j} e = (
  record { state = w; events = maybe_emit_workflow_completed s w env },
  ground (arith, e),
  completes-maybe_emit s w env,
)

module _ (rt : Runtime) (s : Stamp) (w : WorkflowAggregate) (env : Envelope) where
  abbrev Sound : WorkflowAggregate → List Envelope → Type 0
  Sound w' es = completes es ≡ true → IsComplete w

  failed-Sound :
      (d : WorkflowDef) (p : PersonaFailedPayload) (es : List Envelope)
      → FailureBranch rt s w env d p es
      → Sound w es
  unfolding emit skip_or_fail
  failed-Sound d p es (retried e r q) c = absurd (ground (arith, r.event))
  failed-Sound d p es (paused_for e hint r q) c = absurd (ground (arith, r.event))
  failed-Sound d p es (fell_through n q) c = (completes-maybe_emit s w env).0 (ground (arith, q))

  requested-silent : completes (decide_workflow_requested s w env) ≡ false
  unfolding decide_workflow_requested emit
  requested-silent = ground arith

  verdict-silent : (v : VerdictPayload) → completes (decide_failing_verdict rt s w env v) ≡ false
  unfolding decide_failing_verdict escalate_verdict max_iterations_reached feedback emit
  verdict-silent v = ground arith

  scan-silent : (counts : List (String × ℕ)) → completes (resume_scan s w env counts).events ≡ false
  unfolding resume_scan resume_feedback emit
  scan-silent [] = refl
  scan-silent ((persona, count) ∷ counts) = ground (arith, scan-silent counts)

  resumed-silent : completes (decide_workflow_resumed rt s w env).events ≡ false
  unfolding decide_workflow_resumed resume_retry resume_retarget resume_feedback emit
  resumed-silent = ground (arith, scan-silent (rt.range_order w.feedback_count))

  hint-silent : (j : Json HintEmittedPayload) → completes (decide_hint_emitted s w env j) ≡ false
  unfolding decide_hint_emitted emit
  hint-silent j = ground arith

  rejection-silent :
      (j : Json HintRejectedPayload) → completes (decide_hint_rejected s w env j) ≡ false
  unfolding decide_hint_rejected emit
  rejection-silent j = ground arith

  -- Whatever the event, Decide declares a workflow complete only if it runs and every required
  -- persona has completed.
  pub decide-completes :
      (r : Decided) → decide rt s w env ≡ done r → completes r.events ≡ true → IsComplete w
  unfolding decide_token_budget_exceeded emit
  decide-completes = decide_induction Sound rt s w env (record {
    on_nothing = λ c. cc;
    on_requested = λ _ c. absurd (ground (arith, requested-silent));
    on_completed = (completes-maybe_emit s w env).0;
    on_failed = λ d p es _ _ _ b. failed-Sound d p es b;
    on_verdict = λ v _ _ _ c. absurd (ground (arith, verdict-silent v));
    on_budget = λ _ c. cc;
    on_resumed = λ _ c. absurd (ground (arith, resumed-silent));
    on_hint = λ j c. absurd (ground (arith, hint-silent j));
    on_rejection = λ j c. absurd (ground (arith, rejection-silent j));
  })
