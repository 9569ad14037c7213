-- ===== src/Aggregate/Decide/Induction.antt =====
-- internal/engine/aggregate.go: the kinds of decision, for proofs on all of them.
use rick_driven_development.Prelude.{◌≡◌, refl, true, List, [], some, arith, subst, sym}
use rick_driven_development.Event.Payload.{
  WorkflowRequestedPayload, WorkflowResumedPayload, TokenBudgetExceededPayload, VerdictPayload,
  PersonaFailedPayload, HintEmittedPayload, HintRejectedPayload, zero_verdict, zero_failed,
}
use rick_driven_development.Event.Envelope.{
  Envelope, Body, Json, Stamp, unmarshal, workflow_requested, workflow_resumed, persona_completed,
  persona_failed, verdict_rendered, token_budget_exceeded, hint_emitted, hint_rejected,
}
use rick_driven_development.Workflow.Def.{WorkflowDef}
use rick_driven_development.Aggregate.Runtime.{Runtime, Outcome, done, panic}
use rick_driven_development.Aggregate.State.{WorkflowAggregate, is_running, is_required_persona}
use rick_driven_development.Aggregate.Apply.{is_fail}
use rick_driven_development.Aggregate.Emit.{maybe_emit_workflow_completed}
use rick_driven_development.Aggregate.Decide.Branches.{
  passed_over, judged, decide_verdict_rendered-branch, FailureBranch, fail_required-branch, ignored,
  handled, decide_persona_failed-branch,
}
use rick_driven_development.Aggregate.Decide.Failures.{decide_persona_failed}
use rick_driven_development.Aggregate.Decide.Verdicts.{decide_failing_verdict}
use rick_driven_development.Aggregate.Decide.Resume.{Decided, decide_workflow_resumed}
use rick_driven_development.Aggregate.Decide.Hints.{decide_hint_emitted, decide_hint_rejected}
use rick_driven_development.Aggregate.Decide.{
  decide_workflow_requested, decide_token_budget_exceeded, decide_body, decide, unchanged,
}

pub record DecideCases {ℓ} (P : WorkflowAggregate → List Envelope → Type ℓ) (rt : Runtime)
    (s : Stamp) (w : WorkflowAggregate) (env : Envelope) : Type ℓ where
  pub on_nothing : P w []
  pub on_requested :
      {j : Json WorkflowRequestedPayload}
      → env.body ≡ workflow_requested j
      → P w (decide_workflow_requested s w env)
  pub on_completed : P w (maybe_emit_workflow_completed s w env)
  pub on_failed :
      (d : WorkflowDef) (p : PersonaFailedPayload) (es : List Envelope)
      → w.workflow_def ≡ some d
      → is_running w.status ≡ true
      → is_required_persona w p.persona ≡ true
      → FailureBranch rt s w env d p es
      → P w es
  pub on_verdict :
      (v : VerdictPayload)
      → is_running w.status ≡ true
      → is_fail v.outcome ≡ true
      → is_required_persona w v.persona ≡ true
      → P w (decide_failing_verdict rt s w env v)
  pub on_budget :
      {j : Json TokenBudgetExceededPayload}
      → env.body ≡ token_budget_exceeded j
      → P w (decide_token_budget_exceeded s w env)
  pub on_resumed :
      {j : Json WorkflowResumedPayload}
      → env.body ≡ workflow_resumed j
      → P (decide_workflow_resumed rt s w env).state (decide_workflow_resumed rt s w env).events
  pub on_hint : (j : Json HintEmittedPayload) → P w (decide_hint_emitted s w env j)
  pub on_rejection : (j : Json HintRejectedPayload) → P w (decide_hint_rejected s w env j)

module _ {ℓ} (P : WorkflowAggregate → List Envelope → Type ℓ) (rt : Runtime) (s : Stamp)
    (w : WorkflowAggregate) (env : Envelope) (c : DecideCases P rt s w env) where
  kept :
      (es : List Envelope) (r : Decided)
      → unchanged w (done es) ≡ done r
      → P w es
      → P r.state r.events
  kept es r q h =
      let same : record { state = w; events = es } ≡ r = ground arith in
      subst (λ x. P x.state x.events) same h

  on_persona_failed :
      (j : Json PersonaFailedPayload) (o : Outcome (List Envelope)) (r : Decided)
      → decide_persona_failed rt s w env j ≡ o
      → unchanged w o ≡ done r
      → P r.state r.events
  on_persona_failed j panic r e q = cc
  on_persona_failed j (done es) r e q =
      kept es r q (elim (decide_persona_failed-branch rt s w env j es e) [
        | ignored n ↦ subst (P w) (sym n) c.on_nothing
        | handled d a b n f ↦
            c.on_failed d (unmarshal zero_failed j) es a b n
              (fail_required-branch rt s w env d (unmarshal zero_failed j) es f)
      ])

  on_body :
      (b : Body) (r : Decided)
      → env.body ≡ b
      → decide_body rt s w env b ≡ done r
      → P r.state r.events
  unfolding decide_body
  on_body (workflow_requested j) r e q = kept _ r q (c.on_requested e)
  on_body (persona_completed j) r e q = kept _ r q c.on_completed
  on_body (persona_failed j) r e q = on_persona_failed j _ r refl q
  on_body (verdict_rendered j) r e q =
      kept _ r q (elim (decide_verdict_rendered-branch rt s w env j) [
        | passed_over n ↦ subst (P w) (sym n) c.on_nothing
        | judged a b n f ↦ subst (P w) (sym f) (c.on_verdict (unmarshal zero_verdict j) a b n)
      ])
  on_body (token_budget_exceeded j) r e q = kept _ r q (c.on_budget e)
  on_body (workflow_resumed j) r e q =
      let same : decide_workflow_resumed rt s w env ≡ r = ground arith in
      subst (λ x. P x.state x.events) same (c.on_resumed e)
  on_body (hint_emitted j) r e q = kept _ r q (c.on_hint j)
  on_body (hint_rejected j) r e q = kept _ r q (c.on_rejection j)
  on_body _ r e q = kept [] r q c.on_nothing

  pub decide_induction : (r : Decided) → decide rt s w env ≡ done r → P r.state r.events
  unfolding decide
  decide_induction r q = on_body env.body r refl q
