-- ===== src/Aggregate/Decide.antt =====
-- internal/engine/aggregate.go: Decide. `Stamp` holds the id and the time of the one event that a
-- decision emits.
pub mod Branches
pub mod Induction
pub mod Failures
pub mod Verdicts
pub mod Resume
pub mod Hints
use rick_driven_development.Prelude.{◌+◌, List, [], ◌∷◌, Option, none, some, if◌then◌else◌}
use rick_driven_development.Event.Payload.{unspecified, text, unknown_workflow_id}
use rick_driven_development.Event.Envelope.{
  Envelope, Body, Stamp, workflow_requested, workflow_started, workflow_resumed, persona_completed,
  persona_failed, verdict_rendered, token_budget_exceeded, hint_emitted, hint_rejected,
}
use rick_driven_development.Aggregate.Runtime.{Runtime, Outcome, done, panic}
use rick_driven_development.Aggregate.State.{WorkflowAggregate, is_requested}
use rick_driven_development.Aggregate.Emit.{emit, failure, maybe_emit_workflow_completed}
use Failures.{decide_persona_failed}
use Verdicts.{decide_verdict_rendered}
use Resume.{Decided, decide_workflow_resumed}
use Hints.{decide_hint_emitted, decide_hint_rejected}

unfoldable pub decide_workflow_requested : Stamp → WorkflowAggregate → Envelope → List Envelope
decide_workflow_requested s w env = elim w.workflow_def [
  | none ↦ emit s w env "engine:aggregate" (failure (unknown_workflow_id w.workflow_id) "") ∷ []
  | some d ↦
      if is_requested w.status
      then emit s w env "engine:aggregate" (
          workflow_started (some w.workflow_id) (
            some (record {
              workflow_id = w.workflow_id;
              phases = d.required;
              source = w.source;
              ticket = w.ticket;
              prompt = w.prompt;
            })))
        ∷ []
      else []
]

unfoldable pub decide_token_budget_exceeded : Stamp → WorkflowAggregate → Envelope → List Envelope
decide_token_budget_exceeded s w env =
    emit s w env "engine:aggregate" (failure (text "token budget exceeded") "") ∷ []

abbrev pub unchanged : WorkflowAggregate → Outcome (List Envelope) → Outcome Decided
unchanged w panic = panic
unchanged w (done events) = done (record { state = w; events = events })

unfoldable pub decide_body : Runtime → Stamp → WorkflowAggregate → Envelope → Body → Outcome Decided
decide_body rt s w env (workflow_requested j) =
    unchanged w (done (decide_workflow_requested s w env))
decide_body rt s w env (persona_completed j) =
    unchanged w (done (maybe_emit_workflow_completed s w env))
decide_body rt s w env (persona_failed j) = unchanged w (decide_persona_failed rt s w env j)
decide_body rt s w env (verdict_rendered j) =
    unchanged w (done (decide_verdict_rendered rt s w env j))
decide_body rt s w env (token_budget_exceeded j) =
    unchanged w (done (decide_token_budget_exceeded s w env))
decide_body rt s w env (workflow_resumed j) = done (decide_workflow_resumed rt s w env)
decide_body rt s w env (hint_emitted j) = unchanged w (done (decide_hint_emitted s w env j))
decide_body rt s w env (hint_rejected j) = unchanged w (done (decide_hint_rejected s w env j))
decide_body rt s w env _ = unchanged w (done [])

unfoldable pub decide : Runtime → Stamp → WorkflowAggregate → Envelope → Outcome Decided
decide rt s w env = decide_body rt s w env env.body
