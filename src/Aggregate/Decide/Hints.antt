-- ===== src/Aggregate/Decide/Hints.antt =====
-- internal/engine/aggregate.go: decideHintEmitted and decideHintRejected.
use rick_driven_development.Prelude.{
  String, Bool, false, true, not, ◌&&◌, List, [], ◌∷◌, Option, none, some, ◌==◌, if◌then◌else◌,
}
use rick_driven_development.Event.Payload.{
  Float64, Reason, HintEmittedPayload, HintRejectedPayload, zero_hint_emitted, zero_hint_rejected,
}
use rick_driven_development.Event.Envelope.{
  Envelope, Json, Stamp, unmarshal, workflow_paused, persona_completed, hint_approved,
}
use rick_driven_development.Workflow.Def.{WorkflowDef}
use rick_driven_development.Aggregate.Float.{less_equal, is_positive}
use rick_driven_development.Aggregate.State.{WorkflowAggregate, is_running, is_paused}
use rick_driven_development.Aggregate.Emit.{emit, failure}

-- 0.7, as a float64
abbrev pub default_threshold : Float64
default_threshold = 0x3fe6666666666666

unfoldable pub hint_threshold_of : Option WorkflowDef → Float64
hint_threshold_of none = default_threshold
hint_threshold_of (some d) =
    if is_positive d.hint_threshold then d.hint_threshold else default_threshold

abbrev pub is_empty : List String → Bool
is_empty [] = true
is_empty (x ∷ xs) = false

unfoldable pub decide_hint_emitted :
    Stamp → WorkflowAggregate → Envelope → Json HintEmittedPayload → List Envelope
decide_hint_emitted s w env j =
    let h = unmarshal zero_hint_emitted j in
    if not (is_running w.status)
    then []
    else if less_equal (hint_threshold_of w.workflow_def) h.confidence && is_empty h.blockers
    then emit s w env "engine:aggregate" (
        hint_approved
          (some (record { persona = h.persona; trigger_id = h.trigger_id; guidance = "" })))
      ∷ []
    else emit s w env "engine:aggregate" (
        workflow_paused (
          some (record {
            reason = Reason.hint_review h.persona h.confidence h.blockers;
            source = "engine:hint-review";
            retarget_persona = "";
            retarget_source = "";
            retry_from_phase = "";
            rate_limit_reset_hint = [];
            rate_limit_backend = "";
          })))
      ∷ []

unfoldable pub decide_hint_rejected :
    Stamp → WorkflowAggregate → Envelope → Json HintRejectedPayload → List Envelope
decide_hint_rejected s w env j =
    let h = unmarshal zero_hint_rejected j in
    if not (is_running w.status) && not (is_paused w.status)
    then []
    else if h.action == "skip"
    then emit s w env "engine:hint-skip" (
        persona_completed (
          some (record {
            persona = h.persona;
            trigger_event = "hint.rejected";
            trigger_id = env.id;
            reactive = false;
            output_ref = "";
            duration_ms = 0;
            chain_depth = 0;
          })))
      ∷ []
    else if h.action == "fail"
    then emit s w env "engine:hint-fail"
        (failure (Reason.hint_rejected h.persona h.reason) h.persona)
      ∷ []
    else []
