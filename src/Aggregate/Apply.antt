-- ===== src/Aggregate/Apply.antt =====
-- internal/engine/aggregate.go: Apply.
use Prim.Native.String.{◌++◌ as join}
use rick_driven_development.Prelude.{
  ◌+◌, ◌%◌, ◌^◌, String, Bool, false, true, not, ◌&&◌, ◌||◌, List, [], ◌∷◌, Option, none, some,
  ◌==◌, if◌then◌else◌,
}
use rick_driven_development.Prelude.Dict.{set, erase, erase_value, get_or}
use rick_driven_development.Event.Payload.{
  WorkflowRequestedPayload, WorkflowPausedPayload, WorkflowRetriedPayload, PersonaCompletedPayload,
  PersonaFailedPayload, FeedbackGeneratedPayload, VerdictPayload, VerdictOutcome, fail,
  zero_requested, zero_paused, zero_retried, zero_verdict, zero_feedback, zero_ai_response,
  zero_completed, zero_failed,
}
use rick_driven_development.Event.Envelope.{
  Envelope, Body, unmarshal, workflow_requested, workflow_started, workflow_completed,
  workflow_failed, workflow_cancelled, workflow_paused, workflow_resumed, workflow_retried,
  persona_completed, persona_tracked, persona_failed_tracked, verdict_tracked, feedback_generated,
  ai_response_received,
}
use rick_driven_development.Workflow.Def.{WorkflowDef}
use rick_driven_development.Aggregate.Runtime.{Runtime}
use rick_driven_development.Aggregate.Fingerprint.{verdict_fingerprint}
use rick_driven_development.Aggregate.State.{
  WorkflowAggregate, requested, running, completed, failed, cancelled, paused, is_category_reviewer,
}

abbrev pub is_fail : VerdictOutcome → Bool
is_fail fail = true
is_fail _ = false

-- sourcePersona + "|" + targetPersona
abbrev pub fingerprint_key : String → String → String
fingerprint_key source target = join source (join "|" target)

unfoldable pub apply_requested : WorkflowRequestedPayload → WorkflowAggregate → WorkflowAggregate
apply_requested p w = record w {
  prompt = p.prompt;
  workflow_id = p.workflow_id;
  source = p.source;
  ticket = p.ticket;
  status = requested;
}

unfoldable pub apply_paused : WorkflowPausedPayload → WorkflowAggregate → WorkflowAggregate
apply_paused p w = record w {
  pending_resume_retarget = p.retarget_persona;
  pending_resume_retarget_source = p.retarget_source;
  pending_resume_retry_from_phase = p.retry_from_phase;
  status = paused;
}

abbrev pub drop_persona : String → WorkflowAggregate → WorkflowAggregate
drop_persona persona w = record w {
  completed_personas = erase persona w.completed_personas;
  feedback_pending = erase_value persona (erase persona w.feedback_pending);
}

-- for _, persona := range p.InvalidatedPersonas { … }
unfoldable pub invalidate : List String → WorkflowAggregate → WorkflowAggregate
invalidate [] w = w
invalidate (persona ∷ ps) w = invalidate ps (drop_persona persona w)

unfoldable pub count_auto_retry : WorkflowRetriedPayload → WorkflowAggregate → WorkflowAggregate
count_auto_retry p w =
    if p.automatic && not (p.from_phase == "")
    then record w {
      auto_retries = set p.from_phase (get_or 0 p.from_phase w.auto_retries + 1) w.auto_retries;
    }
    else w

unfoldable pub apply_retried : WorkflowRetriedPayload → WorkflowAggregate → WorkflowAggregate
apply_retried p w = record (count_auto_retry p (invalidate p.invalidated_personas w)) {
  status = running;
}

unfoldable pub apply_completed : PersonaCompletedPayload → WorkflowAggregate → WorkflowAggregate
apply_completed p w = record w {
  completed_personas = set p.persona true w.completed_personas;
  feedback_pending = erase_value p.persona w.feedback_pending;
}

unfoldable pub absorbs_failures : Option WorkflowDef → Bool
absorbs_failures none = false
absorbs_failures (some d) = d.partial_review_on_failure

unfoldable pub apply_failed : PersonaFailedPayload → WorkflowAggregate → WorkflowAggregate
apply_failed p w =
    if absorbs_failures w.workflow_def && (not (p.persona == "") && is_category_reviewer p.persona)
    then record w {
      completed_personas = set p.persona true w.completed_personas;
      skipped_personas = set p.persona true w.skipped_personas;
    }
    else w

unfoldable pub apply_feedback : FeedbackGeneratedPayload → WorkflowAggregate → WorkflowAggregate
apply_feedback p w =
    let w' = record w {
      feedback_count =
          set p.target_persona (get_or 0 p.target_persona w.feedback_count + 1) w.feedback_count;
      completed_personas = erase p.target_persona w.completed_personas;
    } in
    if p.source_persona == "" then w' else record w' {
      completed_personas = erase p.source_persona w'.completed_personas;
      feedback_pending = set p.source_persona p.target_persona w.feedback_pending;
    }

unfoldable pub apply_verdict : Runtime → VerdictPayload → WorkflowAggregate → WorkflowAggregate
apply_verdict rt v w =
    let key = fingerprint_key v.source_persona v.persona in
    if v.source_persona == "" || v.persona == ""
    then w
    else if is_fail v.outcome
    then record w {
      last_verdict_fingerprint =
          set key (verdict_fingerprint rt.sha256_hex v) w.last_verdict_fingerprint;
      last_failing_verdict =
          set v.persona
            (record { source_persona = v.source_persona; raw_diagnostics = v.raw_diagnostics })
            w.last_failing_verdict;
    }
    else record w {
      last_verdict_fingerprint = erase key w.last_verdict_fingerprint;
      last_failing_verdict = erase v.persona w.last_failing_verdict;
    }

-- `TokensUsed` is a 64-bit `int`, kept as its bits.
unfoldable pub apply_body : Runtime → Body → WorkflowAggregate → WorkflowAggregate
apply_body rt (workflow_requested j) w = apply_requested (unmarshal zero_requested j) w
apply_body rt (workflow_completed j) w = record w { status = completed }
apply_body rt (workflow_failed j) w = record w { status = failed }
apply_body rt (workflow_cancelled j) w = record w { status = cancelled }
apply_body rt (workflow_paused j) w = apply_paused (unmarshal zero_paused j) w
apply_body rt (workflow_resumed j) w = record w { status = running }
apply_body rt (workflow_retried j) w = apply_retried (unmarshal zero_retried j) w
apply_body rt (persona_completed j) w = apply_completed (unmarshal zero_completed j) w
apply_body rt (persona_tracked j) w = apply_completed (unmarshal zero_completed j) w
apply_body rt (persona_failed_tracked j) w = apply_failed (unmarshal zero_failed j) w
apply_body rt (ai_response_received j) w = record w {
  tokens_used = (w.tokens_used + (unmarshal zero_ai_response j).tokens_used) % 2 ^ 64;
}
apply_body rt (feedback_generated j) w = apply_feedback (unmarshal zero_feedback j) w
apply_body rt (verdict_tracked j) w = apply_verdict rt (unmarshal zero_verdict j) w
apply_body rt (workflow_started id j) w = record w { status = running }
apply_body rt _ w = w

unfoldable pub apply : Runtime → WorkflowAggregate → Envelope → WorkflowAggregate
apply rt w env = apply_body rt env.body (record w { version = env.version })

unfoldable pub apply_all : Runtime → WorkflowAggregate → List Envelope → WorkflowAggregate
apply_all rt w [] = w
apply_all rt w (env ∷ envs) = apply_all rt (apply rt w env) envs
