-- ===== src/Aggregate/Program.antt =====
-- The definitions of the aggregate that a run has to see through, under one name for the tests.
use rick_driven_development.Prelude.{contains}
use rick_driven_development.Prelude.Dict.{lookup, set, erase, erase_value, get_or}
use rick_driven_development.Workflow.Def.{is_consolidated_reviewer}
use rick_driven_development.Workflow.Downstream.{personas_to_invalidate_for}
use rick_driven_development.Aggregate.State.{
  new_workflow_aggregate, has_completed, is_stale_after_feedback, is_required_persona,
  all_completed, is_category_reviewer,
}
use rick_driven_development.Aggregate.Fingerprint.{verdict_fingerprint}
use rick_driven_development.Aggregate.Failure.{
  kind_is_auto_retryable, looks_like_rate_limit, extract_rate_limit_reset_hint,
}
use rick_driven_development.Aggregate.Apply.{
  apply_requested, apply_paused, invalidate, count_auto_retry, apply_retried, apply_completed,
  absorbs_failures, apply_failed, apply_feedback, apply_verdict, apply_body, apply, apply_all,
}
use rick_driven_development.Aggregate.Float.{less_equal, is_positive}
use rick_driven_development.Aggregate.Emit.{emit, maybe_emit_workflow_completed}
use rick_driven_development.Aggregate.Decide.Failures.{
  maybe_auto_retry, rate_limit_pause, maybe_rate_limit_pause, skip_or_fail, fail_required,
  decide_persona_failed,
}
use rick_driven_development.Aggregate.Decide.Verdicts.{
  escalate_verdict, is_repeated_failure, max_iterations_reached, feedback, decide_failing_verdict,
  decide_verdict_rendered,
}
use rick_driven_development.Aggregate.Decide.Resume.{
  resume_retry, resume_feedback, resume_retarget, resume_scan, decide_workflow_resumed,
}
use rick_driven_development.Aggregate.Decide.Hints.{
  hint_threshold_of, decide_hint_emitted, decide_hint_rejected,
}
use rick_driven_development.Aggregate.Decide.{
  decide_workflow_requested, decide_token_budget_exceeded, decide_body, decide,
}

unfoldable pub dictionary : Unit {0}
unfolding contains lookup set erase erase_value get_or
dictionary = tt

unfoldable pub fold : Unit {0}
unfolding dictionary new_workflow_aggregate has_completed is_stale_after_feedback
    is_required_persona all_completed is_category_reviewer verdict_fingerprint apply_requested
    apply_paused invalidate count_auto_retry apply_retried apply_completed absorbs_failures
    apply_failed apply_feedback apply_verdict apply_body apply apply_all
fold = tt

unfoldable pub program : Unit {0}
unfolding fold kind_is_auto_retryable looks_like_rate_limit extract_rate_limit_reset_hint less_equal
    is_positive emit maybe_emit_workflow_completed maybe_auto_retry rate_limit_pause
    maybe_rate_limit_pause skip_or_fail fail_required decide_persona_failed escalate_verdict
    is_repeated_failure max_iterations_reached feedback decide_failing_verdict
    decide_verdict_rendered resume_retry resume_feedback resume_retarget resume_scan
    decide_workflow_resumed hint_threshold_of decide_hint_emitted decide_hint_rejected
    decide_workflow_requested decide_token_budget_exceeded decide_body decide
    is_consolidated_reviewer personas_to_invalidate_for
program = tt
