-- ===== src/Examples/Decisions.antt =====
-- The theorems on decisions and on the fold, applied to a running develop-only workflow.
use rick_driven_development.Prelude.{
  Option, ◌≡◌, refl, ◌↔◌, false, true, [], ◌∷◌, some, none, arith, eq_iff,
}
use rick_driven_development.Prelude.Dict.{get_or, lookup}
use rick_driven_development.Event.Payload.{
  PersonaFailedPayload, FeedbackGeneratedPayload, WorkflowRetriedPayload, zero_completed,
  zero_feedback, zero_retried,
}
use rick_driven_development.Event.Envelope.{
  Envelope, persona_completed, persona_failed, verdict_rendered, verdict_tracked, workflow_resumed,
  token_budget_exceeded, feedback_generated, workflow_retried,
}
use rick_driven_development.Workflow.Builtin.Development.{develop_only_workflow_def}
use rick_driven_development.Aggregate.Runtime.{Outcome, done, panic}
use rick_driven_development.Aggregate.State.{
  Status, WorkflowAggregate, running, completed, cancelled, failed, paused, has_completed,
}
use rick_driven_development.Aggregate.Fingerprint.{codes}
use rick_driven_development.Aggregate.Apply.{apply, apply_all}
use rick_driven_development.Aggregate.Decide.{decide}
use rick_driven_development.Aggregate.Decide.Resume.{Decided}
use rick_driven_development.Aggregate.Decide.Verdicts.{is_repeated_failure}
use rick_driven_development.Aggregate.Program.{program}
use rick_driven_development.Aggregate.Bounds.{IsWithinLimits, decide-IsWithinLimits}
use rick_driven_development.Aggregate.Completion.{
  IsComplete, completes, decide-completes, persona_completed-completes,
}
use rick_driven_development.Aggregate.Terminal.{IsNumbered, decide_of_terminal, decide-IsNumbered}
use rick_driven_development.Aggregate.Rounds.{IsRoundOf, feedback_round, retry_standing}
use rick_driven_development.Aggregate.Resumption.{
  Emits, resumption_retry, rate_limit_roundtrip, repeated_failure_roundtrip, verdict_memory,
}
use rick_driven_development.Examples.Data.{
  plain, plain-RangesOver, stamp, arrives, midway, finished, failing_verdict, limited, result,
}

abbrev committer_done : Envelope
committer_done =
    arrives (persona_completed (some (record zero_completed { persona = "committer" })))

decide-completes_example : IsComplete finished
unfolding program
decide-completes_example =
    decide-completes plain stamp finished committer_done
      (result (decide plain stamp finished committer_done)) refl refl

persona_completed-completes_example :
    (r : Decided) × (decide plain stamp midway committer_done ≡ done r)
    × ((completes r.events ≡ true) ↔ IsComplete midway)
persona_completed-completes_example =
    persona_completed-completes plain stamp midway committer_done refl

midway-IsWithinLimits : IsWithinLimits midway
unfolding program
midway-IsWithinLimits = record {
  rounds = λ p. ground (arith, eq_iff "developer" p);
  retries = λ p. ground arith;
}

abbrev review_fails : Envelope
review_fails = arrives (verdict_rendered (some failing_verdict))

decide-IsWithinLimits_example :
    let r = result (decide plain stamp midway review_fails) in
    IsWithinLimits (apply_all plain r.state r.events)
unfolding program
decide-IsWithinLimits_example =
    decide-IsWithinLimits plain stamp midway review_fails
      (result (decide plain stamp midway review_fails)) plain-RangesOver midway-IsWithinLimits refl

decide-IsNumbered_example :
    IsNumbered plain stamp midway review_fails
      (result (decide plain stamp midway review_fails)).events
unfolding program
decide-IsNumbered_example =
    decide-IsNumbered plain stamp midway review_fails
      (result (decide plain stamp midway review_fails)) refl

abbrev cancelled_late : WorkflowAggregate
cancelled_late = record midway { status = cancelled }

decide_of_terminal_example :
    let r = result (decide plain stamp cancelled_late review_fails) in
    (r.state ≡ cancelled_late) × (r.events ≡ [])
unfolding program
decide_of_terminal_example =
    decide_of_terminal plain stamp cancelled_late review_fails refl refl
      (result (decide plain stamp cancelled_late review_fails)) refl

abbrev over_budget : Envelope
over_budget = arrives (token_budget_exceeded none)

-- An exceeded budget fails a workflow that has completed.
abbrev status_after : Outcome Decided → Option Status
status_after panic = none
status_after (done r) = some (apply_all plain r.state r.events).status

completed_then_over_budget :
    status_after (decide plain stamp (record finished { status = completed }) over_budget)
    ≡ some failed
unfolding program
completed_then_over_budget = refl

abbrev feedback_to_developer : FeedbackGeneratedPayload
feedback_to_developer = record zero_feedback {
  target_persona = "developer";
  source_persona = "reviewer";
}

abbrev feedback_arrives : Envelope
feedback_arrives = arrives (feedback_generated (some feedback_to_developer))

feedback_round_example :
    IsRoundOf finished (apply plain finished feedback_arrives) feedback_to_developer "workspace"
unfolding program
feedback_round_example =
    feedback_round plain finished feedback_arrives feedback_to_developer "workspace" refl (λ e. cc)
      (λ e. cc)

abbrev waiting : WorkflowAggregate
waiting = apply plain finished feedback_arrives

abbrev automatic_retry : WorkflowRetriedPayload
automatic_retry = record zero_retried {
  from_phase = "reviewer";
  invalidated_personas = "reviewer" ∷ "committer" ∷ [];
  automatic = true;
}

retry_standing_example :
    let w' = apply plain finished (arrives (workflow_retried (some automatic_retry))) in
    (w'.status ≡ running)
    × (has_completed w' "reviewer" ≡ false)
    × (true ≡ true → lookup "reviewer" w'.feedback_pending ≡ none)
    × (get_or 0 "reviewer" w'.auto_retries ≡ 1)
unfolding program
retry_standing_example =
    retry_standing plain finished (arrives (workflow_retried (some automatic_retry)))
      automatic_retry "reviewer" refl

abbrev resume : Envelope
resume = arrives (workflow_resumed none)

abbrev hit_limit : PersonaFailedPayload
hit_limit = limited (codes "Limit reached, resets 3pm")

rate_limit_roundtrip_example :
    (r r' : Decided) × (decide plain stamp midway (arrives (persona_failed (some hit_limit)))
      ≡ done r)
    × ((apply_all plain r.state r.events).status ≡ paused)
    × ((apply_all plain r.state r.events).auto_retries ≡ [])
    × (decide plain stamp (apply plain (apply_all plain r.state r.events) resume) resume ≡ done r')
    × Emits
        (workflow_retried (some (resumption_retry develop_only_workflow_def "developer")))
        r'.events
unfolding program
rate_limit_roundtrip_example =
    rate_limit_roundtrip plain stamp stamp midway develop_only_workflow_def
      (arrives (persona_failed (some hit_limit))) resume none refl refl refl hit_limit (codes "3pm")
      refl refl (λ e. cc) refl refl refl refl

abbrev repeating : WorkflowAggregate
repeating = record midway { last_verdict_fingerprint = ("reviewer|developer", "5e884898") ∷ [] }

repeated_failure_roundtrip_example :
    (r r' : Decided) × (decide plain stamp repeating review_fails ≡ done r)
    × ((apply_all plain r.state r.events).status ≡ paused)
    × (decide plain stamp (apply plain (apply_all plain r.state r.events) resume) resume ≡ done r')
    × Emits
        (feedback_generated (
          some (record {
            target_persona = "developer";
            source_persona = "reviewer";
            iteration = 2;
            issues = [];
            summary = "re-triggered after operator guidance";
            raw_diagnostics = "";
          })))
        r'.events
    × (r'.state.max_iterations ≡ 3)
unfolding program
repeated_failure_roundtrip_example =
    repeated_failure_roundtrip plain stamp stamp repeating develop_only_workflow_def review_fails
      resume none refl refl refl failing_verdict refl refl refl (λ e. cc) (λ e. cc) refl refl

verdict_memory_example :
    is_repeated_failure plain
      (apply plain midway (arrives (verdict_tracked (some failing_verdict))))
      failing_verdict
    ≡ true
unfolding program
verdict_memory_example =
    verdict_memory plain midway (arrives (verdict_tracked (some failing_verdict))) failing_verdict
      failing_verdict refl (λ e. cc) (λ e. cc) refl refl (omega arith)
