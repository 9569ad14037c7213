-- ===== src/Examples/Views.antt =====
-- The theorems on the projections, applied to a workflow that fails and is retried.
use rick_driven_development.Prelude.{◌≡◌, refl, List, [], ◌∷◌, some, none, arith}
use rick_driven_development.Prelude.Dict.{lookup}
use rick_driven_development.Event.Payload.{zero_retried, zero_ai_response, unspecified, Reason}
use rick_driven_development.Event.Envelope.{
  Envelope, workflow_failed, workflow_retried, ai_response_received,
}
use rick_driven_development.Aggregate.State.{Status}
use rick_driven_development.Aggregate.Apply.{apply_all, apply, apply_body, apply_retried}
use rick_driven_development.Projection.Status.{
  handle_all, WorkflowStatusProjection, status_entry, blank_status,
}
use rick_driven_development.Projection.Status.Agreement.{
  status_name, lifecycle_of, handle_all-apply_all,
}
use rick_driven_development.Projection.Tokens.{usage_entry, blank_usage, handle_all as count_all}
use rick_driven_development.Projection.Tokens.Totals.{events_of, handle_all-tokens_used}
use rick_driven_development.Examples.Data.{arrives, plain, midway}

abbrev fails : Envelope
fails = arrives (
    workflow_failed (
      some (record {
        reason = Reason.text "no slots";
        persona = "developer";
        failure_kind = unspecified;
        backend = "";
        stderr = [];
      })))

abbrev history : List Envelope
history = fails ∷ arrives (workflow_retried (some zero_retried)) ∷ []

-- A projection that has seen the workflow start.
abbrev started : WorkflowStatusProjection
started = record {
  workflows = ("wf-1", record (blank_status "wf-1") { status = "running" }) ∷ [];
  hint_personas = [];
}

handle_all-apply_all_example :
    (status_entry "wf-1" (handle_all history started)).status
    ≡ status_name (apply_all plain midway (lifecycle_of "wf-1" history)).status
unfolding status_entry lookup
handle_all-apply_all_example =
    handle_all-apply_all plain "wf-1" history started midway (refl, (refl, tt)) refl

abbrev responses : List Envelope
responses =
    arrives (ai_response_received (some (record zero_ai_response { tokens_used = 1200 })))
    ∷ arrives (ai_response_received none)
    ∷ []

handle_all-tokens_used_example :
    (usage_entry "wf-1" (count_all responses [])).total
    ≡ (apply_all plain midway (events_of "wf-1" responses)).tokens_used
unfolding usage_entry lookup blank_usage
handle_all-tokens_used_example =
    handle_all-tokens_used plain "wf-1" responses [] midway (omega arith) refl

-- After the retry the aggregate runs, and the projection still shows the failure.
aggregate_runs : (apply_all plain midway history).status ≡ Status.running
unfolding apply_all apply apply_body apply_retried
aggregate_runs = refl
