-- ===== src/Examples/Dispatches.antt =====
-- The theorems on the persona runner, applied to the workspace-dev workflow.
use rick_driven_development.Prelude.{
  ◌≡◌, refl, ℕ, true, false, List, [], ◌∷◌, ◌++◌, some, none, contains, arith, eqb, if◌then◌else◌,
  ◌<◌, ◌==◌, false,
}
use rick_driven_development.Prelude.Dict.{lookup, set, get_or}
use rick_driven_development.Event.Payload.{VerdictPayload}
use rick_driven_development.Event.Envelope.{
  Envelope, verdict_rendered, workflow_paused, workflow_resumed,
}
use rick_driven_development.Workflow.Builtin.Development.{
  develop_only_workflow_def, workspace_dev_workflow_def,
}
use rick_driven_development.Aggregate.Runtime.{done}
use rick_driven_development.Aggregate.Decide.{decide}
use rick_driven_development.Aggregate.Decide.Resume.{Decided}
use rick_driven_development.Resolver.{
  effective_after_personas, base_after_personas, resolve_workflow_id, get_workflow_def, def_of,
  is_dag_relevant,
}
use rick_driven_development.Hooks.{hooks_for}
use rick_driven_development.Aggregate.Fingerprint.{sort_strings, insert_sorted}
use rick_driven_development.Workflow.Def.{effective_max_chain_depth}
use rick_driven_development.Resolver.Join.{
  satisfied, join_ids, check_join_condition, collect, join_events, join_event, join_completed,
  open_round, seal, is_pending_feedback,
}
use rick_driven_development.Runner.Seen.{add_seen, add_key, append_key, evict}
use rick_driven_development.Runner.Queue.{DispatchItem, DispatchQueue, push, get_or_create}
use rick_driven_development.Runner.Queue.Order.{IsOrdered, of_priority, push-IsStable}
use rick_driven_development.Runner.Pauses.{pause, is_paused, add_blocked, new_pause_controller}
use rick_driven_development.Runner.Admission.{
  PersonaRunner, queued, dropped, blocked, join_gate_dedup, wrap, replay, resume_correlation,
  is_gated, chain_depth_of, chain_depth_limit, pass_depth, pass_join, pass_gate, pass_pause,
  enqueue_and_drain,
}
use rick_driven_development.Runner.Admission.Safety.{IsAdmissible, wrap-IsAdmissible}
use rick_driven_development.Runner.Admission.Replay.{replay-Admission}
use rick_driven_development.Event.Types.{event_type}
use rick_driven_development.Runner.Results.{
  Surroundings, Dispatch, terminal_event, terminal_body, completed_body, last_response,
  output_guard_trips,
}
use rick_driven_development.Runner.Results.Depth.{terminal_event-IsShallow}
use rick_driven_development.Runner.Advisory.{
  front_run_advisory_pause, scan_advisory, pause_if_required,
}
use rick_driven_development.Runner.Advisory.Escalation.{
  IsAdvisoryFailure, IsEscalation, front_run_advisory_pause-escalates,
}
use rick_driven_development.Examples.Data.{arrives, plain, stamp, midway, failing_verdict}
use rick_driven_development.Examples.Joins.{completes, handler_named, resolves}

abbrev fresh_runner : PersonaRunner
fresh_runner = record {
  seen = record { entries = []; order = []; max_size = 10000 };
  pauser = new_pause_controller;
  queues = [];
  hooks = [];
  resolver = resolves workspace_dev_workflow_def;
  handlers = [];
  default_chain_depth = 5;
  cancelled = false;
}

abbrev paused_runner : PersonaRunner
paused_runner = record fresh_runner {
  pauser = record { paused = ("wf-1", true) ∷ []; blocked = [] };
}

abbrev reviewed : List Envelope
reviewed = completes "evt-5" "reviewer" ∷ completes "evt-6" "qa" ∷ []

joins :
    check_join_condition
      (def_of "wf-1" fresh_runner.resolver)
      "review-consolidator"
      (effective_after_personas
        (handler_named "review-consolidator")
        "wf-1"
        []
        fresh_runner.resolver)
      (some reviewed)
    ≡ satisfied "evt-5|evt-6"
unfolding check_join_condition collect join_events join_event join_completed open_round seal
    is_pending_feedback insert_sorted sort_strings join_ids lookup set get_or hooks_for
    effective_after_personas base_after_personas resolve_workflow_id get_workflow_def def_of
joins = refl

admits :
    (wrap
      (some reviewed)
      (handler_named "review-consolidator")
      (completes "evt-6" "qa")
      fresh_runner).1
    ≡ queued true
unfolding check_join_condition collect join_events join_event join_completed open_round seal
    is_pending_feedback insert_sorted sort_strings join_ids lookup set get_or hooks_for
    effective_after_personas base_after_personas resolve_workflow_id get_workflow_def def_of wrap
    chain_depth_of is_dag_relevant contains pass_depth chain_depth_limit effective_max_chain_depth
    add_seen add_key append_key evict pass_join is_gated pass_gate pass_pause is_paused
    enqueue_and_drain get_or_create add_blocked
admits = refl

blocks :
    (wrap
      (some reviewed)
      (handler_named "review-consolidator")
      (completes "evt-6" "qa")
      paused_runner).1
    ≡ blocked
unfolding check_join_condition collect join_events join_event join_completed open_round seal
    is_pending_feedback insert_sorted sort_strings join_ids lookup set get_or hooks_for
    effective_after_personas base_after_personas resolve_workflow_id get_workflow_def def_of wrap
    chain_depth_of is_dag_relevant contains pass_depth chain_depth_limit effective_max_chain_depth
    add_seen add_key append_key evict pass_join is_gated pass_gate pass_pause is_paused
    enqueue_and_drain get_or_create add_blocked
blocks = refl

wrap-IsAdmissible_example :
    IsAdmissible
      (some reviewed)
      (handler_named "review-consolidator")
      (completes "evt-6" "qa")
      fresh_runner
wrap-IsAdmissible_example =
    wrap-IsAdmissible (some reviewed) (handler_named "review-consolidator") (completes "evt-6" "qa")
      fresh_runner true admits

-- The pause and its end are stored as well when the dispatch is replayed.
abbrev reviewed_and_resumed : List Envelope
reviewed_and_resumed =
    reviewed ++ arrives (workflow_paused none) ∷ arrives (workflow_resumed none) ∷ []

still_joins :
    check_join_condition
      (def_of "wf-1" fresh_runner.resolver)
      "review-consolidator"
      (effective_after_personas
        (handler_named "review-consolidator")
        "wf-1"
        []
        fresh_runner.resolver)
      (some reviewed_and_resumed)
    ≡ satisfied "evt-5|evt-6"
unfolding check_join_condition collect join_events join_event join_completed open_round seal
    is_pending_feedback insert_sorted sort_strings join_ids lookup set get_or hooks_for
    effective_after_personas base_after_personas resolve_workflow_id get_workflow_def def_of
still_joins = refl

replay-Admission_example :
    (replay
      (some reviewed_and_resumed)
      (record { handler = handler_named "review-consolidator"; env = completes "evt-6" "qa" })
      (resume_correlation "wf-1"
        (wrap
          (some reviewed)
          (handler_named "review-consolidator")
          (completes "evt-6" "qa")
          paused_runner).0).0).1
    ≡ dropped (join_gate_dedup "evt-5|evt-6")
unfolding effective_after_personas base_after_personas resolve_workflow_id get_workflow_def lookup
    hooks_for get_or is_gated
replay-Admission_example =
    replay-Admission (some reviewed) (some reviewed_and_resumed)
      (handler_named "review-consolidator") (completes "evt-6" "qa") paused_runner "evt-5|evt-6"
      refl joins still_joins blocks (omega arith) refl

abbrev item_of : ℕ → DispatchItem
item_of priority = record {
  priority = priority;
  env = completes "evt-5" "reviewer";
  chain_depth = 1;
}

abbrev waiting : DispatchQueue
waiting = record { items = item_of 10 ∷ item_of 20 ∷ item_of 30 ∷ []; draining = true }

push-IsStable_example :
    IsOrdered (push (item_of 20) waiting).items
    × ((p : ℕ)
        → of_priority p (push (item_of 20) waiting).items
          ≡ of_priority p waiting.items ++ (if eqb 20 p then item_of 20 ∷ [] else []))
push-IsStable_example = push-IsStable (item_of 20) waiting (omega arith, (omega arith, tt))

abbrev advisory_verdict : VerdictPayload
advisory_verdict = record failing_verdict { advisory = true }

abbrev batch : List Envelope
batch = arrives (verdict_rendered (some advisory_verdict)) ∷ completes "evt-9" "reviewer" ∷ []

front_run_advisory_pause-escalates_example :
    (ev : Envelope) × (v : VerdictPayload) × IsAdvisoryFailure develop_only_workflow_def batch ev v
    × (r : Decided) × (decide plain stamp midway ev ≡ done r)
    × IsEscalation v stamp midway ev r
unfolding def_of resolve_workflow_id get_workflow_def lookup get_or is_paused
    front_run_advisory_pause scan_advisory pause_if_required contains pause set
front_run_advisory_pause-escalates_example =
    front_run_advisory_pause-escalates "wf-1" batch
      (record fresh_runner { resolver = resolves develop_only_workflow_def })
      develop_only_workflow_def plain stamp midway refl refl refl refl refl

abbrev around : Surroundings
around = record {
  to_lower = λ s. s;
  version = "1.0";
  guard_text = λ n. "short";
  text_len = λ e. none;
  is_dirty = λ c. false;
}

abbrev succeeds : Dispatch
succeeds = record { result = some []; error = none; context_error = none; duration_ms = 40 }

abbrev last_of_qa : Envelope
last_of_qa =
    terminal_event around stamp (handler_named "qa") (completes "evt-4" "developer") 3 succeeds

passes :
    (wrap (some reviewed) (handler_named "review-consolidator") last_of_qa fresh_runner).1
    ≡ queued true
unfolding check_join_condition collect join_events join_event join_completed open_round seal
    is_pending_feedback insert_sorted sort_strings join_ids lookup set get_or hooks_for
    effective_after_personas base_after_personas resolve_workflow_id get_workflow_def def_of wrap
    chain_depth_of is_dag_relevant contains pass_depth chain_depth_limit effective_max_chain_depth
    add_seen add_key append_key evict pass_join is_gated pass_gate pass_pause is_paused
    enqueue_and_drain get_or_create add_blocked terminal_event terminal_body completed_body
    last_response output_guard_trips event_type
passes = refl

terminal_event-IsShallow_example :
    (4 < chain_depth_limit "wf-1" fresh_runner) × ("qa" == "review-consolidator" ≡ false)
terminal_event-IsShallow_example =
    terminal_event-IsShallow around stamp (handler_named "qa") (handler_named "review-consolidator")
      (completes "evt-4" "developer") 3 succeeds fresh_runner (some reviewed) true passes
