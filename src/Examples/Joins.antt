-- ===== src/Examples/Joins.antt =====
-- The theorems on the resolver, applied to a round of feedback in the develop-only workflow.
use rick_driven_development.Prelude.{
  ◌≡◌, refl, String, true, List, [], ◌∷◌, ◌++◌, some, none, contains,
}
use rick_driven_development.Prelude.Dict.{lookup, set, erase, get_or}
use rick_driven_development.Event.Payload.{
  PersonaCompletedPayload, FeedbackGeneratedPayload, zero_completed, zero_feedback, zero_verdict,
}
use rick_driven_development.Event.Envelope.{
  Envelope, persona_completed, verdict_rendered, feedback_generated,
}
use rick_driven_development.Workflow.Def.{WorkflowDef, Downstream, here, next, depends}
use rick_driven_development.Workflow.Builtin.Development.{develop_only_workflow_def}
use rick_driven_development.Resolver.{
  Handler, WorkflowResolver, is_dag_relevant, effective_after_personas, resolve_workflow_id,
  get_workflow_def,
}
use rick_driven_development.Resolver.Relevance.{is_dag_relevant-effective_after_personas}
use rick_driven_development.Resolver.Join.{
  satisfied, unsatisfied, join_start, join_events, check_join_condition, join_ids, collect,
  join_event, join_completed, open_round, seal, is_pending_feedback, join_feedback, mark_stale,
  mark_one, clear_one, clear_pending,
}
use rick_driven_development.Workflow.Downstream.{
  downstream_of, dependents, add_dependents, search_from, visit,
}
use rick_driven_development.Resolver.Join.Freshness.{stale-IsMissing}
use rick_driven_development.Resolver.Join.Reopening.{reopened-IsLatest}
use rick_driven_development.Resolver.Join.FirstRound.{
  AllCount, IsFingerprint, check_join_condition-AllCount,
}
use rick_driven_development.Aggregate.Fingerprint.{sort_strings, insert_sorted}
use rick_driven_development.Examples.Data.{arrives, failing_verdict}

abbrev pub completion_of : String → PersonaCompletedPayload
completion_of persona = record zero_completed { persona = persona }

abbrev pub completes : String → String → Envelope
completes id persona = record (arrives (persona_completed (some (completion_of persona)))) {
  id = id;
}

abbrev to_developer : FeedbackGeneratedPayload
to_developer = record zero_feedback { target_persona = "developer"; source_persona = "reviewer" }

abbrev fed_back : Envelope
fed_back = record (arrives (feedback_generated (some to_developer))) { id = "evt-3" }

abbrev first_round : List Envelope
first_round = completes "evt-1" "developer" ∷ completes "evt-2" "reviewer" ∷ []

reviewer-Downstream : Downstream develop_only_workflow_def.graph "developer" "reviewer"
unfolding depends contains
reviewer-Downstream = next here refl

stale-IsMissing_example :
    (missing : List String) × (check_join_condition
        (some develop_only_workflow_def)
        "committer"
        ("reviewer" ∷ [])
        (some (first_round ++ fed_back ∷ completes "evt-4" "reviewer" ∷ []))
      ≡ unsatisfied missing)
    × (contains missing "reviewer" ≡ true)
unfolding contains
stale-IsMissing_example =
    stale-IsMissing develop_only_workflow_def "developer" "reviewer" "committer" ("reviewer" ∷ [])
      first_round (completes "evt-4" "reviewer" ∷ []) fed_back to_developer refl refl refl refl
      reviewer-Downstream refl (refl, tt) refl

-- The verdict that a reviewer renders before it completes.
abbrev passed : List Envelope
passed =
    arrives (
      verdict_rendered
        (some (record zero_verdict { persona = "developer"; source_persona = "reviewer" })))
    ∷ []

-- The developer completes, the reviewer rejects its work, then passes it, and completes.
abbrev reviewed_twice : List Envelope
reviewed_twice =
    completes "evt-9" "developer"
    ∷ arrives (verdict_rendered (some failing_verdict))
    ∷ (passed ++ completes "evt-10" "reviewer" ∷ [])

check_join_condition-AllCount_example :
    let check =
      check_join_condition
        (some develop_only_workflow_def)
        "committer"
        ("reviewer" ∷ "developer" ∷ [])
        (some reviewed_twice) in
    ((fingerprint : String)
      → check ≡ satisfied fingerprint
      → (ids : List String) × AllCount develop_only_workflow_def "committer" reviewed_twice
          ("reviewer" ∷ "developer" ∷ [])
          ids
        × IsFingerprint ids fingerprint)
    × ((ids : List String)
        → AllCount develop_only_workflow_def "committer" reviewed_twice
            ("reviewer" ∷ "developer" ∷ [])
            ids
        → (fingerprint : String) × (check ≡ satisfied fingerprint))
check_join_condition-AllCount_example =
    check_join_condition-AllCount develop_only_workflow_def "committer"
      ("reviewer" ∷ "developer" ∷ []) reviewed_twice refl (refl, (refl, (refl, (refl, tt))))

reopened-IsLatest_example :
    lookup "reviewer"
      (join_events
        (some develop_only_workflow_def)
        ((first_round ++ fed_back ∷ completes "evt-4" "reviewer" ∷ [])
          ++ completes "evt-5" "developer"
            ∷ (passed ++ completes "evt-6" "reviewer" ∷ completes "evt-7" "developer" ∷ []))
        join_start).latest_by_persona
    ≡ some "evt-6"
reopened-IsLatest_example =
    reopened-IsLatest develop_only_workflow_def "developer" "reviewer" first_round
      (completes "evt-4" "reviewer" ∷ []) passed (completes "evt-7" "developer" ∷ []) fed_back
      (completes "evt-5" "developer") (completes "evt-6" "reviewer") to_developer
      (completion_of "developer") (completion_of "reviewer") refl refl refl refl reviewer-Downstream
      refl (refl, tt) refl refl (refl, tt) refl refl (refl, tt)

abbrev pub handler_named : String → Handler
handler_named name = record { name = name; subscribes = []; trigger = none }

abbrev pub resolves : WorkflowDef → WorkflowResolver
resolves def = record { workflows = (def.id, def) ∷ []; corr_map = ("wf-1", def.id) ∷ [] }

is_dag_relevant-effective_after_personas_example :
    is_dag_relevant
      (handler_named "reviewer")
      "developer"
      "wf-1"
      []
      (resolves develop_only_workflow_def)
    ≡ contains
        (effective_after_personas
          (handler_named "reviewer")
          "wf-1"
          []
          (resolves develop_only_workflow_def))
        "developer"
unfolding resolve_workflow_id get_workflow_def lookup
is_dag_relevant-effective_after_personas_example =
    is_dag_relevant-effective_after_personas (handler_named "reviewer") "developer" "wf-1"
      "develop-only" [] (resolves develop_only_workflow_def) develop_only_workflow_def
      ("developer" ∷ []) refl refl refl

-- Another persona's feedback takes the place of the target that the first round waits for: `b` has begun
-- its round anew when `a` completes, and `c`, downstream of `a` alone, stays missing.
abbrev forked : WorkflowDef
forked = record develop_only_workflow_def { graph = ("a", []) ∷ ("b", []) ∷ ("c", "a" ∷ []) ∷ [] }

abbrev feeds : String → String → Envelope
feeds id target =
    record (arrives
      (feedback_generated (some (record zero_feedback { target_persona = target })))) { id = id }

overtaken :
    check_join_condition (some forked) "d" ("c" ∷ []) (
      some (
        completes "evt-1" "a"
        ∷ feeds "evt-2" "a"
        ∷ feeds "evt-3" "b"
        ∷ completes "evt-4" "a"
        ∷ completes "evt-5" "c"
        ∷ []))
    ≡ unsatisfied ("c" ∷ [])
unfolding check_join_condition collect join_events join_event join_completed open_round seal
    is_pending_feedback insert_sorted sort_strings join_ids lookup set get_or join_feedback
    mark_stale mark_one clear_one clear_pending downstream_of dependents add_dependents search_from
    visit contains erase
overtaken = refl
