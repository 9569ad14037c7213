-- ===== src/Resolver/Join.antt =====
-- internal/engine/workflow_resolver.go: checkJoinCondition, a fold over the correlation's events and a
-- look at each persona that is required. The events are what the store has loaded, or `none` where
-- loading them failed.
pub mod Freshness
pub mod Reopening
pub mod Readiness
pub mod Log
pub mod FirstRound
use Prim.Native.String.{◌++◌ as join}
use rick_driven_development.Prelude.{
  String, Bool, true, false, not, ◌&&◌, ◌||◌, List, [], ◌∷◌, Option, none, some, ◌==◌,
  if◌then◌else◌,
}
use rick_driven_development.Prelude.Dict.{Dict, lookup, set, erase, get_or}
use rick_driven_development.Event.Payload.{
  PersonaFailedPayload, PersonaCompletedPayload, VerdictPayload, FeedbackGeneratedPayload,
}
use rick_driven_development.Event.Envelope.{
  Envelope, persona_failed, persona_completed, verdict_rendered, feedback_generated,
}
use rick_driven_development.Workflow.Def.{WorkflowDef, is_consolidated_reviewer}
use rick_driven_development.Workflow.Downstream.{downstream_of}
use rick_driven_development.Aggregate.Apply.{is_fail, absorbs_failures}
use rick_driven_development.Aggregate.Fingerprint.{sort_strings}

pub record VerdictTracker : Type 0 where
  pub active : Bool
  pub sealed : Bool
  pub advisory : Bool

-- The local variables of the loop over the events.
pub record JoinState : Type 0 where
  pub latest_by_persona : Dict String
  pub verdicts : Dict VerdictTracker
  pub pending_stale : Dict Bool
  pub retrigger_target : String

abbrev pub join_start : JoinState
join_start = record {
  latest_by_persona = [];
  verdicts = [];
  pending_stale = [];
  retrigger_target = "";
}

unfoldable pub join_failed :
    Option WorkflowDef → String → PersonaFailedPayload → JoinState → JoinState
join_failed wf_def id pf st =
    if not (absorbs_failures wf_def) || pf.persona == ""
    then st
    else record st { latest_by_persona = set pf.persona id st.latest_by_persona }

-- if downstream != retriggerTarget { delete(pendingStale, downstream) }
unfoldable pub clear_one : String → String → Dict Bool → Dict Bool
clear_one target d pending = if d == target then pending else erase d pending

-- for _, downstream := range DownstreamOf(retriggerTarget) { … }
unfoldable pub clear_pending : String → List String → Dict Bool → Dict Bool
clear_pending target [] pending = pending
clear_pending target (d ∷ ds) pending = clear_pending target ds (clear_one target d pending)

-- The retrigger target's completion starts a new round.
unfoldable pub open_round : Option WorkflowDef → String → JoinState → JoinState
open_round none persona st = st
open_round (some def) persona st =
    if not (st.retrigger_target == "") && persona == st.retrigger_target
    then record st {
      pending_stale = clear_pending persona (downstream_of def.graph persona) st.pending_stale;
      retrigger_target = "";
    }
    else st

-- A tracker that is sealed leaves, another becomes sealed.
unfoldable pub seal : String → Dict VerdictTracker → Dict VerdictTracker
seal persona verdicts = elim (lookup persona verdicts) [
  | none ↦ verdicts
  | some vt ↦
      if vt.sealed
      then erase persona verdicts
      else set persona (record vt { sealed = true }) verdicts
]

unfoldable pub join_completed :
    Option WorkflowDef → String → PersonaCompletedPayload → JoinState → JoinState
join_completed wf_def id pc st =
    let opened = open_round wf_def pc.persona st in
    if get_or false pc.persona opened.pending_stale then opened else record opened {
      latest_by_persona = set pc.persona id opened.latest_by_persona;
      verdicts = seal pc.persona opened.verdicts;
    }

unfoldable pub join_verdict : VerdictPayload → JoinState → JoinState
join_verdict v st = if v.source_persona == "" then st else record st {
  verdicts =
      set v.source_persona
        (record { active = is_fail v.outcome; sealed = false; advisory = v.advisory }) st.verdicts;
}

-- The body of the loop over DownstreamOf(target).
unfoldable pub mark_one : String → String → JoinState → JoinState
mark_one target stale st = if stale == target then st else record st {
  latest_by_persona = erase stale st.latest_by_persona;
  verdicts = erase stale st.verdicts;
  pending_stale = set stale true st.pending_stale;
}

unfoldable pub mark_stale : String → List String → JoinState → JoinState
mark_stale target [] st = st
mark_stale target (stale ∷ rest) st = mark_stale target rest (mark_one target stale st)

unfoldable pub join_feedback : Option WorkflowDef → FeedbackGeneratedPayload → JoinState → JoinState
join_feedback none fb st = st
join_feedback (some def) fb st =
    let target = fb.target_persona in
    if target == "" then st else record (mark_stale target (downstream_of def.graph target) st) {
      retrigger_target = target;
    }

unfoldable pub join_event : Option WorkflowDef → Envelope → JoinState → JoinState
join_event wf_def e st = elim e.body [
  | persona_failed (some pf) ↦ join_failed wf_def e.id pf st
  | persona_completed (some pc) ↦ join_completed wf_def e.id pc st
  | verdict_rendered (some v) ↦ join_verdict v st
  | feedback_generated (some fb) ↦ join_feedback wf_def fb st
  | _ ↦ st
]

unfoldable pub join_events : Option WorkflowDef → List Envelope → JoinState → JoinState
join_events wf_def [] st = st
join_events wf_def (e ∷ es) st = join_events wf_def es (join_event wf_def e st)

unfoldable pub is_consolidator_bypass : WorkflowDef → String → String → Bool
is_consolidator_bypass def requesting_handler predecessor =
    if def.review_consolidator == ""
    then false
    else if not (requesting_handler == def.review_consolidator)
    then false
    else is_consolidated_reviewer def predecessor

abbrev pub has_entries : Dict (List String) → Bool
has_entries [] = false
has_entries (e ∷ es) = true

abbrev pub is_blocking : Option VerdictTracker → Bool
is_blocking none = false
is_blocking (some vt) = vt.active && not vt.advisory

-- `req` has completed, but its failing verdict waits for the feedback.
unfoldable pub is_pending_feedback : Option WorkflowDef → String → String → JoinState → Bool
is_pending_feedback none requesting_handler req st = false
is_pending_feedback (some def) requesting_handler req st =
    is_blocking (lookup req st.verdicts)
    && has_entries def.retriggered_by
    && not (is_consolidator_bypass def requesting_handler req)

-- The IDs of the completions, and what is missing.
unfoldable pub collect :
    Option WorkflowDef → String → JoinState → List String → List String × List String
collect wf_def requesting_handler st [] = ([], [])
collect wf_def requesting_handler st (req ∷ reqs) =
    let rest = collect wf_def requesting_handler st reqs in
    elim (lookup req st.latest_by_persona) [
      | none ↦ (rest.0, req ∷ rest.1)
      | some id ↦
          if is_pending_feedback wf_def requesting_handler req st
          then (rest.0, join req "(pending_feedback)" ∷ rest.1)
          else (id ∷ rest.0, rest.1)
    ]

-- strings.Join(ids, "|")
unfoldable pub join_ids : List String → String
join_ids [] = ""
join_ids (id ∷ []) = id
join_ids (id ∷ next ∷ ids) = join id (join "|" (join_ids (next ∷ ids)))

pub data JoinCheck : Type 0 where
  satisfied : String → JoinCheck
  unsatisfied : List String → JoinCheck
  store_error : JoinCheck

abbrev pub verdict_of : List String × List String → JoinCheck
verdict_of (ids, []) = satisfied (join_ids (sort_strings ids))
verdict_of (ids, m ∷ ms) = unsatisfied (m ∷ ms)

unfoldable pub check_join_condition :
    Option WorkflowDef → String → List String → Option (List Envelope) → JoinCheck
check_join_condition wf_def requesting_handler required none = store_error
check_join_condition wf_def requesting_handler required (some events) =
    verdict_of (collect wf_def requesting_handler (join_events wf_def events join_start) required)
