-- ===== src/Resolver/Join/Freshness.antt =====
-- internal/engine/workflow_resolver.go: checkJoinCondition on the events of a round of feedback.
use rick_driven_development.Prelude.{
  ◌≡◌, refl, String, Bool, true, false, not, ◌&&◌, List, [], ◌∷◌, ◌++◌, Option, none, some, ◌==◌,
  eq_iff, arith, if◌then◌else◌, contains, All, Bool-cases, inl, inr,
}
use rick_driven_development.Prelude.Dict.{
  Dict, lookup, get_or, lookup-set, lookup-erase, get_or-set, get_or-erase,
}
use rick_driven_development.Event.Payload.{PersonaCompletedPayload, FeedbackGeneratedPayload}
use rick_driven_development.Event.Envelope.{
  Envelope, Body, persona_completed, persona_failed, feedback_generated, verdict_rendered,
}
use rick_driven_development.Workflow.Def.{WorkflowDef, Downstream}
use rick_driven_development.Workflow.Downstream.{downstream_of}
use rick_driven_development.Workflow.Downstream.Exact.{downstream_of-Downstream}
use rick_driven_development.Aggregate.Apply.{absorbs_failures}
use rick_driven_development.Resolver.Join.Readiness.{collect-absent, verdict_of-contains}
use rick_driven_development.Resolver.Join.{
  JoinState, join_start, mark_one, clear_one, join_failed, clear_pending, open_round,
  join_completed, join_verdict, mark_stale, join_feedback, join_event, join_events, unsatisfied,
  collect, check_join_condition,
}

-- The event neither ends the round of `target` nor begins one of another persona.
abbrev pub keeps_round : String → Body → Bool
keeps_round target (persona_completed (some pc)) = not (pc.persona == target)
keeps_round target (feedback_generated (some fb)) = fb.target_persona == target
keeps_round target _ = true

-- `p` waits for the completion of `target`.
pub record IsStale (target p : String) (st : JoinState) : Type 0 where
  pub absent : lookup p st.latest_by_persona ≡ none
  pub pending : get_or false p st.pending_stale ≡ true
  pub opened_by : st.retrigger_target ≡ target

pub join_events-append :
    (wf_def : Option WorkflowDef) (xs ys : List Envelope) (st : JoinState)
    → join_events wf_def (xs ++ ys) st ≡ join_events wf_def ys (join_events wf_def xs st)
unfolding join_events
join_events-append wf_def [] ys st = refl
join_events-append wf_def (x ∷ xs) ys st = join_events-append wf_def xs ys (join_event wf_def x st)

lookup-mark_stale :
    (target p : String) (ds : List String) (st : JoinState)
    → lookup p (mark_stale target ds st).latest_by_persona
      ≡ (if contains ds p && not (p == target) then none else lookup p st.latest_by_persona)
unfolding mark_stale mark_one contains
lookup-mark_stale target p [] st = refl
lookup-mark_stale target p (d ∷ ds) st = ground (
  arith,
  lookup-mark_stale target p ds (mark_one target d st),
  lookup-erase d p st.latest_by_persona,
  eq_iff d p,
  eq_iff d target,
  eq_iff p target,
)

pending-mark_stale :
    (target p : String) (ds : List String) (st : JoinState)
    → get_or false p (mark_stale target ds st).pending_stale
      ≡ (if contains ds p && not (p == target) then true else get_or false p st.pending_stale)
unfolding mark_stale mark_one contains
pending-mark_stale target p [] st = refl
pending-mark_stale target p (d ∷ ds) st = ground (
  arith,
  pending-mark_stale target p ds (mark_one target d st),
  get_or-set false d p true st.pending_stale,
  eq_iff d p,
  eq_iff d target,
  eq_iff p target,
)

pub pending-clear_pending :
    (target p : String) (ds : List String) (pending : Dict Bool)
    → get_or false p (clear_pending target ds pending)
      ≡ (if contains ds p && not (p == target) then false else get_or false p pending)
unfolding clear_pending clear_one contains
pending-clear_pending target p [] pending = refl
pending-clear_pending target p (d ∷ ds) pending = ground (
  arith,
  pending-clear_pending target p ds (clear_one target d pending),
  get_or-erase false d p pending,
  eq_iff d p,
  eq_iff d target,
  eq_iff p target,
)

join_feedback-IsStale :
    (def : WorkflowDef) (target p : String) (fb : FeedbackGeneratedPayload) (st : JoinState)
    → fb.target_persona ≡ target
    → (target == "") ≡ false
    → contains (downstream_of def.graph target) p ≡ true
    → (p == target) ≡ false
    → IsStale target p (join_feedback (some def) fb st)
unfolding join_feedback
join_feedback-IsStale def target p fb st same named below other =
    let ds = downstream_of def.graph target in
    rw (same, named)
      (record {
        absent = ground (arith, lookup-mark_stale target p ds st, below, other);
        pending = ground (arith, pending-mark_stale target p ds st, below, other);
        opened_by = refl;
      })

join_completed-IsStale :
    (def : WorkflowDef) (target p id : String) (pc : PersonaCompletedPayload) (st : JoinState)
    → (pc.persona == target) ≡ false
    → IsStale target p st
    → IsStale target p (join_completed (some def) id pc st)
unfolding join_completed open_round
join_completed-IsStale def target p id pc st other h = record {
  absent = ground (
    arith,
    h.absent,
    h.pending,
    h.opened_by,
    other,
    lookup-set pc.persona p id st.latest_by_persona,
    eq_iff pc.persona p,
  );
  pending = ground (arith, h.pending, h.opened_by, other);
  opened_by = ground (arith, h.opened_by, other);
}

module _ (def : WorkflowDef) (target p : String) (strict : def.partial_review_on_failure ≡ false)
    (named : (target == "") ≡ false) (below : contains (downstream_of def.graph target) p ≡ true)
    (other : (p == target) ≡ false) where
  join_event-IsStale :
      (e : Envelope) (st : JoinState)
      → keeps_round target e.body ≡ true
      → IsStale target p st
      → IsStale target p (join_event (some def) e st)
  unfolding join_event join_failed join_verdict absorbs_failures
  join_event-IsStale e st k h = by_body e.body refl
    where
      by_body : (b : Body) → e.body ≡ b → IsStale target p (join_event (some def) e st)
      by_body (persona_completed (some pc)) eq =
          rw eq (join_completed-IsStale def target p e.id pc st (ground (arith, k, eq)) h)
      by_body (feedback_generated (some fb)) eq = rw eq (
          join_feedback-IsStale def target p fb st
            (ground (arith, k, eq, eq_iff fb.target_persona target)) named below other)
      by_body (persona_failed (some pf)) eq = rw (eq, strict) h
      by_body (verdict_rendered (some v)) eq = rw eq (elim (Bool-cases (v.source_persona == "")) [
        | inl unnamed ↦ rw unnamed h
        | inr known ↦
            rw known (record { absent = h.absent; pending = h.pending; opened_by = h.opened_by })
      ])
      by_body _ eq = rw eq h

  join_events-IsStale :
      (es : List Envelope) (st : JoinState)
      → All (λ e. keeps_round target e.body ≡ true) es
      → IsStale target p st
      → IsStale target p (join_events (some def) es st)
  unfolding join_events
  join_events-IsStale [] st ks h = h
  join_events-IsStale (e ∷ es) st ks h =
      join_events-IsStale es (join_event (some def) e st) ks.1 (join_event-IsStale e st ks.0 h)

opens :
    (def : WorkflowDef) (e : Envelope) (fb : FeedbackGeneratedPayload) (st : JoinState)
    → e.body ≡ feedback_generated (some fb)
    → join_event (some def) e st ≡ join_feedback (some def) fb st
unfolding join_event
opens def e fb st fed = rw fed refl

pub joins :
    (def : WorkflowDef) (e : Envelope) (es : List Envelope) (st : JoinState)
    → join_events (some def) (e ∷ es) st ≡ join_events (some def) es (join_event (some def) e st)
unfolding join_events
joins def e es st = refl

-- The state behind a round's opening and what it has seen.
pub round-IsStale :
    (def : WorkflowDef) (target p : String) (before after : List Envelope) (e : Envelope)
    (fb : FeedbackGeneratedPayload)
    → def.partial_review_on_failure ≡ false
    → e.body ≡ feedback_generated (some fb)
    → fb.target_persona ≡ target
    → (target == "") ≡ false
    → contains (downstream_of def.graph target) p ≡ true
    → (p == target) ≡ false
    → All (λ e. keeps_round target e.body ≡ true) after
    → IsStale target p (join_events (some def) (before ++ e ∷ after) join_start)
round-IsStale def target p before after e fb strict fed same named contained other kept =
    rw (join_events-append (some def) before (e ∷ after) join_start)
      (from (join_events (some def) before join_start))
  where
    opened : (st : JoinState) → IsStale target p (join_event (some def) e st)
    opened st =
        rw (opens def e fb st fed)
          (join_feedback-IsStale def target p fb st same named contained other)

    from : (st : JoinState) → IsStale target p (join_events (some def) (e ∷ after) st)
    from st = rw (joins def e after st) (
        join_events-IsStale def target p strict named contained other after
          (join_event (some def) e st) kept (opened st))

-- After a feedback on `target`, and until it completes or another persona is fed back, no handler that
-- requires another persona downstream of it finds its join satisfied: that persona is among the missing ones,
-- whatever completions of it the store holds. The workflow does not absorb failures.
pub stale-IsMissing :
    (def : WorkflowDef) (target p requesting_handler : String) (required : List String)
    (before after : List Envelope) (e : Envelope) (fb : FeedbackGeneratedPayload)
    → def.partial_review_on_failure ≡ false
    → e.body ≡ feedback_generated (some fb)
    → fb.target_persona ≡ target
    → (target == "") ≡ false
    → Downstream def.graph target p
    → (p == target) ≡ false
    → All (λ e. keeps_round target e.body ≡ true) after
    → contains required p ≡ true
    → (missing : List String) × (check_join_condition
          (some def)
          requesting_handler
          required
          (some (before ++ e ∷ after))
        ≡ unsatisfied missing)
      × (contains missing p ≡ true)
unfolding check_join_condition
stale-IsMissing def target p requesting_handler required before after e fb strict fed same named
      below other kept wanted =
    let contained = (downstream_of-Downstream def.graph target p).1 below in
    let now = join_events (some def) (before ++ e ∷ after) join_start in
    let late : IsStale target p now =
      round-IsStale def target p before after e fb strict fed same named contained other kept in
    let r = collect (some def) requesting_handler now required in
    let there = collect-absent (some def) requesting_handler p now required late.absent wanted in
    (r.1, verdict_of-contains r p there, there)
