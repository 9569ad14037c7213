-- ===== src/Resolver/Join/Reopening.antt =====
-- internal/engine/workflow_resolver.go: checkJoinCondition on the events after a round of feedback.
use rick_driven_development.Prelude.{
  ◌≡◌, refl, ◌∙◌, String, Bool, true, false, not, Option, none, List, [], ◌∷◌, ◌++◌, some, ◌==◌,
  eq_refl, eq_iff, ap, arith, contains, All,
}
use rick_driven_development.Prelude.Dict.{lookup, get_or, lookup-set}
use rick_driven_development.Event.Payload.{PersonaCompletedPayload, FeedbackGeneratedPayload}
use rick_driven_development.Event.Envelope.{
  Envelope, Body, persona_failed, persona_completed, verdict_rendered, feedback_generated,
}
use rick_driven_development.Workflow.Def.{WorkflowDef, Downstream}
use rick_driven_development.Workflow.Downstream.{downstream_of}
use rick_driven_development.Workflow.Downstream.Exact.{downstream_of-Downstream}
use rick_driven_development.Aggregate.Apply.{absorbs_failures}
use rick_driven_development.Resolver.Join.{
  JoinState, join_start, open_round, join_completed, join_failed, join_verdict, join_event,
  join_events,
}
use rick_driven_development.Resolver.Join.Freshness.{
  keeps_round, IsStale, round-IsStale, join_events-append, pending-clear_pending,
}

completes :
    (def : WorkflowDef) (e : Envelope) (pc : PersonaCompletedPayload) (st : JoinState)
    → e.body ≡ persona_completed (some pc)
    → join_event (some def) e st ≡ join_completed (some def) e.id pc st
unfolding join_event
completes def e pc st done = rw done refl

-- The target's completion takes the wait of `p` away.
join_completed-reopens :
    (def : WorkflowDef) (target p id : String) (pc : PersonaCompletedPayload) (st : JoinState)
    → pc.persona ≡ target
    → (target == "") ≡ false
    → (p == target) ≡ false
    → contains (downstream_of def.graph target) p ≡ true
    → IsStale target p st
    → (get_or false p (join_completed (some def) id pc st).pending_stale ≡ false)
      × ((join_completed (some def) id pc st).retrigger_target ≡ "")
unfolding join_completed open_round
join_completed-reopens def target p id pc st same named other below h = rw same (
  ground (
    arith,
    h.opened_by,
    named,
    other,
    below,
    eq_refl target,
    pending-clear_pending target p (downstream_of def.graph target) st.pending_stale,
  ),
  ground (arith, h.opened_by, named, eq_refl target),
)

join_completed-counts :
    (def : WorkflowDef) (p id : String) (pc : PersonaCompletedPayload) (st : JoinState)
    → pc.persona ≡ p
    → get_or false p st.pending_stale ≡ false
    → st.retrigger_target ≡ ""
    → lookup p (join_completed (some def) id pc st).latest_by_persona ≡ some id
unfolding join_completed open_round
join_completed-counts def p id pc st same free closed =
    rw (same, closed, free) (ground (arith, eq_refl p, lookup-set p p id st.latest_by_persona))

-- The body is no feedback.
abbrev pub is_calm : Body → Bool
is_calm (feedback_generated j) = false
is_calm _ = true

-- The body is neither feedback nor a completion of `p`.
abbrev pub leaves : String → Body → Bool
leaves p (feedback_generated j) = false
leaves p (persona_completed (some pc)) = not (pc.persona == p)
leaves p _ = true

-- No round is open, and completions of `p` count.
abbrev pub IsOpen : String → JoinState → Type 0
IsOpen p st = (get_or false p st.pending_stale ≡ false) × (st.retrigger_target ≡ "")

join_completed-IsOpen :
    (wf_def : Option WorkflowDef) (p id : String) (pc : PersonaCompletedPayload) (st : JoinState)
    → IsOpen p st
    → IsOpen p (join_completed wf_def id pc st)
unfolding join_completed open_round
join_completed-IsOpen none p id pc st h = ground (arith, h)
join_completed-IsOpen (some def) p id pc st h = ground (arith, h, eq_iff st.retrigger_target "")

module _ (def : WorkflowDef) (p : String) (strict : def.partial_review_on_failure ≡ false) where
  pub calm-IsOpen :
      (e : Envelope) (b : Body) (st : JoinState)
      → e.body ≡ b
      → is_calm b ≡ true
      → IsOpen p st
      → IsOpen p (join_event (some def) e st)
  unfolding join_event join_failed join_verdict
  calm-IsOpen e (persona_failed (some pf)) st eq calm h = rw eq (ground (arith, h))
  calm-IsOpen e (persona_completed (some pc)) st eq calm h =
      rw eq (join_completed-IsOpen (some def) p e.id pc st h)
  calm-IsOpen e (verdict_rendered (some v)) st eq calm h = rw eq (ground (arith, h))
  calm-IsOpen e (feedback_generated j) st eq calm h = absurd (ground (arith, calm))
  calm-IsOpen e _ st eq calm h = rw eq h

  calms-IsOpen :
      (es : List Envelope) (st : JoinState)
      → All (λ e. is_calm e.body ≡ true) es
      → IsOpen p st
      → IsOpen p (join_events (some def) es st)
  unfolding join_events
  calms-IsOpen [] st calm h = h
  calms-IsOpen (e ∷ es) st calm h =
      calms-IsOpen es (join_event (some def) e st) calm.1 (calm-IsOpen e e.body st refl calm.0 h)

  -- A completion of another persona, where no round is open.
  other-latest :
      (id : String) (pc : PersonaCompletedPayload) (st : JoinState)
      → (pc.persona == p) ≡ false
      → IsOpen p st
      → lookup p (join_completed (some def) id pc st).latest_by_persona
        ≡ lookup p st.latest_by_persona
  unfolding join_completed open_round
  other-latest id pc st other h = ground (
    arith,
    h,
    other,
    eq_iff st.retrigger_target "",
    lookup-set pc.persona p id st.latest_by_persona,
  )

  leaves-IsOpen :
      (e : Envelope) (b : Body) (st : JoinState)
      → e.body ≡ b
      → leaves p b ≡ true
      → IsOpen p st
      → IsOpen p (join_event (some def) e st)
        × (lookup p (join_event (some def) e st).latest_by_persona ≡ lookup p st.latest_by_persona)
  unfolding join_event join_failed join_verdict absorbs_failures
  leaves-IsOpen e (persona_failed (some pf)) st eq kept h = rw eq (ground (arith, h, strict))
  leaves-IsOpen e (persona_completed (some pc)) st eq kept h = rw eq (
    join_completed-IsOpen (some def) p e.id pc st h,
    other-latest e.id pc st (ground (arith, kept)) h,
  )
  leaves-IsOpen e (verdict_rendered (some v)) st eq kept h = rw eq (ground (arith, h))
  leaves-IsOpen e (feedback_generated j) st eq kept h = absurd (ground (arith, kept))
  leaves-IsOpen e _ st eq kept h = rw eq (h, refl)

  others-latest :
      (es : List Envelope) (st : JoinState)
      → All (λ e. leaves p e.body ≡ true) es
      → IsOpen p st
      → lookup p (join_events (some def) es st).latest_by_persona ≡ lookup p st.latest_by_persona
  unfolding join_events
  others-latest [] st kept h = refl
  others-latest (e ∷ es) st kept h =
      let (still_open, same) = leaves-IsOpen e e.body st refl kept.0 h in
      others-latest es (join_event (some def) e st) kept.1 still_open ∙ same

-- Once a round of feedback has ended with its target's completion, and while no other feedback follows,
-- the last completion of another persona downstream of the target counts, whatever other events lie
-- between and behind: the latest one of the persona is that completion, by the ID of its event. The
-- workflow does not absorb failures.
pub reopened-IsLatest :
    (def : WorkflowDef) (target p : String) (before during between after : List Envelope)
    (e done done_below : Envelope) (fb : FeedbackGeneratedPayload)
    (pc pc_below : PersonaCompletedPayload)
    → def.partial_review_on_failure ≡ false
    → e.body ≡ feedback_generated (some fb)
    → fb.target_persona ≡ target
    → (target == "") ≡ false
    → Downstream def.graph target p
    → (p == target) ≡ false
    → All (λ e. keeps_round target e.body ≡ true) during
    → done.body ≡ persona_completed (some pc)
    → pc.persona ≡ target
    → All (λ e. is_calm e.body ≡ true) between
    → done_below.body ≡ persona_completed (some pc_below)
    → pc_below.persona ≡ p
    → All (λ e. leaves p e.body ≡ true) after
    → lookup p
        (join_events
          (some def)
          ((before ++ e ∷ during) ++ done ∷ (between ++ done_below ∷ after))
          join_start).latest_by_persona
      ≡ some done_below.id
unfolding join_events
reopened-IsLatest def target p before during between after e done done_below fb pc pc_below strict
      fed same named below other kept ends ended calm counts counted behind =
    let contained = (downstream_of-Downstream def.graph target p).1 below in
    let stale =
      round-IsStale def target p before during e fb strict fed same named contained other kept in
    let waited = join_events (some def) (before ++ e ∷ during) join_start in
    let opened =
      join_completed-reopens def target p done.id pc waited ended named other contained stale in
    let start = join_completed (some def) done.id pc waited in
    let last = join_events (some def) between start in
    let still_open = calms-IsOpen def p strict between start calm opened in
    ap (λ st. lookup p st.latest_by_persona)
      (join_events-append (some def) (before ++ e ∷ during) (done ∷ (between ++ done_below ∷ after))
          join_start
        ∙ ap (join_events (some def) (between ++ done_below ∷ after))
            (completes def done pc waited ends)
        ∙ join_events-append (some def) between (done_below ∷ after) start
        ∙ ap (join_events (some def) after) (completes def done_below pc_below last counts))
    ∙ others-latest def p strict after (join_completed (some def) done_below.id pc_below last)
        behind (join_completed-IsOpen (some def) p done_below.id pc_below last still_open)
    ∙ join_completed-counts def p done_below.id pc_below last counted still_open.0 still_open.1
