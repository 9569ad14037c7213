-- ===== src/Resolver/Join/Log.antt =====
-- internal/engine/workflow_resolver.go: what the loop of checkJoinCondition keeps of one persona, on events
-- without feedback.
use rick_driven_development.Prelude.{
  ℕ, ◌+◌, ◌≡◌, refl, ap, sym, ◌∙◌, String, Bool, true, false, not, ◌&&◌, ◌||◌, List, [], ◌∷◌,
  Option, none, some, ◌==◌, eq_iff, leb, arith, if◌then◌else◌, All,
}
use rick_driven_development.Prelude.Dict.{Dict, lookup, get_or, lookup-set, lookup-erase}
use rick_driven_development.Event.Payload.{PersonaCompletedPayload}
use rick_driven_development.Event.Envelope.{
  Envelope, Body, persona_failed, persona_completed, verdict_rendered, feedback_generated,
}
use rick_driven_development.Workflow.Def.{WorkflowDef}
use rick_driven_development.Aggregate.Apply.{absorbs_failures, is_fail}
use rick_driven_development.Resolver.Join.{
  VerdictTracker, JoinState, open_round, seal, join_failed, join_completed, join_verdict,
  join_event, join_events, is_blocking,
}
use rick_driven_development.Resolver.Join.Reopening.{is_calm, IsOpen, calm-IsOpen}

-- The body is a completion of `p`.
abbrev pub ends : String → Body → Bool
ends p (persona_completed (some pc)) = pc.persona == p
ends p _ = false

-- The body is a verdict that `p` renders.
abbrev pub judges : String → Body → Bool
judges p (verdict_rendered (some v)) = not (v.source_persona == "") && v.source_persona == p
judges p _ = false

-- The body is a failing verdict that `p` renders, and not an advisory one.
abbrev pub rejects : String → Body → Bool
rejects p (verdict_rendered (some v)) =
    not (v.source_persona == "") && v.source_persona == p && is_fail v.outcome && not v.advisory
rejects p _ = false

-- The event of the last completion of `p`.
abbrev pub last_completion : String → List Envelope → Option String
last_completion p [] = none
last_completion p (e ∷ es) = elim (last_completion p es) [
  | some id ↦ some id
  | none ↦ if ends p e.body then some e.id else none
]

abbrev pub completions : String → List Envelope → ℕ
completions p [] = 0
completions p (e ∷ es) = (if ends p e.body then 1 else 0) + completions p es

abbrev pub is_judged : String → List Envelope → Bool
is_judged p [] = false
is_judged p (e ∷ es) = judges p e.body || is_judged p es

-- Some failing verdict of `p` that is no advisory one is followed by no other verdict of `p`, and by at
-- most one completion of `p`.
abbrev pub is_rejected : String → List Envelope → Bool
is_rejected p [] = false
is_rejected p (e ∷ es) =
    is_rejected p es || (rejects p e.body && not (is_judged p es) && leb (completions p es) 1)

abbrev pub or_last : Option String → Option String → Option String
or_last none old = old
or_last (some id) old = some id

-- The tracker of a verdict still blocks after `n` completions.
abbrev survives : Option VerdictTracker → ℕ → Bool
survives none n = false
survives (some vt) n = vt.active && not vt.advisory && leb ((if vt.sealed then 1 else 0) + n) 1

seal_one : Option VerdictTracker → Option VerdictTracker
seal_one none = none
seal_one (some vt) = if vt.sealed then none else some (record vt { sealed = true })

seal-lookup :
    (q p : String) (m : Dict VerdictTracker)
    → lookup p (seal q m) ≡ (if q == p then seal_one (lookup p m) else lookup p m)
unfolding seal seal_one
seal-lookup q p m = by_tracker (lookup q m) refl
  where
    same : q == p ≡ true → lookup p m ≡ lookup q m
    same hit = ap (λ x. lookup x m) (sym ((eq_iff q p).0 hit))

    by_tracker :
        (o : Option VerdictTracker)
        → lookup q m ≡ o
        → lookup p (seal q m) ≡ (if q == p then seal_one (lookup p m) else lookup p m)
    by_tracker none e = ground (arith, e, same)
    by_tracker (some vt) e =
        ground (arith, e, same, lookup-erase q p m, lookup-set q p (record vt { sealed = true }) m)

sealed-survives : (o : Option VerdictTracker) (n : ℕ) → survives (seal_one o) n ≡ survives o (1 + n)
unfolding seal_one
sealed-survives none n = refl
sealed-survives (some vt) n = ground arith

completed-verdicts :
    (def : WorkflowDef) (p id : String) (pc : PersonaCompletedPayload) (st : JoinState)
    → IsOpen p st
    → lookup p (join_completed (some def) id pc st).verdicts
      ≡ (if pc.persona == p then seal_one (lookup p st.verdicts) else lookup p st.verdicts)
unfolding join_completed open_round
completed-verdicts def p id pc st h = ground (
  arith,
  h,
  eq_iff st.retrigger_target "",
  seal-lookup pc.persona p st.verdicts,
  ap (λ x. get_or false x st.pending_stale),
  eq_iff pc.persona p,
)

completed-latest :
    (def : WorkflowDef) (p id : String) (pc : PersonaCompletedPayload) (st : JoinState)
    → IsOpen p st
    → lookup p (join_completed (some def) id pc st).latest_by_persona
      ≡ (if pc.persona == p then some id else lookup p st.latest_by_persona)
unfolding join_completed open_round
completed-latest def p id pc st h = ground (
  arith,
  h,
  eq_iff st.retrigger_target "",
  lookup-set pc.persona p id st.latest_by_persona,
  eq_iff pc.persona p,
)

module _ (def : WorkflowDef) (p : String) (strict : def.partial_review_on_failure ≡ false) where
  event-latest :
      (e : Envelope) (b : Body) (st : JoinState)
      → e.body ≡ b
      → is_calm b ≡ true
      → IsOpen p st
      → lookup p (join_event (some def) e st).latest_by_persona
        ≡ (if ends p b then some e.id else lookup p st.latest_by_persona)
  unfolding join_event join_failed join_verdict absorbs_failures
  event-latest e (persona_failed (some pf)) st eq calm h = rw eq (ground (arith, strict))
  event-latest e (persona_completed (some pc)) st eq calm h =
      rw eq (completed-latest def p e.id pc st h)
  event-latest e (verdict_rendered (some v)) st eq calm h = rw eq (ground arith)
  event-latest e (feedback_generated j) st eq calm h = absurd (ground (arith, calm))
  event-latest e _ st eq calm h = rw eq refl

  event-survives :
      (e : Envelope) (b : Body) (st : JoinState) (n : ℕ)
      → e.body ≡ b
      → is_calm b ≡ true
      → IsOpen p st
      → survives (lookup p (join_event (some def) e st).verdicts) n ≡ (
          rejects p b && leb n 1
          || not (judges p b) && survives (lookup p st.verdicts) ((if ends p b then 1 else 0) + n))
  unfolding join_event join_failed join_verdict absorbs_failures
  event-survives e (persona_failed (some pf)) st n eq calm h = rw eq (ground (arith, strict))
  event-survives e (persona_completed (some pc)) st n eq calm h = rw eq (
      ground (
        arith,
        completed-verdicts def p e.id pc st h,
        sealed-survives (lookup p st.verdicts) n,
        ap (λ o. survives o n),
      ))
  event-survives e (verdict_rendered (some v)) st n eq calm h = rw eq (
      ground (
        arith,
        lookup-set v.source_persona p
            (record { active = is_fail v.outcome; sealed = false; advisory = v.advisory })
            st.verdicts,
      ))
  event-survives e (feedback_generated j) st n eq calm h = absurd (ground (arith, calm))
  event-survives e _ st n eq calm h = rw eq (ground arith)

  pub events-latest :
      (es : List Envelope) (st : JoinState)
      → All (λ e. is_calm e.body ≡ true) es
      → IsOpen p st
      → lookup p (join_events (some def) es st).latest_by_persona
        ≡ or_last (last_completion p es) (lookup p st.latest_by_persona)
  unfolding join_events
  events-latest [] st calm h = refl
  events-latest (e ∷ es) st calm h =
      let st' = join_event (some def) e st in
      let next = event-latest e e.body st refl calm.0 h in
      let rest = events-latest es st' calm.1 (calm-IsOpen def p strict e e.body st refl calm.0 h) in
      rest ∙ by_last (last_completion p es) _ _ next
    where
      by_last :
          (last seen old : Option String)
          → seen ≡ (if ends p e.body then some e.id else old)
          → or_last last seen
            ≡ or_last
                (elim last [ some id ↦ some id | none ↦ if ends p e.body then some e.id else none ])
                old
      by_last none seen old same = ground (arith, same)
      by_last (some id) seen old same = refl

  pub events-survives :
      (es : List Envelope) (st : JoinState)
      → All (λ e. is_calm e.body ≡ true) es
      → IsOpen p st
      → survives (lookup p (join_events (some def) es st).verdicts) 0 ≡ (
          is_rejected p es
          || not (is_judged p es) && survives (lookup p st.verdicts) (completions p es))
  unfolding join_events
  events-survives [] st calm h = ground arith
  events-survives (e ∷ es) st calm h =
      let st' = join_event (some def) e st in
      let next = event-survives e e.body st (completions p es) refl calm.0 h in
      let rest =
        events-survives es st' calm.1 (calm-IsOpen def p strict e e.body st refl calm.0 h) in
      rest ∙ ground (arith, next)

pub blocking-survives : (o : Option VerdictTracker) → is_blocking o ≡ survives o 0
blocking-survives none = refl
blocking-survives (some vt) = ground arith
