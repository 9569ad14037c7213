-- ===== src/Resolver/Join/FirstRound.antt =====
-- internal/engine/workflow_resolver.go: checkJoinCondition on the events of a workflow before its first
-- feedback.
use rick_driven_development.Prelude.{
  ◌≡◌, refl, ap, sym, ◌∙◌, String, true, false, not, ◌&&◌, List, [], ◌∷◌, Option, none, some, arith,
  All, Bool-cases, Option-cases, inl, inr,
}
use rick_driven_development.Prelude.Dict.{lookup, get_or}
use rick_driven_development.Event.Envelope.{Envelope}
use rick_driven_development.Workflow.Def.{WorkflowDef}
use rick_driven_development.Aggregate.Fingerprint.{sort_strings}
use rick_driven_development.Aggregate.Sorting.{
  occurrences, IsAscending, sort_strings-occurrences, sort_strings-IsAscending,
}
use rick_driven_development.Resolver.Join.{
  JoinState, join_start, join_events, is_blocking, is_pending_feedback, is_consolidator_bypass,
  has_entries, collect, join_ids, satisfied, verdict_of, check_join_condition,
}
use rick_driven_development.Resolver.Join.Reopening.{is_calm}
use rick_driven_development.Resolver.Join.Log.{
  last_completion, is_rejected, or_last, events-latest, events-survives, blocking-survives,
}

-- `req` has completed, last with the event `id`, and a verdict of it that waits for feedback does not
-- hold the handler back.
pub record Counts (def : WorkflowDef) (requesting_handler : String) (events : List Envelope)
    (req id : String) : Type 0 where
  pub completed : last_completion req events ≡ some id
  pub accepted :
      (is_rejected req events
        && has_entries def.retriggered_by
        && not (is_consolidator_bypass def requesting_handler req))
      ≡ false

-- Each required persona counts, with the ID at its place.
abbrev pub AllCount : WorkflowDef → String → List Envelope → List String → List String → Type 0
AllCount def requesting_handler events [] [] = Unit {0}
AllCount def requesting_handler events (req ∷ reqs) (id ∷ ids) =
    Counts def requesting_handler events req id × AllCount def requesting_handler events reqs ids
AllCount def requesting_handler events _ _ = ⊥

module _ (def : WorkflowDef) (requesting_handler : String) (events : List Envelope)
    (strict : def.partial_review_on_failure ≡ false)
    (calm : All (λ e. is_calm e.body ≡ true) events) where
  abbrev st : JoinState
  st = join_events (some def) events join_start

  latest_of : (p : String) → lookup p st.latest_by_persona ≡ last_completion p events
  unfolding lookup get_or
  latest_of p =
      events-latest def p strict events join_start calm (refl, refl)
      ∙ by_last (last_completion p events)
    where
      by_last : (o : Option String) → or_last o none ≡ o
      by_last none = refl
      by_last (some id) = refl

  blocking_of : (p : String) → is_blocking (lookup p st.verdicts) ≡ is_rejected p events
  unfolding lookup get_or
  blocking_of p =
      blocking-survives (lookup p st.verdicts)
      ∙ events-survives def p strict events join_start calm (refl, refl)
      ∙ ground arith

  collect-AllCount :
      (required : List String)
      → (collect (some def) requesting_handler st required).1 ≡ []
      → AllCount def requesting_handler events required
          (collect (some def) requesting_handler st required).0
  unfolding collect is_pending_feedback
  collect-AllCount [] nothing = tt
  collect-AllCount (req ∷ reqs) nothing = elim (Option-cases (lookup req st.latest_by_persona)) [
    | inl absent ↦ absurd (ground (arith, absent))
    | inr (id, found) ↦
        elim (Bool-cases (is_pending_feedback (some def) requesting_handler req st)) [
          | inl waits ↦ absurd (ground (arith, found, waits))
          | inr free ↦
              rw (found, free, collect)
                (
                  record {
                    completed = sym (latest_of req) ∙ found;
                    accepted = ground (arith, free, blocking_of req);
                  },
                  collect-AllCount reqs (ground (arith, found, free)),
                )
        ]
  ]

  AllCount-collect :
      (required ids : List String)
      → AllCount def requesting_handler events required ids
      → collect (some def) requesting_handler st required ≡ (ids, [])
  unfolding collect is_pending_feedback
  AllCount-collect [] [] h = refl
  AllCount-collect [] (id ∷ ids) h = absurd h
  AllCount-collect (req ∷ reqs) [] h = absurd h
  AllCount-collect (req ∷ reqs) (id ∷ ids) h =
      let rest = AllCount-collect reqs ids h.1 in
      let present : lookup req st.latest_by_persona ≡ some id = latest_of req ∙ h.0.completed in
      let free : is_pending_feedback (some def) requesting_handler req st ≡ false =
        ground (arith, h.0.accepted, blocking_of req) in
      rw (present, free, rest, collect) refl

-- The text joins the IDs, as often as each stands in the list, in ascending order.
pub record IsFingerprint (ids : List String) (fingerprint : String) : Type 0 where
  pub sorted : List String
  pub ascending : IsAscending sorted
  pub same_ids : (x : String) → occurrences x sorted ≡ occurrences x ids
  pub joined : fingerprint ≡ join_ids sorted

verdict_of_satisfied :
    (r : List String × List String) (fingerprint : String)
    → verdict_of r ≡ satisfied fingerprint
    → (r.1 ≡ []) × (fingerprint ≡ join_ids (sort_strings r.0))
verdict_of_satisfied (ids, []) fingerprint e = (refl, ground (arith, e))
verdict_of_satisfied (ids, m ∷ ms) fingerprint e = absurd (ground (arith, e))

-- In a workflow that does not absorb failures, on events without feedback, a join is satisfied exactly
-- when each required persona has completed and no verdict of it holds the handler back: a failing one,
-- not advisory, that is followed by no other verdict of the persona and by at most one completion of it
-- holds back every handler but the consolidator of its reviews, where the workflow retriggers anyone.
-- The fingerprint of a satisfied join then joins, in ascending order, the IDs of each persona's last
-- completion.
pub check_join_condition-AllCount :
    (def : WorkflowDef) (requesting_handler : String) (required : List String)
    (events : List Envelope)
    → def.partial_review_on_failure ≡ false
    → All (λ e. is_calm e.body ≡ true) events
    → let check = check_join_condition (some def) requesting_handler required (some events) in
      ((fingerprint : String)
        → check ≡ satisfied fingerprint
        → (ids : List String) × AllCount def requesting_handler events required ids
          × IsFingerprint ids fingerprint)
      × ((ids : List String)
          → AllCount def requesting_handler events required ids
          → (fingerprint : String) × (check ≡ satisfied fingerprint))
unfolding check_join_condition
check_join_condition-AllCount def requesting_handler required events strict calm = (
  λ fingerprint e.
      let (nothing, same) = verdict_of_satisfied collected fingerprint e in
      (
        collected.0,
        collect-AllCount def requesting_handler events strict calm required nothing,
        record {
          sorted = sort_strings collected.0;
          ascending = sort_strings-IsAscending collected.0;
          same_ids = λ x. sort_strings-occurrences x collected.0;
          joined = same;
        },
      ),
  λ ids all_count. (
    join_ids (sort_strings ids),
    ap verdict_of
        (AllCount-collect def requesting_handler events strict calm required ids all_count),
  ),
)
  where
    collected : List String × List String
    collected =
        collect (some def) requesting_handler (join_events (some def) events join_start) required
