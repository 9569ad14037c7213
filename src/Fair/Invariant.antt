-- ===== src/Fair/Invariant.antt =====
-- internal/engine/fair_dispatcher.go: the states that acquire, release and cancellation reach.
use rick_driven_development.Prelude.{
  ℕ, ◌-◌, ◌≤◌, ◌≡◌, refl, String, false, ◌&&◌, arith, ltb, eqb, Bool-cases, inl, inr, eq_iff, ◌∙◌,
}
use rick_driven_development.Prelude.Dict.{set, get_or, get_or-set}
use rick_driven_development.Fair.{
  FairDispatcher, new_fair_dispatcher, at_or_under_fair_share, fair_share, remove_waiter, take_slot,
  admit, admit_one, free_slot, release, acquire,
}
use rick_driven_development.Fair.Counters.{
  IsDistinct, sum-set, set-IsDistinct, sum-erase, erase-IsDistinct, get_or-le-sum,
}
use rick_driven_development.Fair.Admission.{
  IsSound, IsCounted, without_waiter-IsFree, length-without_waiter, append-IsFree,
  take_slot-IsCounted, admit_one-IsSound,
}

pub data FairStep : FairDispatcher → FairDispatcher → Type 0 where
  acquires :
      (fd : FairDispatcher) (pointer : ℕ) (corr_id : String)
      → FairStep fd (acquire pointer corr_id fd).0
  releases :
      (fd : FairDispatcher) (corr_id : String)
      → 1 ≤ get_or 0 corr_id fd.inflight
      → FairStep fd (release corr_id fd).0
  cancels : (fd : FairDispatcher) (pointer : ℕ) → FairStep fd (remove_waiter pointer fd)

pub data FairReach (cap : ℕ) : FairDispatcher → Type 0 where
  start : FairReach cap (new_fair_dispatcher cap)
  later : {s t : FairDispatcher} → FairReach cap s → FairStep s t → FairReach cap t

free_slot-IsCounted :
    (corr_id : String) (fd : FairDispatcher)
    → IsSound fd
    → 1 ≤ get_or 0 corr_id fd.inflight
    → IsCounted (free_slot corr_id fd)
unfolding free_slot
free_slot-IsCounted corr_id fd h held =
    let left = get_or 0 corr_id fd.inflight - 1 in
    let written = set corr_id left fd.inflight in
    let distinct : IsDistinct written = set-IsDistinct corr_id left fd.inflight h.distinct in
    record {
      counted = ground (
        arith,
        h.counted,
        held,
        sum-set corr_id left fd.inflight,
        sum-erase corr_id written distinct,
        get_or-set 0 corr_id corr_id left fd.inflight,
        eq_iff corr_id corr_id,
      );
      distinct = elim (Bool-cases (eqb left 0)) [
        | inl gone ↦ rw gone (erase-IsDistinct corr_id written distinct)
        | inr stays ↦ rw stays distinct
      ];
      within = omega (arith, h.within);
      free = h.free;
    }

admit_one-cap : (fd : FairDispatcher) → (admit_one fd).0.cap ≡ fd.cap
unfolding admit_one admit remove_waiter take_slot
admit_one-cap fd = ground arith

release-IsSound :
    (fd : FairDispatcher) (corr_id : String)
    → 1 ≤ get_or 0 corr_id fd.inflight
    → 1 ≤ fd.cap
    → IsSound fd
    → IsSound (release corr_id fd).0 × ((release corr_id fd).0.cap ≡ fd.cap)
unfolding release free_slot
release-IsSound fd corr_id held one h = (
  (admit_one-IsSound (free_slot corr_id fd) one (free_slot-IsCounted corr_id fd h held)).0,
  admit_one-cap (free_slot corr_id fd),
)

fair_share_pos : (fd : FairDispatcher) (corr_id : String) → 1 ≤ fair_share fd corr_id
unfolding fair_share
fair_share_pos fd corr_id = ground arith

take_slot_pos : (corr_id : String) (fd : FairDispatcher) → 1 ≤ (take_slot corr_id fd).total
unfolding take_slot
take_slot_pos corr_id fd = omega arith

waits-held :
    (fd : FairDispatcher) (corr_id : String)
    → 1 ≤ fd.cap
    → IsSound fd
    → (ltb fd.total fd.cap && at_or_under_fair_share fd corr_id) ≡ false
    → 1 ≤ fd.total
unfolding at_or_under_fair_share
waits-held fd corr_id one h waits =
    ground (arith, h.counted, fair_share_pos fd corr_id, get_or-le-sum corr_id fd.inflight)

acquire-IsSound :
    (fd : FairDispatcher) (pointer : ℕ) (corr_id : String)
    → 1 ≤ fd.cap
    → IsSound fd
    → IsSound (acquire pointer corr_id fd).0 × ((acquire pointer corr_id fd).0.cap ≡ fd.cap)
unfolding acquire take_slot
acquire-IsSound fd pointer corr_id one h =
    elim (Bool-cases (ltb fd.total fd.cap && at_or_under_fair_share fd corr_id)) [
      | inl fits ↦
          let c : IsCounted (take_slot corr_id fd) =
            take_slot-IsCounted corr_id fd
              (record {
                counted = h.counted;
                distinct = h.distinct;
                within = h.within;
                free = h.free;
              })
              (ground (arith, fits)) in
          rw (fits, acquire)
            (
              record {
                counted = c.counted;
                distinct = c.distinct;
                within = c.within;
                free = c.free;
                awaited = λ _. taken;
              },
              refl,
            )
      | inr waits ↦
          rw (waits, acquire)
            (
              record {
                counted = h.counted;
                distinct = h.distinct;
                within = h.within;
                free = append-IsFree fd.waiters _ h.free refl;
                awaited = λ _. held_of waits;
              },
              refl,
            )
    ]
  where
    taken : 1 ≤ (take_slot corr_id fd).total
    taken = take_slot_pos corr_id fd

    held_of : (ltb fd.total fd.cap && at_or_under_fair_share fd corr_id) ≡ false → 1 ≤ fd.total
    held_of waits = waits-held fd corr_id one h waits

-- Every step keeps the counters sound.
FairStep-IsSound :
    {s t : FairDispatcher} → FairStep s t → 1 ≤ s.cap → IsSound s → IsSound t × (t.cap ≡ s.cap)
unfolding remove_waiter
FairStep-IsSound (acquires fd pointer corr_id) one h = acquire-IsSound fd pointer corr_id one h
FairStep-IsSound (releases fd corr_id held) one h = release-IsSound fd corr_id held one h
FairStep-IsSound (cancels fd pointer) one h = (
  record {
    counted = h.counted;
    distinct = h.distinct;
    within = h.within;
    free = without_waiter-IsFree pointer fd.waiters h.free;
    awaited = λ n. h.awaited (omega (arith, length-without_waiter pointer fd.waiters));
  },
  refl,
)

-- In every state that acquisitions, releases of held slots and cancellations lead to, from a new
-- dispatcher with at least one slot, the slots in use are within the cap and are the sum of those that
-- the workflows hold, and while a goroutine waits some slot is held.
pub FairReach-IsSound :
    {cap : ℕ} {fd : FairDispatcher} → 1 ≤ cap → FairReach cap fd → IsSound fd × (fd.cap ≡ cap)
unfolding new_fair_dispatcher
FairReach-IsSound one start = (
  record {
    counted = refl;
    distinct = tt;
    within = omega arith;
    free = tt;
    awaited = λ n. absurd (omega arith);
  },
  refl,
)
FairReach-IsSound one (later r step) =
    let (sound, same) = FairReach-IsSound one r in
    let (next, kept) = FairStep-IsSound step (omega (arith, same)) sound in (next, kept ∙ same)
