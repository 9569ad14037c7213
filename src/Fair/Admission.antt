-- ===== src/Fair/Admission.antt =====
-- internal/engine/fair_dispatcher.go: the counters, and admitting a waiter.
use rick_driven_development.Prelude.{
  ℕ, ◌+◌, ◌≤◌, ◌<◌, ◌≡◌, refl, String, false, List, [], ◌∷◌, ◌++◌, none, some, arith, length, ltb,
  leb, eqb, Bool-cases, Option-cases, inl, inr, ap, ◌∙◌, subst,
}
use rick_driven_development.Prelude.Dict.{get_or}
use rick_driven_development.Fair.{
  FairWaiter, FairDispatcher, without_waiter, remove_waiter, take_slot, admit, first_under_share,
  oldest, admit_one,
}
use rick_driven_development.Fair.Counters.{sum, IsDistinct, sum-set, set-IsDistinct}

abbrev pub IsFree : List FairWaiter → Type 0
IsFree [] = Unit {0}
IsFree (w ∷ ws) = (w.admitted ≡ false) × IsFree ws

-- The total is the sum of what the workflows hold, and within the cap; a goroutine that waits has not
-- been admitted; and while one waits, some slot is held, so that a release is still to come.
pub record IsSound (fd : FairDispatcher) : Type 0 where
  pub counted : fd.total ≡ sum fd.inflight
  pub distinct : IsDistinct fd.inflight
  pub within : fd.total ≤ fd.cap
  pub free : IsFree fd.waiters
  pub awaited : 1 ≤ length fd.waiters → 1 ≤ fd.total

-- Sound but for the last clause, which a release breaks before it admits.
pub record IsCounted (fd : FairDispatcher) : Type 0 where
  pub counted : fd.total ≡ sum fd.inflight
  pub distinct : IsDistinct fd.inflight
  pub within : fd.total ≤ fd.cap
  pub free : IsFree fd.waiters

pub without_waiter-IsFree :
    (p : ℕ) (ws : List FairWaiter) → IsFree ws → IsFree (without_waiter p ws)
unfolding without_waiter
without_waiter-IsFree p [] h = tt
without_waiter-IsFree p (w ∷ ws) h = elim (Bool-cases (eqb w.pointer p)) [
  | inl hit ↦ rw hit h.1
  | inr miss ↦ rw miss (h.0, without_waiter-IsFree p ws h.1)
]

pub length-without_waiter :
    (p : ℕ) (ws : List FairWaiter) → length (without_waiter p ws) ≤ length ws
unfolding without_waiter
length-without_waiter p [] = omega arith
length-without_waiter p (w ∷ ws) = ground (arith, length-without_waiter p ws)

pub append-IsFree :
    (ws : List FairWaiter) (w : FairWaiter) → IsFree ws → w.admitted ≡ false → IsFree (ws ++ w ∷ [])
append-IsFree [] w h e = (e, tt)
append-IsFree (x ∷ ws) w h e = (h.0, append-IsFree ws w h.1 e)

pub take_slot-IsCounted :
    (corr_id : String) (fd : FairDispatcher)
    → IsCounted fd
    → fd.total < fd.cap
    → IsCounted (take_slot corr_id fd)
unfolding take_slot
take_slot-IsCounted corr_id fd h room = record {
  counted =
      omega (arith, h.counted, sum-set corr_id (get_or 0 corr_id fd.inflight + 1) fd.inflight);
  distinct = set-IsDistinct corr_id (get_or 0 corr_id fd.inflight + 1) fd.inflight h.distinct;
  within = omega arith;
  free = h.free;
}

remove_waiter-IsCounted :
    (p : ℕ) (fd : FairDispatcher) → IsCounted fd → IsCounted (remove_waiter p fd)
unfolding remove_waiter
remove_waiter-IsCounted p fd h = record {
  counted = h.counted;
  distinct = h.distinct;
  within = h.within;
  free = without_waiter-IsFree p fd.waiters h.free;
}

pub admit-IsSound :
    (w : FairWaiter) (fd : FairDispatcher)
    → IsCounted fd
    → fd.total < fd.cap
    → IsSound (admit w fd).0 × ((admit w fd).0.total ≡ fd.total + 1)
unfolding admit remove_waiter take_slot
admit-IsSound w fd h room =
    let c =
      remove_waiter-IsCounted w.pointer (take_slot w.corr_id fd)
        (take_slot-IsCounted w.corr_id fd h room) in
    (
      record {
        counted =
            omega (
              arith,
              h.counted,
              sum-set w.corr_id (get_or 0 w.corr_id fd.inflight + 1) fd.inflight,
            );
        distinct =
            set-IsDistinct w.corr_id (get_or 0 w.corr_id fd.inflight + 1) fd.inflight h.distinct;
        within = omega arith;
        free = without_waiter-IsFree w.pointer fd.waiters h.free;
        awaited = λ _. omega arith;
      },
      refl,
    )

pub oldest-first :
    (w : FairWaiter) (ws : List FairWaiter) → w.admitted ≡ false → oldest (w ∷ ws) ≡ some w
unfolding oldest
oldest-first w ws e = ground (arith, e)

-- What admitOne does to counters that a release has left: sound again, with one more slot taken just
-- where there was room and a goroutine waited.
pub admit_one-IsSound :
    (fd : FairDispatcher)
    → 1 ≤ fd.cap
    → IsCounted fd
    → IsSound (admit_one fd).0
      × (fd.total < fd.cap → 1 ≤ length fd.waiters → (admit_one fd).0.total ≡ fd.total + 1)
unfolding admit_one
admit_one-IsSound fd one h = by_waiters fd.waiters refl
  where
    stays :
        (fd.total < fd.cap → 1 ≤ length fd.waiters → ⊥)
        → admit_one fd ≡ (fd, none)
        → IsSound (admit_one fd).0
          × (fd.total < fd.cap → 1 ≤ length fd.waiters → (admit_one fd).0.total ≡ fd.total + 1)
    stays none_fits same = rw same (
      record {
        counted = h.counted;
        distinct = h.distinct;
        within = h.within;
        free = h.free;
        awaited = λ some_wait. elim (Bool-cases (ltb fd.total fd.cap)) [
          | inl room ↦ absurd (none_fits (ground arith) some_wait)
          | inr full ↦ ground arith
        ];
      },
      λ room some_wait. absurd (none_fits room some_wait),
    )

    takes :
        (w : FairWaiter)
        → fd.total < fd.cap
        → admit_one fd ≡ admit w fd
        → IsSound (admit_one fd).0
          × (fd.total < fd.cap → 1 ≤ length fd.waiters → (admit_one fd).0.total ≡ fd.total + 1)
    takes w room same =
        let (sound, count) = admit-IsSound w fd h room in rw same (sound, λ _ _. count)

    by_waiters :
        (ws : List FairWaiter)
        → fd.waiters ≡ ws
        → IsSound (admit_one fd).0
          × (fd.total < fd.cap → 1 ≤ length fd.waiters → (admit_one fd).0.total ≡ fd.total + 1)
    by_waiters [] e = stays (λ _ n. ground (arith, e)) (ground (arith, e))
    by_waiters (x ∷ ws) e = elim (Bool-cases (leb fd.cap fd.total)) [
      | inl full ↦ stays (λ room _. ground arith) (ground (arith, full))
      | inr room ↦ elim (Option-cases (first_under_share fd fd.waiters)) [
        | inr (w, found) ↦ takes w (ground arith) (ground (arith, room, e, found))
        | inl none_under ↦
            let front : oldest fd.waiters ≡ some x =
              ap oldest e ∙ oldest-first x ws (subst IsFree e h.free).0 in
            takes x (ground arith) (ground (arith, room, e, none_under, front))
      ]
    ]
