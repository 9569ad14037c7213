-- ===== src/Fair/Progress.antt =====
-- internal/engine/fair_dispatcher.go: a release while goroutines wait.
use rick_driven_development.Prelude.{
  ℕ, ◌+◌, ◌-◌, ◌≤◌, ◌≡◌, refl, String, Bool, true, false, ◌++◌, ◌==◌, eq_iff, eqb, if◌then◌else◌,
  List, [], ◌∷◌, some, none, ◌⊎◌, inl, inr, arith, length, Bool-cases, Option-cases, ap, subst, sym,
}
use rick_driven_development.Prelude.Dict.{get_or, set, get_or-set, get_or-erase}
use rick_driven_development.Fair.{
  FairWaiter, FairDispatcher, at_or_under_fair_share, without_waiter, remove_waiter, take_slot,
  admit, first_under_share, admit_one, free_slot, release,
}
use rick_driven_development.Fair.Counters.{get_or-le-sum}
use rick_driven_development.Fair.Admission.{IsFree, IsSound, oldest-first}

-- `w` is the first of the waiters whose workflow holds less than its share.
abbrev pub IsFirstUnder : FairDispatcher → FairWaiter → List FairWaiter → Type 0
IsFirstUnder fd w [] = ⊥
IsFirstUnder fd w (x ∷ xs) =
    ((at_or_under_fair_share fd x.corr_id ≡ true) × (w ≡ x))
    ⊎ ((at_or_under_fair_share fd x.corr_id ≡ false) × IsFirstUnder fd w xs)

abbrev pub NoneUnder : FairDispatcher → List FairWaiter → Type 0
NoneUnder fd [] = Unit {0}
NoneUnder fd (x ∷ xs) = (at_or_under_fair_share fd x.corr_id ≡ false) × NoneUnder fd xs

-- The waiter that is next: the first under its share, or the head of the queue where none is.
abbrev pub IsNext : FairDispatcher → FairWaiter → List FairWaiter → Type 0
IsNext fd w [] = ⊥
IsNext fd w (x ∷ xs) = IsFirstUnder fd w (x ∷ xs) ⊎ (NoneUnder fd (x ∷ xs) × (w ≡ x))

first_under_share-some :
    (fd : FairDispatcher) (w : FairWaiter) (ws : List FairWaiter)
    → IsFree ws
    → first_under_share fd ws ≡ some w
    → IsFirstUnder fd w ws
unfolding first_under_share
first_under_share-some fd w [] h e = ground arith
first_under_share-some fd w (x ∷ xs) h e = elim (Bool-cases (at_or_under_fair_share fd x.corr_id)) [
  | inl under ↦ inl (under, ground (arith, h.0, under, e))
  | inr over ↦ inr (over, first_under_share-some fd w xs h.1 (ground (arith, h.0, over, e)))
]

first_under_share-none :
    (fd : FairDispatcher) (ws : List FairWaiter)
    → IsFree ws
    → first_under_share fd ws ≡ none
    → NoneUnder fd ws
unfolding first_under_share
first_under_share-none fd [] h e = tt
first_under_share-none fd (x ∷ xs) h e = elim (Bool-cases (at_or_under_fair_share fd x.corr_id)) [
  | inl under ↦ absurd (ground (arith, h.0, under, e))
  | inr over ↦ (over, first_under_share-none fd xs h.1 (ground (arith, h.0, over, e)))
]

-- Exactly one waiter with the pointer has left the queue `ws`, which is then `rest`.
abbrev pub Leaves : ℕ → List FairWaiter → List FairWaiter → Type 0
Leaves p ws rest =
    (before : List FairWaiter) × (x : FairWaiter) × (after : List FairWaiter) × (ws
      ≡ before ++ x ∷ after)
    × (x.pointer ≡ p)
    × (rest ≡ before ++ after)

without_head :
    (p : ℕ) (x : FairWaiter) (xs : List FairWaiter)
    → x.pointer ≡ p
    → Leaves p (x ∷ xs) (without_waiter p (x ∷ xs))
unfolding without_waiter
without_head p x xs e = ([], x, xs, refl, e, ground (arith, e))

without_later :
    (p : ℕ) (x : FairWaiter) (xs : List FairWaiter)
    → Leaves p xs (without_waiter p xs)
    → Leaves p (x ∷ xs) (without_waiter p (x ∷ xs))
unfolding without_waiter
without_later p x xs (before, y, after, split, same, rest) = elim (Bool-cases (eqb x.pointer p)) [
  | inl hit ↦ ([], x, xs, refl, ground (arith, hit), ground (arith, hit))
  | inr miss ↦ (x ∷ before, y, after, ap (λ l. x ∷ l) split, same, rw miss (ap (λ l. x ∷ l) rest))
]

first-Leaves :
    (fd : FairDispatcher) (w : FairWaiter) (ws : List FairWaiter)
    → IsFirstUnder fd w ws
    → Leaves w.pointer ws (without_waiter w.pointer ws)
first-Leaves fd w [] h = absurd h
first-Leaves fd w (x ∷ xs) (inl (under, same)) =
    without_head w.pointer x xs (ap (λ y. y.pointer) (sym same))
first-Leaves fd w (x ∷ xs) (inr (over, later)) =
    without_later w.pointer x xs (first-Leaves fd w xs later)

next-Leaves :
    (fd : FairDispatcher) (w : FairWaiter) (ws : List FairWaiter)
    → IsNext fd w ws
    → Leaves w.pointer ws (without_waiter w.pointer ws)
next-Leaves fd w [] h = absurd h
next-Leaves fd w (x ∷ xs) (inl first) = first-Leaves fd w (x ∷ xs) first
next-Leaves fd w (x ∷ xs) (inr (over, same)) =
    without_head w.pointer x xs (ap (λ y. y.pointer) (sym same))

abbrev pub one_if : Bool → ℕ
one_if b = if b then 1 else 0

free_slot-held :
    (fd : FairDispatcher) (corr_id x : String)
    → 1 ≤ get_or 0 corr_id fd.inflight
    → get_or 0 x (free_slot corr_id fd).inflight + one_if (corr_id == x) ≡ get_or 0 x fd.inflight
unfolding free_slot
free_slot-held fd corr_id x held = ground (
  arith,
  eq_iff corr_id x,
  get_or-set 0 corr_id x left fd.inflight,
  get_or-erase 0 corr_id x (set corr_id left fd.inflight),
)
  where
    left : ℕ
    left = get_or 0 corr_id fd.inflight - 1

take_slot-held :
    (fd : FairDispatcher) (corr_id x : String)
    → get_or 0 x (take_slot corr_id fd).inflight ≡ get_or 0 x fd.inflight + one_if (corr_id == x)
unfolding take_slot
take_slot-held fd corr_id x =
    ground (
      arith,
      eq_iff corr_id x,
      get_or-set 0 corr_id x (get_or 0 corr_id fd.inflight + 1) fd.inflight,
    )

-- What a release with the waiters `ws` has done for `w`.
pub record HandsOver (fd : FairDispatcher) (corr_id : String) (w : FairWaiter) : Type 0 where
  pub chosen : IsNext (free_slot corr_id fd) w fd.waiters
  pub woken : (release corr_id fd).1 ≡ some (record w { admitted = true })
  pub left : Leaves w.pointer fd.waiters (release corr_id fd).0.waiters
  pub charged :
      (x : String)
      → get_or 0 x (release corr_id fd).0.inflight + one_if (corr_id == x)
        ≡ get_or 0 x fd.inflight + one_if (w.corr_id == x)
  pub busy : (release corr_id fd).0.total ≡ fd.total

admit-HandsOver :
    (fd : FairDispatcher) (corr_id : String) (w : FairWaiter)
    → 1 ≤ fd.total
    → 1 ≤ get_or 0 corr_id fd.inflight
    → admit_one (free_slot corr_id fd) ≡ admit w (free_slot corr_id fd)
    → IsNext (free_slot corr_id fd) w fd.waiters
    → HandsOver fd corr_id w
unfolding release admit remove_waiter take_slot free_slot
admit-HandsOver fd corr_id w total_pos held same chosen = record {
  chosen = chosen;
  woken = ap (λ r. r.1) same;
  left =
      subst (Leaves w.pointer fd.waiters) (sym (ap (λ r. r.0.waiters) same))
        (next-Leaves (free_slot corr_id fd) w fd.waiters chosen);
  charged = λ x. ground (
    arith,
    ap (λ r. get_or 0 x r.0.inflight) same,
    take_slot-held (free_slot corr_id fd) w.corr_id x,
    free_slot-held fd corr_id x held,
  );
  busy = ground (arith, ap (λ r. r.0.total) same);
}

-- The release of a held slot, in a sound state with waiting goroutines, wakes exactly one of them: the
-- first whose workflow then holds less than its share, or the head of the queue where none does. One
-- waiter with its pointer leaves the queue and the others keep their order; the slot is counted for its
-- workflow instead of the releasing one, and as many slots are in use as before.
pub release-HandsOver :
    (fd : FairDispatcher) (corr_id : String)
    → IsSound fd
    → 1 ≤ get_or 0 corr_id fd.inflight
    → 1 ≤ length fd.waiters
    → (w : FairWaiter) × HandsOver fd corr_id w
unfolding free_slot admit_one
release-HandsOver fd corr_id h held some_wait = by_waiters fd.waiters refl
  where
    total_pos : 1 ≤ fd.total
    total_pos = omega (arith, h.counted, get_or-le-sum corr_id fd.inflight)

    by_waiters :
        (ws : List FairWaiter) → fd.waiters ≡ ws → (w : FairWaiter) × HandsOver fd corr_id w
    by_waiters [] e = absurd (ground (arith, e))
    by_waiters (x ∷ xs) e =
        let freed = free_slot corr_id fd in
        let free : IsFree fd.waiters = h.free in
        elim (Option-cases (first_under_share freed fd.waiters)) [
          | inr (w, found) ↦ (
            w,
            admit-HandsOver fd corr_id w total_pos held
                (ground (arith, h.within, total_pos, e, found))
                (subst (IsNext freed w) (sym e) (
                  inl (
                    first_under_share-some freed w (x ∷ xs) (subst IsFree e free)
                      (subst (λ ws. first_under_share freed ws ≡ some w) e found)))),
          )
          | inl none_under ↦ (
            x,
            admit-HandsOver fd corr_id x total_pos held
                (ground (
                  arith,
                  h.within,
                  total_pos,
                  e,
                  none_under,
                  oldest-first x xs (subst IsFree e free).0,
                ))
                (subst (IsNext freed x) (sym e) (
                  inr (
                    first_under_share-none freed (x ∷ xs) (subst IsFree e free)
                        (subst (λ ws. first_under_share freed ws ≡ none) e none_under),
                    refl,
                  ))),
          )
        ]
