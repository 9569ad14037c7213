-- ===== src/Fair.antt =====
-- internal/engine/fair_dispatcher.go: the admission of dispatches to a fixed number of slots, fair among
-- the workflows. Each function is what runs under the mutex between two waits; a goroutine that waits is
-- its waiter, told apart by its pointer. A release is that of a slot that is held, so no counter goes
-- below zero. The broadcast wakes the goroutines, which look at their own flag only.
pub mod Admission
pub mod Counters
pub mod Invariant
pub mod Progress
use rick_driven_development.Prelude.{
  ℕ, ◌+◌, ◌-◌, ◌/◌, String, Bool, false, true, not, ◌&&◌, ◌||◌, List, [], ◌∷◌, ◌++◌, Option, none,
  some, ltb, leb, eqb, length, if◌then◌else◌,
}
use rick_driven_development.Prelude.Dict.{Dict, lookup, set, erase, get_or, is_present}

pub record FairWaiter : Type 0 where
  pub pointer : ℕ
  pub corr_id : String
  pub admitted : Bool

pub record FairDispatcher : Type 0 where
  pub cap : ℕ
  pub total : ℕ
  pub inflight : Dict ℕ
  pub waiters : List FairWaiter

unfoldable pub new_fair_dispatcher : ℕ → FairDispatcher
new_fair_dispatcher cap = record { cap = cap; total = 0; inflight = []; waiters = [] }

-- active, at least 1
abbrev pub at_least_one : ℕ → ℕ
at_least_one n = if ltb n 1 then 1 else n

unfoldable pub fair_share : FairDispatcher → String → ℕ
fair_share fd corr_id =
    let active = length fd.inflight + (if is_present (lookup corr_id fd.inflight) then 0 else 1) in
    at_least_one (fd.cap / at_least_one active)

unfoldable pub at_or_under_fair_share : FairDispatcher → String → Bool
at_or_under_fair_share fd corr_id = ltb (get_or 0 corr_id fd.inflight) (fair_share fd corr_id)

-- The first waiter with the pointer leaves.
unfoldable pub without_waiter : ℕ → List FairWaiter → List FairWaiter
without_waiter pointer [] = []
without_waiter pointer (w ∷ ws) =
    let rest = without_waiter pointer ws in if eqb w.pointer pointer then ws else w ∷ rest

unfoldable pub remove_waiter : ℕ → FairDispatcher → FairDispatcher
remove_waiter pointer fd = record fd { waiters = without_waiter pointer fd.waiters }

-- fd.total++; fd.inflight[corrID]++
unfoldable pub take_slot : String → FairDispatcher → FairDispatcher
take_slot corr_id fd = record fd {
  total = fd.total + 1;
  inflight = set corr_id (get_or 0 corr_id fd.inflight + 1) fd.inflight;
}

unfoldable pub admit : FairWaiter → FairDispatcher → FairDispatcher × Option FairWaiter
admit w fd = (remove_waiter w.pointer (take_slot w.corr_id fd), some (record w { admitted = true }))

unfoldable pub first_under_share : FairDispatcher → List FairWaiter → Option FairWaiter
first_under_share fd [] = none
first_under_share fd (w ∷ ws) =
    let rest = first_under_share fd ws in
    if not w.admitted && at_or_under_fair_share fd w.corr_id then some w else rest

unfoldable pub oldest : List FairWaiter → Option FairWaiter
oldest [] = none
oldest (w ∷ ws) = let rest = oldest ws in if not w.admitted then some w else rest

-- The waiter that is admitted, if one is.
unfoldable pub admit_one : FairDispatcher → FairDispatcher × Option FairWaiter
admit_one fd =
    if leb fd.cap fd.total || eqb (length fd.waiters) 0
    then (fd, none)
    else elim (first_under_share fd fd.waiters) [
      | some w ↦ admit w fd
      | none ↦ elim (oldest fd.waiters) [ some w ↦ admit w fd | none ↦ (fd, none) ]
    ]

-- fd.total--; fd.inflight[corrID]--, without the entry if that is 0
unfoldable pub free_slot : String → FairDispatcher → FairDispatcher
free_slot corr_id fd =
    let left = get_or 0 corr_id fd.inflight - 1 in
    record fd {
      total = fd.total - 1;
      inflight =
          if eqb left 0
          then erase corr_id (set corr_id left fd.inflight)
          else set corr_id left fd.inflight;
    }

unfoldable pub release : String → FairDispatcher → FairDispatcher × Option FairWaiter
release corr_id fd = admit_one (free_slot corr_id fd)

-- Up to the first wait: true says that the slot is taken, false that the goroutine waits.
unfoldable pub acquire : ℕ → String → FairDispatcher → FairDispatcher × Bool
acquire pointer corr_id fd =
    if ltb fd.total fd.cap && at_or_under_fair_share fd corr_id
    then (take_slot corr_id fd, true)
    else (
      record fd {
        waiters =
            fd.waiters ++ record { pointer = pointer; corr_id = corr_id; admitted = false } ∷ [];
      },
      false,
    )
