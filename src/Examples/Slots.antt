-- ===== src/Examples/Slots.antt =====
-- The theorems on the fair dispatcher, applied to two slots, which one workflow holds while another waits.
use rick_driven_development.Prelude.{◌≡◌, arith}
use rick_driven_development.Prelude.Dict.{set, get_or, lookup}
use rick_driven_development.Fair.{
  FairDispatcher, FairWaiter, new_fair_dispatcher, acquire, take_slot, at_or_under_fair_share,
  fair_share,
}
use rick_driven_development.Fair.Admission.{IsSound}
use rick_driven_development.Fair.Invariant.{FairReach, start, later, acquires, FairReach-IsSound}
use rick_driven_development.Fair.Progress.{HandsOver, release-HandsOver}

abbrev crowded : FairDispatcher
crowded = (acquire 3 "wf-2" (acquire 2 "wf-1" (acquire 1 "wf-1" (new_fair_dispatcher 2)).0).0).0

crowded-FairReach : FairReach 2 crowded
crowded-FairReach =
    later (later (later start (acquires _ 1 "wf-1")) (acquires _ 2 "wf-1")) (acquires _ 3 "wf-2")

FairReach-IsSound_example : IsSound crowded × (crowded.cap ≡ 2)
FairReach-IsSound_example = FairReach-IsSound (omega arith) crowded-FairReach

release-HandsOver_example : (w : FairWaiter) × HandsOver crowded "wf-1" w
unfolding acquire take_slot at_or_under_fair_share fair_share get_or lookup set new_fair_dispatcher
release-HandsOver_example =
    release-HandsOver crowded "wf-1" (FairReach-IsSound (omega arith) crowded-FairReach).0
      (omega arith) (omega arith)
