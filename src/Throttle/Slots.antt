-- ===== src/Throttle/Slots.antt =====
-- internal/engine/throttle.go: the running workflows, their last activity, and the watchdog's candidates.
use Prim.Native.Nat.{max}
use rick_driven_development.Prelude.{
  List, ℕ, ◌+◌, ◌≤◌, ◌<◌, ◌≡◌, refl, String, true, false, [], ◌∷◌, arith, eq_iff, ltb, eqb, length,
  contains, if◌then◌else◌, ◌&&◌, Bool-cases, inl, inr,
}
use rick_driven_development.Prelude.Dict.{
  is_present, Dict, lookup, set, erase, get_or, lookup-set, lookup-erase,
}
use rick_driven_development.Event.Envelope.{Envelope}
use rick_driven_development.Throttle.{
  QueueStore, WorkflowThrottle, should_queue, enqueue, dequeue, add_running, remove_running,
  touch_activity, stalled_of, stalled_entries, mark_stalled, remove_queued, warm_running,
  warm_queued,
}

pub length-set :
    {V : Type 0} (k : String) (v : V) (m : Dict V)
    → length (set k v m) ≡ (if is_present (lookup k m) then length m else length m + 1)
unfolding set lookup
length-set k v [] = refl
length-set k v ((j, w) ∷ m) = ground (arith, length-set k v m)

pub length-erase :
    {V : Type 0} (k : String) (m : Dict V)
    → (length (erase k m) ≤ length m)
      × (is_present (lookup k m) ≡ true → length (erase k m) < length m)
unfolding erase lookup
length-erase k [] = (omega arith, λ e. cc)
length-erase k ((j, w) ∷ m) = ground (arith, length-erase k m)

stalled_of-member :
    (last : Dict ℕ) (threshold now : ℕ) (m : Dict (Unit {0})) (x : String)
    → contains (stalled_of last threshold now m) x
      ≡ (is_present (lookup x m) && ltb (get_or 0 x last + threshold) now)
unfolding stalled_of contains lookup
stalled_of-member last threshold now [] x = refl
stalled_of-member last threshold now ((id, u) ∷ m) x =
    ground (arith, stalled_of-member last threshold now m x, eq_iff id x)

lookup_of_empty :
    (m : Dict (Unit {0})) (x : String) → eqb (length m) 0 ≡ true → is_present (lookup x m) ≡ false
unfolding lookup
lookup_of_empty [] x e = refl
lookup_of_empty ((j, u) ∷ m) x e = ground arith

-- A call of a method that changes the throttle, the two of a restart among them.
pub data Operation : Type 0 where
  adds : String → ℕ → Operation
  removes : String → Operation
  touches : String → ℕ → Operation
  reclaims : String → ℕ → Operation
  parks : Envelope → Operation
  unparks : Operation
  drops : String → Operation
  warms : List String → ℕ → Operation
  restores : List Envelope → Operation

-- How many workflows a restart brings.
abbrev pub warmed : Operation → ℕ
warmed (warms ids now) = length ids
warmed _ = 0

module _ {S : Type 0} (q : QueueStore S) where
  abbrev pub perform : Operation → WorkflowThrottle S → WorkflowThrottle S
  perform (adds id now) t = add_running q id now t
  perform (removes id) t = (remove_running q id t).0
  perform (touches id now) t = touch_activity q id now t
  perform (reclaims id now) t = (mark_stalled q id now t).0
  perform (parks env) t = enqueue q env t
  perform unparks t = (dequeue q t).0
  perform (drops id) t = (remove_queued q id t).0
  perform (warms ids now) t = warm_running q ids now t
  perform (restores envs) t = warm_queued q envs t

  -- A workflow has a time of last activity just when it runs.
  abbrev pub IsTracked : WorkflowThrottle S → Type 0
  IsTracked t =
      (x : String) → is_present (lookup x t.last_activity) ≡ is_present (lookup x t.running)

  warm_running-IsTracked :
      (ids : List String) (now : ℕ) (t : WorkflowThrottle S)
      → IsTracked t
      → IsTracked (warm_running q ids now t)
  unfolding warm_running
  warm_running-IsTracked [] now t h = h
  warm_running-IsTracked (id ∷ ids) now t h =
      warm_running-IsTracked ids now
        (record t { running = set id tt t.running; last_activity = set id now t.last_activity })
        λ x. ground (arith, h x, lookup-set id x now t.last_activity, lookup-set id x tt t.running)

  warm_running-adds :
      (ids : List String) (now : ℕ) (t : WorkflowThrottle S)
      → ((warm_running q ids now t).max_concurrent ≡ t.max_concurrent)
        × (length (warm_running q ids now t).running ≤ length t.running + length ids)
  unfolding warm_running
  warm_running-adds [] now t = ground arith
  warm_running-adds (id ∷ ids) now t = ground (
    arith,
    length-set id tt t.running,
    warm_running-adds ids now
        (record t { running = set id tt t.running; last_activity = set id now t.last_activity }),
  )

  -- Every operation, those of a restart among them, keeps it so that exactly the running workflows have a time of last activity.
  pub perform-IsTracked :
      (o : Operation) (t : WorkflowThrottle S) → IsTracked t → IsTracked (perform o t)
  unfolding add_running remove_running touch_activity mark_stalled enqueue dequeue remove_queued
      warm_queued
  perform-IsTracked (adds id now) t h x =
      ground (arith, h x, lookup-set id x now t.last_activity, lookup-set id x tt t.running)
  perform-IsTracked (removes id) t h x =
      ground (arith, h x, lookup-erase id x t.last_activity, lookup-erase id x t.running)
  perform-IsTracked (touches id now) t h x =
      ground (arith, h x, h id, eq_iff id x, lookup-set id x now t.last_activity)
  perform-IsTracked (reclaims id now) t h x =
      ground (arith, h x, lookup-erase id x t.last_activity, lookup-erase id x t.running)
  perform-IsTracked (parks env) t h x = h x
  perform-IsTracked unparks t h x = ground (arith, h x)
  perform-IsTracked (drops id) t h x = ground (arith, h x)
  perform-IsTracked (warms ids now) t h x = warm_running-IsTracked ids now t h x
  perform-IsTracked (restores envs) t h x = h x

  -- Where there is a limit, and if a workflow is added only while the throttle does not ask to queue, no
  -- operation makes the running workflows more than the limit, or than they were before if that is more,
  -- except that a restart adds at most as many as it brings, whatever the limit.
  pub perform-capacity :
      (o : Operation) (t : WorkflowThrottle S)
      → 1 ≤ t.max_concurrent
      → ((id : String) (now : ℕ) → o ≡ adds id now → should_queue q t ≡ false)
      → ((perform o t).max_concurrent ≡ t.max_concurrent)
        × (length (perform o t).running ≤ max t.max_concurrent (length t.running) + warmed o)
  unfolding should_queue add_running remove_running touch_activity mark_stalled enqueue dequeue
      remove_queued warm_queued
  perform-capacity (adds id now) t one free =
      ground (arith, free id now refl, length-set id tt t.running)
  perform-capacity (removes id) t one free = ground (arith, length-erase id t.running)
  perform-capacity (touches id now) t one free = ground arith
  perform-capacity (reclaims id now) t one free = ground (arith, length-erase id t.running)
  perform-capacity (parks env) t one free = ground arith
  perform-capacity unparks t one free = ground arith
  perform-capacity (drops id) t one free = ground arith
  perform-capacity (warms ids now) t one free = ground (arith, warm_running-adds ids now t)
  perform-capacity (restores envs) t one free = ground arith

  contains-stalled_entries :
      (t : WorkflowThrottle S) (threshold now : ℕ) (x : String)
      → 1 ≤ threshold
      → contains (stalled_entries q threshold now t) x
        ≡ (is_present (lookup x t.running) && ltb (get_or 0 x t.last_activity + threshold) now)
  unfolding stalled_entries lookup contains
  contains-stalled_entries t threshold now x one = elim (Bool-cases (eqb (length t.running) 0)) [
    | inl e ↦ ground (arith, e, lookup_of_empty t.running x)
    | inr e ↦ ground (arith, e, stalled_of-member t.last_activity threshold now t.running x)
  ]

  mark_stalled-frees :
      (t : WorkflowThrottle S) (now : ℕ) (x : String)
      → is_present (lookup x t.running) ≡ true
      → (length (mark_stalled q x now t).0.running < length t.running)
        × ((mark_stalled q x now t).0.stalled_total ≡ t.stalled_total + 1)
        × (is_present (lookup x (mark_stalled q x now t).0.running) ≡ false)
  unfolding mark_stalled remove_running
  mark_stalled-frees t now x here = (
    ground (arith, here, length-erase x t.running),
    ground (arith, here),
    ground (arith, here, lookup-erase x x t.running, eq_iff x x),
  )

  -- The watchdog's candidates are exactly the running workflows whose last activity is older than the
  -- threshold, which is not zero; reclaiming one frees its slot, counts it, and takes it off the
  -- candidates of any sweep at once after it.
  pub stalled_entries-reclaim :
      (t : WorkflowThrottle S) (threshold now : ℕ) (x : String)
      → 1 ≤ threshold
      → (contains (stalled_entries q threshold now t) x
          ≡ (is_present (lookup x t.running) && ltb (get_or 0 x t.last_activity + threshold) now))
        × (contains (stalled_entries q threshold now t) x ≡ true
            → (length (mark_stalled q x now t).0.running < length t.running)
              × ((mark_stalled q x now t).0.stalled_total ≡ t.stalled_total + 1)
              × ((later : ℕ)
                  → contains (stalled_entries q threshold later (mark_stalled q x now t).0) x
                    ≡ false))
  stalled_entries-reclaim t threshold now x one = (
    contains-stalled_entries t threshold now x one,
    λ c.
        let here : is_present (lookup x t.running) ≡ true =
          ground (arith, c, contains-stalled_entries t threshold now x one) in
        let (fewer, counted, gone) = mark_stalled-frees t now x here in
        (
          fewer,
          counted,
          λ later. ground (
            arith,
            gone,
            contains-stalled_entries (mark_stalled q x now t).0 threshold later x one,
          ),
        ),
  )
