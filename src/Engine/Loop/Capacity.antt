-- ===== src/Engine/Loop/Capacity.antt =====
-- internal/engine/engine.go: processDecision and drainThrottleQueue, and the throttle's limit.
use rick_driven_development.Prelude.{
  ℕ, zero, suc, ◌+◌, ◌≤◌, ◌<◌, ◌≡◌, refl, String, true, false, ◌&&◌, List, [], ◌∷◌, Option, none,
  ◌==◌, some, arith, length, length-append, if◌then◌else◌, Bool-cases, Option-cases, inl, inr, ap,
}
use rick_driven_development.Event.Envelope.{Envelope, is_workflow_started}
use rick_driven_development.Throttle.{
  QueueStore, WorkflowThrottle, should_queue, enqueue, dequeue, add_running, remove_running,
  touch_activity, remove_queued, remove_first,
}
use rick_driven_development.Throttle.Slots.{length-set, length-erase}
use rick_driven_development.Engine.Loop.{
  is_request, track_run, drop_cancelled, touch, publish_and_drain, process_with,
  drain_throttle_queue, process_decision,
}

length-remove_first :
    (id : String) (es rest : List Envelope)
    → remove_first id es ≡ some rest
    → length rest ≤ length es
unfolding remove_first
length-remove_first id [] rest h = ground arith
length-remove_first id (e ∷ es) rest h = elim (Option-cases (remove_first id es)) [
  | inl n ↦ ground (arith, n)
  | inr (found, n) ↦ ground (arith, n, length-remove_first id es found)
]

-- A decision on the event publishes at most one event, which starts a workflow only if the event
-- requests one.
abbrev pub StartsOnRequest : Envelope → List Envelope → Type 0
StartsOnRequest env [] = Unit {0}
StartsOnRequest env (e ∷ []) = is_workflow_started e.body ≡ true → is_request env.body ≡ true
StartsOnRequest env (e ∷ f ∷ es) = ⊥

module _ {S W : Type 0} (q : QueueStore S) (clock : W → ℕ)
    (step : Envelope → W → W × Option (List Envelope)) where
  -- The running workflows are within the limit m, which is at least 1.
  abbrev pub IsWithin : ℕ → WorkflowThrottle S → Type 0
  IsWithin m t = (1 ≤ m) × (t.max_concurrent ≡ m) × (length t.running ≤ m)

  abbrev pub IsStartedOnRequest : Type 0
  IsStartedOnRequest =
      (env : Envelope) (w : W) (es : List Envelope)
      → (step env w).1 ≡ some es
      → StartsOnRequest env es

  -- What an operation that starts nothing does.
  abbrev Shrinks : WorkflowThrottle S → WorkflowThrottle S → Type 0
  Shrinks t t' =
      (t'.max_concurrent ≡ t.max_concurrent)
      × (length t'.running ≤ length t.running)
      × (length t'.queued ≤ length t.queued)

  remove_running-Shrinks :
      (id : String) (t : WorkflowThrottle S) → Shrinks t (remove_running q id t).0
  unfolding remove_running
  remove_running-Shrinks id t = ground (arith, length-erase id t.running)

  remove_queued-Shrinks :
      (id : String) (t : WorkflowThrottle S) → Shrinks t (remove_queued q id t).0
  unfolding remove_queued
  remove_queued-Shrinks id t = elim (Option-cases (remove_first id t.queued)) [
    | inl n ↦ ground (arith, n)
    | inr (rest, n) ↦ ground (arith, n, length-remove_first id t.queued rest n)
  ]

  drop_cancelled-Shrinks :
      (env : Envelope) (t : WorkflowThrottle S) → Shrinks t (drop_cancelled q clock step env t)
  unfolding drop_cancelled
  drop_cancelled-Shrinks env t =
      let id = if env.correlation_id == "" then env.aggregate_id else env.correlation_id in
      ground
        (arith, remove_running-Shrinks id t, remove_queued-Shrinks id (remove_running q id t).0)

  touch-Shrinks :
      (env : Envelope) (now : ℕ) (t : WorkflowThrottle S) → Shrinks t (touch q clock step env now t)
  unfolding touch touch_activity
  touch-Shrinks env now t = ground arith

  add_running_room :
      (m now : ℕ) (id : String) (t : WorkflowThrottle S)
      → t.max_concurrent ≡ m
      → length t.running < m
      → ((add_running q id now t).max_concurrent ≡ m)
        × (length (add_running q id now t).running ≤ m)
        × (length (add_running q id now t).queued ≤ length t.queued)
  unfolding add_running
  add_running_room m now id t h l = ground (arith, length-set id tt t.running)

  should_queue_room :
      (m : ℕ) (t : WorkflowThrottle S)
      → IsWithin m t
      → should_queue q t ≡ false
      → length t.running < m
  unfolding should_queue
  should_queue_room m t h e = ground arith

  track_run-IsWithin :
      (m now : ℕ) (env : Envelope) (es : List Envelope) (t : WorkflowThrottle S)
      → StartsOnRequest env es
      → (is_request env.body ≡ true → length t.running < m)
      → IsWithin m t
      → IsWithin m (track_run q clock step now es t)
        × (length (track_run q clock step now es t).queued ≤ length t.queued)
  unfolding track_run
  track_run-IsWithin m now env [] t s room h = (h, omega arith)
  track_run-IsWithin m now env (e ∷ []) t s room h = ground (
    arith,
    s,
    room,
    h,
    add_running_room m now e.correlation_id t,
    remove_running-Shrinks e.correlation_id t,
    remove_running-Shrinks e.correlation_id (add_running q e.correlation_id now t),
  )
  track_run-IsWithin m now env (e ∷ f ∷ es) t s room h = absurd s

  -- The run ends, within the limit, with at most k workflows queued.
  abbrev pub EndsWithin : ℕ → ℕ → Option (WorkflowThrottle S × W) → Type 0
  EndsWithin m k r =
      (t : WorkflowThrottle S) × (w : W) × (r ≡ some (t, w)) × IsWithin m t × (length t.queued ≤ k)

  Drains : ℕ → ℕ → (WorkflowThrottle S × W → Option (WorkflowThrottle S × W)) → Type 0
  Drains m k drain =
      (t : WorkflowThrottle S) (w : W)
      → IsWithin m t
      → length t.queued ≤ k
      → EndsWithin m k (drain (t, w))

  process_with-EndsWithin :
      (m k : ℕ) (drain : WorkflowThrottle S × W → Option (WorkflowThrottle S × W)) (env : Envelope)
      (t : WorkflowThrottle S) (w : W)
      → IsStartedOnRequest
      → Drains m k drain
      → IsWithin m t
      → length t.queued ≤ k
      → (is_request env.body && should_queue q (touch q clock step env (clock w) t)) ≡ false
      → EndsWithin m k (process_with q clock step drain env (t, w))
  unfolding process_with publish_and_drain Drains
  process_with-EndsWithin m k drain env t w starts drains h fits free =
      rw (free, process_with) (by_step (step env w) refl)
    where
      t1 : WorkflowThrottle S
      t1 = touch q clock step env (clock w) t

      t2 : WorkflowThrottle S
      t2 = drop_cancelled q clock step env t1

      within1 : IsWithin m t1
      within1 = ground (arith, h, touch-Shrinks env (clock w) t)

      within2 : IsWithin m t2 × (length t2.queued ≤ k)
      within2 =
          ground (arith, h, fits, touch-Shrinks env (clock w) t, drop_cancelled-Shrinks env t1)

      room : is_request env.body ≡ true → length t2.running < m
      room e = omega (
        arith,
        should_queue_room m t1 within1 (ground (arith, free, e)),
        (drop_cancelled-Shrinks env t1).1,
      )

      by_step :
          (r : W × Option (List Envelope))
          → step env w ≡ r
          → EndsWithin m k (publish_and_drain q clock step drain t2 r)
      by_step (w', none) e = (t2, w', refl, within2.0, within2.1)
      by_step (w', some es) e =
          let tracked =
            track_run-IsWithin m (clock w') env es t2 (starts env w es (ap (λ r. r.1) e)) room
              within2.0 in
          drains (track_run q clock step (clock w') es t2) w' tracked.0
            (omega (arith, tracked.1, within2.1))

  room_should_queue :
      (m : ℕ) (t : WorkflowThrottle S)
      → t.max_concurrent ≡ m
      → length t.running < m
      → should_queue q t ≡ false
  unfolding should_queue
  room_should_queue m t h l = ground arith

  dequeue_of :
      (t : WorkflowThrottle S) (x : Envelope) (es : List Envelope)
      → t.queued ≡ x ∷ es
      → ((dequeue q t).1 ≡ some x)
        × ((dequeue q t).0.queued ≡ es)
        × ((dequeue q t).0.running ≡ t.running)
        × ((dequeue q t).0.max_concurrent ≡ t.max_concurrent)
  unfolding dequeue
  dequeue_of t x es e = ground (arith, e)

  dequeue_of_empty : (t : WorkflowThrottle S) → t.queued ≡ [] → (dequeue q t).1 ≡ none
  unfolding dequeue
  dequeue_of_empty t e = ground (arith, e)

  drain-EndsWithin :
      (m n k : ℕ) (t : WorkflowThrottle S) (w : W)
      → IsStartedOnRequest
      → k < n
      → IsWithin m t
      → length t.queued ≤ k
      → EndsWithin m k (drain_throttle_queue q clock step n (t, w))
  unfolding drain_throttle_queue Drains
  drain-EndsWithin m zero k t w starts fuel h fits = absurd (omega arith)
  drain-EndsWithin m (suc n) k t w starts fuel h fits = elim (Bool-cases (should_queue q t)) [
    | inl full ↦ rw (full, drain_throttle_queue) (t, w, refl, h, fits)
    | inr free ↦
        by_queue (λ j u v l g b. drain-EndsWithin m n j u v starts l g b) free k fuel fits t.queued
          refl
  ]
    where
      by_queue :
          ((j : ℕ) (u : WorkflowThrottle S) (v : W)
            → j < n
            → IsWithin m u
            → length u.queued ≤ j
            → EndsWithin m j (drain_throttle_queue q clock step n (u, v)))
          → should_queue q t ≡ false
          → (k : ℕ) → k < suc n
          → length t.queued ≤ k
          → (es : List Envelope) → t.queued ≡ es
          → EndsWithin m k (drain_throttle_queue q clock step (suc n) (t, w))
      by_queue again free k fuel fits [] e =
          rw (free, dequeue_of_empty t e, drain_throttle_queue) (t, w, refl, h, fits)
      by_queue again free zero fuel fits (x ∷ es) e = absurd (ground (arith, e))
      by_queue again free (suc k) fuel fits (x ∷ es) e =
          let (front, rest, same, limit) = dequeue_of t x es e in
          let t1 = (dequeue q t).0 in
          let within1 : IsWithin m t1 = ground (arith, h, same, limit) in
          let fits1 : length t1.queued ≤ k = ground (arith, rest, e) in
          let unparked : should_queue q (touch q clock step x (clock w) t1) ≡ false =
            room_should_queue m (touch q clock step x (clock w) t1)
              (ground (arith, within1, touch-Shrinks x (clock w) t1))
              (ground (arith, same, should_queue_room m t h free, touch-Shrinks x (clock w) t1)) in
          let (t2, w2, done, within2, fits2) =
            process_with-EndsWithin m k (drain_throttle_queue q clock step n) x t1 w starts
              (λ u v g l. again k u v (omega arith) g l) within1 fits1 (ground (arith, unparked)) in
          let (t3, w3, ended, within3, fits3) = again k t2 w2 (omega arith) within2 fits2 in
          (
            t3,
            w3,
            rw (free, front, done, drain_throttle_queue) ended,
            within3,
            omega (arith, fits3),
          )

  -- Where the step publishes at most one event for an event it decides on, and starts a workflow only
  -- on a request, processing an event ends with fuel for one more round than the queue has events. It
  -- keeps the running workflows within the limit, and parks at most one more workflow.
  pub process_decision-EndsWithin :
      (m fuel : ℕ) (env : Envelope) (t : WorkflowThrottle S) (w : W)
      → IsStartedOnRequest
      → length t.queued < fuel
      → IsWithin m t
      → EndsWithin m (length t.queued + 1) (process_decision q clock step fuel env (t, w))
  unfolding process_decision process_with enqueue Drains
  process_decision-EndsWithin m fuel env t w starts enough h =
      elim (Bool-cases (is_request env.body && should_queue q t1)) [
        | inl parked ↦ (enqueue q env t1, w, queues parked, grown.0, grown.1)
        | inr free ↦
            let (t2, w2, ended, within2, fits2) =
              process_with-EndsWithin m (length t.queued) (drain_throttle_queue q clock step fuel)
                env t w starts
                (λ u v g l. drain-EndsWithin m fuel (length t.queued) u v starts enough g l) h
                (omega arith) free in
            (t2, w2, ended, within2, omega (arith, fits2))
      ]
    where
      t1 : WorkflowThrottle S
      t1 = touch q clock step env (clock w) t

      queues :
          (is_request env.body && should_queue q t1) ≡ true
          → process_with q clock step (drain_throttle_queue q clock step fuel) env (t, w)
            ≡ some (enqueue q env t1, w)
      queues parked = rw (parked, process_with) refl

      grown :
          IsWithin m (enqueue q env t1) × (length (enqueue q env t1).queued ≤ length t.queued + 1)
      grown = ground (arith, h, touch-Shrinks env (clock w) t, length-append t1.queued (env ∷ []))
