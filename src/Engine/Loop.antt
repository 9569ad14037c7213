-- ===== src/Engine/Loop.antt =====
-- internal/engine/engine.go: processDecision and drainThrottleQueue over the throttle, for an engine
-- that has one. The world W is what they share with the outside, the store, the bus and the clock;
-- `step` is tryProcessDecision on it, which gives the events to publish, or none for an error. An error
-- of a queued workflow is only logged.
pub mod Capacity
pub mod Starts
use rick_driven_development.Prelude.{
  ℕ, zero, suc, String, Bool, false, true, not, ◌&&◌, ◌||◌, List, [], ◌∷◌, Option, none, some, ◌==◌,
  if◌then◌else◌,
}
use rick_driven_development.Event.Envelope.{
  Envelope, Body, is_workflow_started, workflow_requested, workflow_cancelled, workflow_completed,
  workflow_failed,
}
use rick_driven_development.Throttle.{
  QueueStore, WorkflowThrottle, should_queue, enqueue, dequeue, add_running, remove_running,
  touch_activity, remove_queued,
}

abbrev pub is_request : Body → Bool
is_request (workflow_requested j) = true
is_request _ = false

abbrev pub is_cancellation : Body → Bool
is_cancellation (workflow_cancelled j) = true
is_cancellation _ = false

-- ne.Type == event.WorkflowCompleted || ne.Type == event.WorkflowFailed
abbrev pub ends_run : Body → Bool
ends_run (workflow_completed j) = true
ends_run (workflow_failed j) = true
ends_run _ = false

module _ {S W : Type 0} (q : QueueStore S) (clock : W → ℕ)
    (step : Envelope → W → W × Option (List Envelope)) where
  -- The throttle's bookkeeping for the events to publish.
  unfoldable pub track_run : ℕ → List Envelope → WorkflowThrottle S → WorkflowThrottle S
  track_run now [] t = t
  track_run now (e ∷ es) t =
      let t1 = if is_workflow_started e.body then add_running q e.correlation_id now t else t in
      let t2 = if ends_run e.body then (remove_running q e.correlation_id t1).0 else t1 in
      track_run now es t2

  unfoldable pub drop_cancelled : Envelope → WorkflowThrottle S → WorkflowThrottle S
  drop_cancelled env t =
      let id = if env.correlation_id == "" then env.aggregate_id else env.correlation_id in
      if is_cancellation env.body then (remove_queued q id (remove_running q id t).0).0 else t

  unfoldable pub touch : Envelope → ℕ → WorkflowThrottle S → WorkflowThrottle S
  touch env now t =
      if env.correlation_id == "" then t else touch_activity q env.correlation_id now t

  -- What follows the decision: an error ends the call, otherwise the queue is drained.
  unfoldable pub publish_and_drain :
      (WorkflowThrottle S × W → Option (WorkflowThrottle S × W))
      → WorkflowThrottle S
      → W × Option (List Envelope)
      → Option (WorkflowThrottle S × W)
  unfolding track_run
  publish_and_drain drain t (w, none) = some (t, w)
  publish_and_drain drain t (w, some es) = drain (track_run (clock w) es t, w)

  unfoldable pub process_with :
      (WorkflowThrottle S × W → Option (WorkflowThrottle S × W))
      → Envelope
      → WorkflowThrottle S × W
      → Option (WorkflowThrottle S × W)
  process_with drain env (t, w) =
      let t1 = touch env (clock w) t in
      elim (is_request env.body && should_queue q t1) [
        | true ↦ some (enqueue q env t1, w)
        | false ↦ publish_and_drain drain (drop_cancelled env t1) (step env w)
      ]

  abbrev pub and_then :
      (WorkflowThrottle S × W → Option (WorkflowThrottle S × W))
      → Option (WorkflowThrottle S × W)
      → Option (WorkflowThrottle S × W)
  and_then f none = none
  and_then f (some x) = f x

  -- `none` means that the fuel ran out.
  unfoldable pub drain_throttle_queue : ℕ → WorkflowThrottle S × W → Option (WorkflowThrottle S × W)
  drain_throttle_queue zero st = none
  drain_throttle_queue (suc n) (t, w) = elim (should_queue q t) [
    | true ↦ some (t, w)
    | false ↦ elim (dequeue q t).1 [
      | none ↦ some (t, w)
      | some next ↦
          and_then (drain_throttle_queue n)
            (process_with (drain_throttle_queue n) next ((dequeue q t).0, w))
    ]
  ]

  -- Each round of the drain takes one event off the queue, and none is put back: twice the queue and
  -- one is enough.
  unfoldable pub process_decision :
      ℕ → Envelope → WorkflowThrottle S × W → Option (WorkflowThrottle S × W)
  process_decision fuel env st = process_with (drain_throttle_queue fuel) env st
