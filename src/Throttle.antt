-- ===== src/Throttle.antt =====
-- internal/engine/throttle.go: the limit on how many workflows run at once. Times are nanoseconds since
-- Go's zero time, which a missing map entry reads as; a limit below 1 is written 0. The clock does not
-- run backwards, so a silence is a difference on ℕ. Log lines are left out.
pub mod Slots
pub mod Table
pub mod Backlog
use rick_driven_development.Prelude.{
  ℕ, ◌+◌, ◌-◌, String, Bool, false, true, List, [], ◌∷◌, ◌++◌, Option, none, some, ◌==◌, ltb, leb,
  eqb, length, if◌then◌else◌, ◌||◌, not,
}
use rick_driven_development.Prelude.Dict.{Dict, lookup, set, erase, get_or, is_present}
use rick_driven_development.Event.Envelope.{Envelope}

-- The interface eventstore.WorkflowQueueStore on a database of type S, less DequeueWorkflow, which the
-- throttle does not call. A call that fails leaves the database as it was; its caller only logs that.
pub record QueueStore (S : Type 0) : Type 0 where
  pub enqueue_workflow : Envelope → S → S
  pub delete_queued_workflow : String → S → S
  pub load_queued_workflows : S → List Envelope

pub record WorkflowThrottle (S : Type 0) : Type 0 where
  pub max_concurrent : ℕ
  pub running : Dict (Unit {0})
  pub last_activity : Dict ℕ
  pub queued : List Envelope
  pub store : Option S
  pub stalled_total : ℕ

abbrev pub on_store {ℓ} : {S : Type ℓ} → (S → S) → Option S → Option S
on_store f none = none
on_store f (some db) = some (f db)

-- now.Sub(last), or 0 where there is no last activity
abbrev pub silence_since : ℕ → Option ℕ → ℕ
silence_since now none = 0
silence_since now (some last) = now - last

-- The first event of the aggregate leaves the queue; none says that there is no such event.
unfoldable pub remove_first : String → List Envelope → Option (List Envelope)
remove_first id [] = none
remove_first id (e ∷ es) =
    let rest = remove_first id es in
    if e.aggregate_id == id
    then some es
    else elim rest [ none ↦ none | some found ↦ some (e ∷ found) ]

-- for id := range t.running { if t.lastActivity[id].Before(cutoff) { … } }
unfoldable pub stalled_of : Dict ℕ → ℕ → ℕ → Dict (Unit {0}) → List String
unfolding get_or
stalled_of last threshold now [] = []
stalled_of last threshold now ((id, u) ∷ ids) =
    let rest = stalled_of last threshold now ids in
    if ltb (get_or 0 id last + threshold) now then id ∷ rest else rest

module _ {S : Type 0} (q : QueueStore S) where
  unfoldable pub new_workflow_throttle : ℕ → Option S → WorkflowThrottle S
  new_workflow_throttle max_concurrent store = record {
    max_concurrent = max_concurrent;
    running = [];
    last_activity = [];
    queued = [];
    store = store;
    stalled_total = 0;
  }

  unfoldable pub should_queue : WorkflowThrottle S → Bool
  should_queue t = if eqb t.max_concurrent 0 then false else leb t.max_concurrent (length t.running)

  unfoldable pub enqueue : Envelope → WorkflowThrottle S → WorkflowThrottle S
  enqueue env t = record t {
    store = on_store (q.enqueue_workflow env) t.store;
    queued = t.queued ++ env ∷ [];
  }

  unfoldable pub dequeue : WorkflowThrottle S → WorkflowThrottle S × Option Envelope
  dequeue t = elim t.queued [
    | [] ↦ (t, none)
    | env ∷ rest ↦ (
      record t {
        store = on_store (q.delete_queued_workflow env.aggregate_id) t.store;
        queued = rest;
      },
      some env,
    )
  ]

  unfoldable pub add_running : String → ℕ → WorkflowThrottle S → WorkflowThrottle S
  unfolding set
  add_running id now t = record t {
    running = set id tt t.running;
    last_activity = set id now t.last_activity;
  }

  unfoldable pub remove_running : String → WorkflowThrottle S → WorkflowThrottle S × Bool
  unfolding lookup erase
  remove_running id t =
      let freed = is_present (lookup id t.running) in
      (
        (if freed
            then record t { running = erase id t.running; last_activity = erase id t.last_activity }
            else t),
        freed,
      )

  unfoldable pub touch_activity : String → ℕ → WorkflowThrottle S → WorkflowThrottle S
  unfolding lookup set
  touch_activity id now t =
      if not (is_present (lookup id t.running))
      then t
      else record t { last_activity = set id now t.last_activity }

  unfoldable pub stalled_entries : ℕ → ℕ → WorkflowThrottle S → List String
  unfolding stalled_of
  stalled_entries threshold now t =
      if eqb threshold 0 || eqb (length t.running) 0
      then []
      else stalled_of t.last_activity threshold now t.running

  unfoldable pub mark_stalled : String → ℕ → WorkflowThrottle S → WorkflowThrottle S × ℕ
  unfolding lookup remove_running
  mark_stalled id now t =
      let (t', freed) = remove_running id t in
      (
        (if freed then record t' { stalled_total = t'.stalled_total + 1 } else t'),
        silence_since now (lookup id t.last_activity),
      )

  unfoldable pub remove_queued : String → WorkflowThrottle S → WorkflowThrottle S × Bool
  unfolding remove_first
  remove_queued id t =
      let t' = record t { store = on_store (q.delete_queued_workflow id) t.store } in
      elim (remove_first id t.queued) [
        | none ↦ (t', false)
        | some rest ↦ (record t' { queued = rest }, true)
      ]

  unfoldable pub warm_running : List String → ℕ → WorkflowThrottle S → WorkflowThrottle S
  unfolding set
  warm_running [] now t = t
  warm_running (id ∷ ids) now t =
      warm_running ids now
        (record t { running = set id tt t.running; last_activity = set id now t.last_activity })

  unfoldable pub warm_queued : List Envelope → WorkflowThrottle S → WorkflowThrottle S
  warm_queued envs t = record t { queued = envs }

  unfoldable pub enabled : WorkflowThrottle S → Bool
  enabled t = ltb 0 t.max_concurrent
