-- ===== src/Examples/Parking.antt =====
-- The theorems on the throttle, applied to a limit of two.
use rick_driven_development.Prelude.{
  ℕ, ◌≡◌, ◌≤◌, ◌<◌, refl, String, true, false, List, [], ◌∷◌, some, none, arith, length, contains,
  Option, ap, subst, ◌+◌,
}
use rick_driven_development.Prelude.Dict.{is_present, lookup, get_or}
use rick_driven_development.Event.Envelope.{Envelope, Body, workflow_requested, workflow_started}
use rick_driven_development.Throttle.{
  QueueStore, WorkflowThrottle, should_queue, add_running, stalled_entries, mark_stalled,
}
use rick_driven_development.Throttle.Slots.{
  adds, warms, perform, IsTracked, perform-IsTracked, perform-capacity, stalled_entries-reclaim,
}
use rick_driven_development.Throttle.Table.{QueueTable, load_queued_workflows, sqlite_queue}
use rick_driven_development.Throttle.Backlog.{IsDistinct, IsMirrored}
use rick_driven_development.Throttle.Backlog.History.{
  QueueOp, parks, takes, removes, all_on_throttle, all_on_throttle-IsMirrored,
}
use rick_driven_development.Engine.Loop.{is_request, process_decision}
use rick_driven_development.Engine.Loop.Capacity.{
  StartsOnRequest, IsStartedOnRequest, EndsWithin, process_decision-EndsWithin,
}
use rick_driven_development.Examples.Data.{arrives}

abbrev table : QueueStore (List Envelope)
table = sqlite_queue

abbrev request_of : String → Envelope
request_of id = record (arrives (workflow_requested none)) { aggregate_id = id }

abbrev busy : WorkflowThrottle (List Envelope)
busy = record {
  max_concurrent = 2;
  running = ("wf-1", tt) ∷ [];
  last_activity = ("wf-1", 100) ∷ [];
  queued = request_of "wf-3" ∷ request_of "wf-4" ∷ [];
  store = some (request_of "wf-3" ∷ request_of "wf-4" ∷ []);
  stalled_total = 0;
}

busy-IsTracked : IsTracked table busy
unfolding lookup
busy-IsTracked x = ground arith

perform-IsTracked_example :
    let t = perform table (warms ("wf-2" ∷ "wf-6" ∷ []) 150) busy in
    is_present (lookup "wf-2" t.last_activity) ≡ is_present (lookup "wf-2" t.running)
perform-IsTracked_example =
    perform-IsTracked table (warms ("wf-2" ∷ "wf-6" ∷ []) 150) busy busy-IsTracked "wf-2"

perform-capacity_example :
    ((perform table (adds "wf-2" 150) busy).max_concurrent ≡ 2)
    × (length (perform table (adds "wf-2" 150) busy).running ≤ 2)
unfolding should_queue add_running
perform-capacity_example =
    perform-capacity table (adds "wf-2" 150) busy (omega arith) (λ id now e. refl)

stalled_entries-reclaim_example :
    (contains (stalled_entries table 30 200 busy) "wf-1" ≡ true)
    × (contains (stalled_entries table 30 200 busy) "wf-1" ≡ true
        → (length (mark_stalled table "wf-1" 200 busy).0.running < 1)
          × ((mark_stalled table "wf-1" 200 busy).0.stalled_total ≡ 1)
          × ((later : ℕ)
              → contains
                  (stalled_entries table 30 later (mark_stalled table "wf-1" 200 busy).0)
                  "wf-1"
                ≡ false))
unfolding lookup get_or
stalled_entries-reclaim_example = stalled_entries-reclaim table busy 30 200 "wf-1" (omega arith)

busy-IsMirrored : IsMirrored busy
unfolding contains
busy-IsMirrored = ((refl, (refl, tt)), refl)

abbrev day : List QueueOp
day = parks (request_of "wf-5") ∷ takes ∷ removes "wf-4" ∷ []

all_on_throttle-IsMirrored_example :
    let t' = all_on_throttle day busy in
    (t'.queued ≡ request_of "wf-5" ∷ [])
    × IsDistinct t'.queued
    × ((db : QueueTable) × (t'.store ≡ some db) × (load_queued_workflows db ≡ t'.queued))
unfolding contains
all_on_throttle-IsMirrored_example =
    all_on_throttle-IsMirrored day busy ((refl, (omega arith, (omega arith, tt))), (tt, (tt, tt)))
      busy-IsMirrored

-- A step that starts each requested workflow, and publishes nothing else.
abbrev start_of : Body → Envelope → List Envelope
start_of (workflow_requested j) env =
    record env { body = workflow_started none none; correlation_id = env.aggregate_id } ∷ []
start_of _ env = []

abbrev starting : Envelope → ℕ → ℕ × Option (List Envelope)
starting env now = (now + 1, some (start_of env.body env))

start_of-StartsOnRequest :
    (b : Body) (env : Envelope) → env.body ≡ b → StartsOnRequest env (start_of b env)
start_of-StartsOnRequest (workflow_requested j) env e = λ h. ap is_request e
start_of-StartsOnRequest _ env e = tt

starting-IsStartedOnRequest : IsStartedOnRequest table (λ now. now) starting
starting-IsStartedOnRequest env w es e =
    let same : start_of env.body env ≡ es = ground (arith, e) in
    subst (StartsOnRequest env) same (start_of-StartsOnRequest env.body env refl)

process_decision-EndsWithin_example :
    EndsWithin table
      (λ now. now)
      starting
      2
      3
      (process_decision table (λ now. now) starting 3 (request_of "wf-2") (busy, 200))
process_decision-EndsWithin_example =
    process_decision-EndsWithin table (λ now. now) starting 2 3 (request_of "wf-2") busy 200
      starting-IsStartedOnRequest (omega arith) (omega arith, refl, omega arith)
