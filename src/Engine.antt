-- ===== src/Engine.antt =====
-- internal/engine/engine.go: one load, track, decide and append of an event, and
-- internal/eventstore/sqlite.go: Append on the table of events. A database error other than a conflict,
-- which leaves the table as it was, is left out, and a row keeps its event as it is.
pub mod Numbering
pub mod Storage
pub mod Loop
use rick_driven_development.Prelude.{
  ℕ, ◌+◌, suc, String, Bool, false, true, not, ◌&&◌, ◌||◌, List, [], ◌∷◌, ◌++◌, Option, none, some,
  ◌==◌, eqb, length, if◌then◌else◌,
}
use Prim.Native.Nat.{max}
use rick_driven_development.Event.Payload.{
  PersonaCompletedPayload, PersonaFailedPayload, VerdictPayload,
}
use rick_driven_development.Event.Envelope.{
  Envelope, Body, Json, Stamp, new, with_aggregate, with_causation, with_correlation, with_source,
  workflow_cancelled, workflow_paused, workflow_resumed, workflow_retried, persona_completed,
  persona_tracked, persona_failed, persona_failed_tracked, verdict_rendered, verdict_tracked,
  hint_emitted, hint_rejected,
}
use rick_driven_development.Aggregate.Runtime.{Runtime, Outcome, done, panic}
use rick_driven_development.Aggregate.State.{
  WorkflowAggregate, is_running, has_completed, is_stale_after_feedback, is_required_persona,
}
use rick_driven_development.Aggregate.Apply.{apply_all}
use rick_driven_development.Aggregate.Decide.Resume.{Decided}
use rick_driven_development.Aggregate.Decide.{decide}

-- The event types whose events carry the workflow's id as their correlation.
abbrev pub correlates : Body → Bool
correlates (persona_completed _) = true
correlates (persona_failed _) = true
correlates (verdict_rendered _) = true
correlates (workflow_cancelled _) = true
correlates (workflow_paused _) = true
correlates (workflow_resumed _) = true
correlates (workflow_retried _) = true
correlates (hint_emitted _) = true
correlates (hint_rejected _) = true
correlates _ = false

unfoldable pub resolve_workflow_aggregate_id : Envelope → String
resolve_workflow_aggregate_id env =
    if correlates env.body && not (env.correlation_id == "")
    then env.correlation_id
    else env.aggregate_id

-- An event that the engine keeps on the workflow's aggregate and does not publish.
unfoldable pub mirror : Stamp → WorkflowAggregate → Envelope → ℕ → Body → Envelope
mirror s w env version body = with_source "engine:tracking" (
    with_correlation env.correlation_id
      (with_causation env.id (with_aggregate w.id version (new s body 1))))

-- What is tracked before the decision.
unfoldable pub track_before : Stamp → WorkflowAggregate → Envelope → Body → List Envelope
track_before s w env (persona_completed (some p)) =
    if not (has_completed w p.persona) && not (is_stale_after_feedback w p.persona)
    then mirror s w env (w.version + 1) (persona_tracked (some p)) ∷ []
    else []
track_before s w env (persona_failed (some p)) =
    if is_running w.status && is_required_persona w p.persona
    then mirror s w env (w.version + 1) (persona_failed_tracked (some p)) ∷ []
    else []
track_before s w env _ = []

-- What is tracked after the decision, which emitted `n` events.
unfoldable pub track_after : Stamp → WorkflowAggregate → Envelope → ℕ → Body → List Envelope
track_after s w env n (verdict_rendered j) =
    mirror s w env (w.version + n + 1) (verdict_tracked j) ∷ []
track_after s w env n _ = []

-- The events to append, and those of them to publish.
pub record Step : Type 0 where
  pub appended : List Envelope
  pub published : List Envelope

abbrev pub finish_step : Stamp → Bool → Envelope → List Envelope → Outcome Decided → Outcome Step
finish_step s elsewhere env before panic = panic
finish_step s elsewhere env before (done r) = done (record {
  appended =
      before
      ++ (r.events
          ++ (if elsewhere then track_after s r.state env (length r.events) env.body else []));
  published = r.events;
})

-- tryProcessDecision up to its Append, on the aggregate that was loaded. `before_stamp` and
-- `after_stamp` are those of the mirrored events.
unfoldable pub try_process_decision :
    Runtime → Stamp → Stamp → Stamp → WorkflowAggregate → String → Envelope → Outcome Step
try_process_decision rt before_stamp s after_stamp w agg_id env =
    let elsewhere = not (agg_id == env.aggregate_id) in
    let before = if elsewhere then track_before before_stamp w env env.body else [] in
    finish_step after_stamp elsewhere env before (decide rt s (apply_all rt w before) env)

-- SELECT COALESCE(MAX(version), 0) …
unfoldable pub current_version : List Envelope → ℕ
current_version [] = 0
current_version (e ∷ es) = max e.version (current_version es)

-- The rows that the loop inserts: each takes the aggregate's id and the next version.
unfoldable pub rows_of : String → ℕ → List Envelope → List Envelope
rows_of agg_id expected [] = []
rows_of agg_id expected (e ∷ es) =
    record e { aggregate_id = agg_id; version = expected + 1 } ∷ rows_of agg_id (expected + 1) es

-- SELECT … WHERE aggregate_id = ?
unfoldable pub rows_in : String → List Envelope → List Envelope
rows_in agg_id [] = []
rows_in agg_id (e ∷ es) =
    let rest = rows_in agg_id es in if e.aggregate_id == agg_id then e ∷ rest else rest

-- id TEXT PRIMARY KEY, UNIQUE(aggregate_id, version)
unfoldable pub violates_unique : Envelope → List Envelope → Bool
violates_unique row [] = false
violates_unique row (e ∷ es) =
    e.id == row.id
    || (e.aggregate_id == row.aggregate_id && eqb e.version row.version)
    || violates_unique row es

-- The table of events after a commit, a version that is not the expected one, or a row that repeats an
-- id or a version; in the last two nothing is stored.
pub data Appended : Type 0 where
  committed : List Envelope → Appended
  conflict : ℕ → ℕ → Appended
  already_exists : ℕ → Appended

-- The loop of the transaction, over the table with what it has inserted so far.
unfoldable pub insert_rows : List Envelope → List Envelope → Appended
unfolding violates_unique
insert_rows [] table = committed table
insert_rows (row ∷ rows) table =
    let rest = insert_rows rows (table ++ row ∷ []) in
    if violates_unique row table then already_exists row.version else rest

-- Append to the table of all events.
unfoldable pub append : String → ℕ → List Envelope → List Envelope → Appended
unfolding current_version rows_of rows_in insert_rows
append agg_id expected [] table = committed table
append agg_id expected (e ∷ es) table =
    let current = current_version (rows_in agg_id table) in
    if not (eqb current expected)
    then conflict expected current
    else insert_rows (rows_of agg_id expected (e ∷ es)) table
