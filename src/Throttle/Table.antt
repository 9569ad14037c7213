-- ===== src/Throttle/Table.antt =====
-- internal/eventstore/sqlite.go: the table workflow_queue. A row is its event, whose aggregate and time are
-- the columns aggregate_id and enqueued_at, and the rows stand in the order of enqueued_at; rows of the
-- same time stand as they were inserted, which SQLite does for the index on that column. Every call
-- succeeds; DequeueWorkflow, which the throttle does not call, is not modelled.
use rick_driven_development.Prelude.{String, List, [], ◌∷◌, ltb, ◌==◌, contains, if◌then◌else◌}
use rick_driven_development.Event.Envelope.{Envelope}
use rick_driven_development.Throttle.{QueueStore}

abbrev pub QueueTable : Type 0
QueueTable = List Envelope

abbrev pub ids : QueueTable → List String
ids [] = []
ids (e ∷ es) = e.aggregate_id ∷ ids es

-- ORDER BY enqueued_at
unfoldable pub insert_row : Envelope → QueueTable → QueueTable
insert_row e [] = e ∷ []
insert_row e (x ∷ rows) =
    let rest = insert_row e rows in if ltb e.timestamp x.timestamp then e ∷ x ∷ rows else x ∷ rest

-- INSERT OR IGNORE, by the primary key aggregate_id
unfoldable pub enqueue_workflow : Envelope → QueueTable → QueueTable
unfolding insert_row contains
enqueue_workflow e rows = if contains (ids rows) e.aggregate_id then rows else insert_row e rows

-- DELETE FROM workflow_queue WHERE aggregate_id = ?
abbrev pub without : String → QueueTable → QueueTable
without id [] = []
without id (e ∷ es) = let rest = without id es in if e.aggregate_id == id then rest else e ∷ rest

abbrev pub load_queued_workflows : QueueTable → List Envelope
load_queued_workflows rows = rows

unfoldable pub sqlite_queue : QueueStore QueueTable
unfolding enqueue_workflow
sqlite_queue = record {
  enqueue_workflow = enqueue_workflow;
  delete_queued_workflow = without;
  load_queued_workflows = load_queued_workflows;
}
