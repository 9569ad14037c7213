-- ===== src/Throttle/Backlog/History.antt =====
-- internal/engine/throttle.go and internal/eventstore/sqlite.go: whole histories of operations on the queue
-- of parked workflows.
use rick_driven_development.Prelude.{
  ◌≡◌, refl, ap, ◌∙◌, sym, subst, String, false, List, [], ◌∷◌, ◌++◌, some, arith, contains,
}
use rick_driven_development.Event.Envelope.{Envelope}
use rick_driven_development.Throttle.{WorkflowThrottle, enqueue, dequeue, remove_queued}
use rick_driven_development.Throttle.Table.{
  QueueTable, ids, without, load_queued_workflows, sqlite_queue,
}
use rick_driven_development.Throttle.Backlog.{
  IsDistinct, AreNoLater, IsMirrored, enqueue-IsMirrored, dequeue-IsMirrored,
  remove_queued-IsMirrored,
}

pub data QueueOp : Type 0 where
  parks : Envelope → QueueOp
  takes : QueueOp
  removes : String → QueueOp

-- The list that an operation makes of a list.
abbrev pub on_list : QueueOp → List Envelope → List Envelope
on_list (parks e) es = es ++ e ∷ []
on_list takes [] = []
on_list takes (e ∷ es) = es
on_list (removes id) es = without id es

abbrev pub all_on_list : List QueueOp → List Envelope → List Envelope
all_on_list [] es = es
all_on_list (op ∷ ops) es = all_on_list ops (on_list op es)

-- No aggregate is parked while it is parked already, nor with an earlier time than one that is.
abbrev pub IsFresh : QueueOp → List Envelope → Type 0
IsFresh (parks e) es = (contains (ids es) e.aggregate_id ≡ false) × AreNoLater e es
IsFresh _ es = Unit {0}

abbrev pub AreFresh : List QueueOp → List Envelope → Type 0
AreFresh [] es = Unit {0}
AreFresh (op ∷ ops) es = IsFresh op es × AreFresh ops (on_list op es)

abbrev pub on_throttle : QueueOp → WorkflowThrottle QueueTable → WorkflowThrottle QueueTable
on_throttle (parks e) t = enqueue sqlite_queue e t
on_throttle takes t = (dequeue sqlite_queue t).0
on_throttle (removes id) t = (remove_queued sqlite_queue id t).0

abbrev pub all_on_throttle :
    List QueueOp → WorkflowThrottle QueueTable → WorkflowThrottle QueueTable
all_on_throttle [] t = t
all_on_throttle (op ∷ ops) t = all_on_throttle ops (on_throttle op t)

enqueue-list :
    (e : Envelope) (t : WorkflowThrottle QueueTable)
    → (enqueue sqlite_queue e t).queued ≡ t.queued ++ e ∷ []
unfolding enqueue
enqueue-list e t = refl

dequeue-list :
    (t : WorkflowThrottle QueueTable) → (dequeue sqlite_queue t).0.queued ≡ on_list takes t.queued
unfolding dequeue
dequeue-list t = ground arith

on_throttle-IsMirrored :
    (op : QueueOp) (t : WorkflowThrottle QueueTable)
    → IsFresh op t.queued
    → IsMirrored t
    → ((on_throttle op t).queued ≡ on_list op t.queued) × IsMirrored (on_throttle op t)
on_throttle-IsMirrored (parks e) t (fresh, last) h =
    (enqueue-list e t, enqueue-IsMirrored t e fresh last h)
on_throttle-IsMirrored takes t fresh h = (dequeue-list t, (dequeue-IsMirrored t h).1)
on_throttle-IsMirrored (removes id) t fresh h = remove_queued-IsMirrored t id h

-- After any history of parking, taking off and removing, from a queue that the table mirrors, the queue in
-- memory is the list that the history makes of the first one, first in, first out, and loading the table
-- gives the same list, in the same order. No aggregate is parked while it is parked already, none has an
-- earlier time than one that is parked, and every call of the database succeeds.
pub all_on_throttle-IsMirrored :
    (ops : List QueueOp) (t : WorkflowThrottle QueueTable)
    → AreFresh ops t.queued
    → IsMirrored t
    → let t' = all_on_throttle ops t in
      (t'.queued ≡ all_on_list ops t.queued)
      × IsDistinct t'.queued
      × ((db : QueueTable) × (t'.store ≡ some db) × (load_queued_workflows db ≡ t'.queued))
all_on_throttle-IsMirrored [] t fresh (d, same) = (refl, d, (t.queued, same, refl))
all_on_throttle-IsMirrored (op ∷ ops) t fresh h =
    let (same, next) = on_throttle-IsMirrored op t fresh.0 h in
    let (list, distinct, mirrored) =
      all_on_throttle-IsMirrored ops (on_throttle op t) (subst (AreFresh ops) (sym same) fresh.1)
        next in
    (list ∙ ap (all_on_list ops) same, distinct, mirrored)
