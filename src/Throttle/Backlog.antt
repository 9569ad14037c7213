-- ===== src/Throttle/Backlog.antt =====
-- internal/engine/throttle.go and internal/eventstore/sqlite.go: single operations on the queue of parked
-- workflows, in memory and in its table.
pub mod History
use rick_driven_development.Prelude.{
  ℕ, ◌≤◌, ltb, ◌≡◌, refl, ap, sym, ◌∙◌, subst, eq_refl, String, false, List, [], ◌∷◌, ◌++◌, Option,
  none, some, arith, ◌==◌, eq_iff, contains, contains-append, if◌then◌else◌, Bool-cases, inl, inr,
}
use rick_driven_development.Event.Envelope.{Envelope}
use rick_driven_development.Throttle.{
  WorkflowThrottle, on_store, remove_first, enqueue, dequeue, remove_queued,
}
use rick_driven_development.Throttle.Table.{
  QueueTable, ids, without, insert_row, enqueue_workflow, sqlite_queue,
}

-- None of the events is later than `e`.
abbrev pub AreNoLater : Envelope → List Envelope → Type 0
AreNoLater e [] = Unit {0}
AreNoLater e (x ∷ es) = (x.timestamp ≤ e.timestamp) × AreNoLater e es

insert_row-last :
    (e : Envelope) (rows : List Envelope) → AreNoLater e rows → insert_row e rows ≡ rows ++ e ∷ []
unfolding insert_row
insert_row-last e [] h = refl
insert_row-last e (x ∷ rows) h = ground (arith, h.0, insert_row-last e rows h.1)

-- No aggregate is parked twice.
abbrev pub IsDistinct : List Envelope → Type 0
IsDistinct [] = Unit {0}
IsDistinct (e ∷ es) = (contains (ids es) e.aggregate_id ≡ false) × IsDistinct es

ids-append : (xs ys : List Envelope) → ids (xs ++ ys) ≡ ids xs ++ ids ys
ids-append [] ys = refl
ids-append (x ∷ xs) ys = ap (λ l. x.aggregate_id ∷ l) (ids-append xs ys)

without-fresh :
    (id : String) (es : List Envelope) → contains (ids es) id ≡ false → without id es ≡ es
unfolding contains
without-fresh id [] h = refl
without-fresh id (e ∷ es) h = ground (arith, without-fresh id es)

without-keeps :
    (id x : String) (es : List Envelope)
    → contains (ids es) x ≡ false
    → contains (ids (without id es)) x ≡ false
unfolding contains
without-keeps id x [] h = refl
without-keeps id x (e ∷ es) h = ground (arith, without-keeps id x es)

without-IsDistinct : (id : String) (es : List Envelope) → IsDistinct es → IsDistinct (without id es)
without-IsDistinct id [] h = tt
without-IsDistinct id (e ∷ es) h = elim (Bool-cases (e.aggregate_id == id)) [
  | inl hit ↦ rw hit (without-IsDistinct id es h.1)
  | inr miss ↦ rw miss (without-keeps id e.aggregate_id es h.0, without-IsDistinct id es h.1)
]

append-IsDistinct :
    (e : Envelope) (es : List Envelope)
    → contains (ids es) e.aggregate_id ≡ false
    → IsDistinct es
    → IsDistinct (es ++ e ∷ [])
unfolding contains
append-IsDistinct e [] h d = (refl, tt)
append-IsDistinct e (x ∷ es) h d = (
  ground (
    arith,
    h,
    d.0,
    ap (λ l. contains l x.aggregate_id) (ids-append es (e ∷ [])),
    contains-append (ids es) (e.aggregate_id ∷ []) x.aggregate_id,
    eq_iff e.aggregate_id x.aggregate_id,
    eq_iff x.aggregate_id e.aggregate_id,
  ),
  append-IsDistinct e es (ground arith) d.1,
)

-- What leaves the queue in memory is what leaves the table.
abbrev or_all : List Envelope → Option (List Envelope) → List Envelope
or_all es none = es
or_all es (some rest) = rest

remove_first-without :
    (id : String) (es : List Envelope)
    → IsDistinct es
    → or_all es (remove_first id es) ≡ without id es
unfolding remove_first contains
remove_first-without id [] d = refl
remove_first-without id (e ∷ es) d = elim (Bool-cases (e.aggregate_id == id)) [
  | inl hit ↦ rw hit (
      sym (
        without-fresh id es
          (ap (contains (ids es)) (sym ((eq_iff e.aggregate_id id).0 hit)) ∙ d.0)))
  | inr miss ↦
      rw miss (push (remove_first id es) ∙ ap (λ l. e ∷ l) (remove_first-without id es d.1))
]
  where
    push :
        (o : Option (List Envelope))
        → or_all (e ∷ es) (elim o [ none ↦ none | some found ↦ some (e ∷ found) ]) ≡ e ∷ or_all es o
    push none = refl
    push (some found) = refl

-- The table holds the queue, in which no aggregate is twice.
abbrev pub IsMirrored : WorkflowThrottle QueueTable → Type 0
IsMirrored t = IsDistinct t.queued × (t.store ≡ some t.queued)

-- Parking an aggregate that is not parked, no earlier than the parked ones, keeps the table equal to the
-- queue.
pub enqueue-IsMirrored :
    (t : WorkflowThrottle QueueTable) (e : Envelope)
    → contains (ids t.queued) e.aggregate_id ≡ false
    → AreNoLater e t.queued
    → IsMirrored t
    → IsMirrored (enqueue sqlite_queue e t)
unfolding enqueue enqueue_workflow sqlite_queue
enqueue-IsMirrored t e fresh last (d, same) = (
  append-IsDistinct e t.queued fresh d,
  ap (on_store (enqueue_workflow e)) same ∙ rw fresh (ap some (insert_row-last e t.queued last)),
)

abbrev pub on_front : Option Envelope → List Envelope → List Envelope
on_front none es = es
on_front (some e) es = e ∷ es

-- Taking a workflow off a queue that the table mirrors gives the one in front, leaves the others in
-- their order, and keeps the table equal to the queue.
pub dequeue-IsMirrored :
    (t : WorkflowThrottle QueueTable)
    → IsMirrored t
    → (t.queued ≡ on_front (dequeue sqlite_queue t).1 (dequeue sqlite_queue t).0.queued)
      × IsMirrored (dequeue sqlite_queue t).0
unfolding dequeue sqlite_queue
dequeue-IsMirrored t (d, same) = by_queue t.queued refl
  where
    by_queue :
        (es : List Envelope)
        → t.queued ≡ es
        → (t.queued ≡ on_front (dequeue sqlite_queue t).1 (dequeue sqlite_queue t).0.queued)
          × IsMirrored (dequeue sqlite_queue t).0
    by_queue [] e =
        let stays : (dequeue sqlite_queue t).0.queued ≡ t.queued = ground (arith, e) in
        let kept : (dequeue sqlite_queue t).0.store ≡ t.store = ground (arith, e) in
        (ground (arith, e), (subst IsDistinct (sym stays) d, kept ∙ same ∙ ap some (sym stays)))
    by_queue (x ∷ es) e =
        let split : IsDistinct (x ∷ es) = subst IsDistinct e d in
        rw (e, dequeue)
          (
            refl,
            (
              split.1,
              ap (on_store (without x.aggregate_id)) (same ∙ ap some e)
                  ∙ rw (eq_refl x.aggregate_id) (ap some (without-fresh x.aggregate_id es split.0)),
            ),
          )

-- Removing an aggregate from a queue that the table mirrors takes exactly its event off the queue, and
-- keeps the table equal to the queue.
pub remove_queued-IsMirrored :
    (t : WorkflowThrottle QueueTable) (id : String)
    → IsMirrored t
    → ((remove_queued sqlite_queue id t).0.queued ≡ without id t.queued)
      × IsMirrored (remove_queued sqlite_queue id t).0
unfolding remove_queued sqlite_queue
remove_queued-IsMirrored t id (d, same) = (
  gone,
  (
    subst IsDistinct (sym gone) (without-IsDistinct id t.queued d),
    kept ∙ ap (on_store (without id)) same ∙ ap some (sym gone),
  ),
)
  where
    by_search :
        (o : Option (List Envelope))
        → remove_first id t.queued ≡ o
        → ((remove_queued sqlite_queue id t).0.queued ≡ or_all t.queued o)
          × ((remove_queued sqlite_queue id t).0.store ≡ on_store (without id) t.store)
    by_search none e = (rw (e, remove_queued) refl, rw (e, remove_queued) refl)
    by_search (some rest) e = (rw (e, remove_queued) refl, rw (e, remove_queued) refl)

    gone : (remove_queued sqlite_queue id t).0.queued ≡ without id t.queued
    gone = (by_search (remove_first id t.queued) refl).0 ∙ remove_first-without id t.queued d

    kept : (remove_queued sqlite_queue id t).0.store ≡ on_store (without id) t.store
    kept = (by_search (remove_first id t.queued) refl).1
