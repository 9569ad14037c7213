-- ===== src/Runner/Queue.antt =====
-- internal/engine/dispatch_queues.go: the priority queue of one handler and one correlation. The
-- map of queues is in the runner's state.
pub mod Order
use rick_driven_development.Prelude.{
  ℕ, ◌≤◌, ◌<◌, ◌≡◌, refl, String, Bool, true, false, List, [], ◌∷◌, ◌++◌, Option, none, some, arith,
  ltb, eqb, if◌then◌else◌,
}
use rick_driven_development.Prelude.Dict.{Dict, lookup}
use rick_driven_development.Event.Envelope.{
  Envelope, Body, hint_approved, feedback_generated, persona_completed, persona_failed,
}
use rick_driven_development.Prelude.{◌==◌}

-- Lower is more urgent.
unfoldable pub event_priority : Body → ℕ
event_priority (hint_approved j) = 0
event_priority (feedback_generated j) = 10
event_priority (persona_completed j) = 20
event_priority (persona_failed j) = 20
event_priority (Body.other t) =
    if t == "operator.guidance" then 0 else if t == "child.workflow.completed" then 10 else 30
event_priority _ = 30

pub record DispatchItem : Type 0 where
  pub priority : ℕ
  pub env : Envelope
  pub chain_depth : ℕ

pub record DispatchQueue : Type 0 where
  pub items : List DispatchItem
  pub draining : Bool

abbrev pub empty_queue : DispatchQueue
empty_queue = record { items = []; draining = false }

-- Before the first item that is less urgent.
unfoldable pub insert_item : DispatchItem → List DispatchItem → List DispatchItem
insert_item item [] = item ∷ []
insert_item item (existing ∷ items) =
    let rest = insert_item item items in
    if ltb item.priority existing.priority then item ∷ existing ∷ items else existing ∷ rest

unfoldable pub push : DispatchItem → DispatchQueue → DispatchQueue
push item q = record q { items = insert_item item q.items }

unfoldable pub pop : DispatchQueue → DispatchQueue × Option DispatchItem
pop q = elim q.items [ [] ↦ (q, none) | item ∷ items ↦ (record q { items = items }, some item) ]

-- dq.getOrCreate(key)
unfoldable pub get_or_create : String → Dict DispatchQueue → DispatchQueue
get_or_create key queues = elim (lookup key queues) [ none ↦ empty_queue | some q ↦ q ]
