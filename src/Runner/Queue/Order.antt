-- ===== src/Runner/Queue/Order.antt =====
-- internal/engine/dispatch_queues.go: the order that push keeps.
use rick_driven_development.Prelude.{
  ℕ, ◌≤◌, ◌<◌, ◌≡◌, List, [], ◌∷◌, ◌++◌, arith, eqb, if◌then◌else◌,
}
use rick_driven_development.Runner.Queue.{DispatchItem, DispatchQueue, insert_item, push}

abbrev pub IsOrdered : List DispatchItem → Type 0
IsOrdered [] = Unit {0}
IsOrdered (a ∷ []) = Unit {0}
IsOrdered (a ∷ b ∷ items) = (a.priority ≤ b.priority) × IsOrdered (b ∷ items)

-- The items of one priority, in their order.
abbrev pub of_priority : ℕ → List DispatchItem → List DispatchItem
of_priority p [] = []
of_priority p (a ∷ items) =
    let rest = of_priority p items in if eqb a.priority p then a ∷ rest else rest

of_priority-above :
    (p : ℕ) (existing : DispatchItem) (items : List DispatchItem)
    → IsOrdered (existing ∷ items)
    → p < existing.priority
    → of_priority p (existing ∷ items) ≡ []
of_priority-above p existing [] h lt = ground arith
of_priority-above p existing (b ∷ items) h lt = ground (arith, of_priority-above p b items h.1, h.0)

tail-IsOrdered :
    (a : DispatchItem) (items : List DispatchItem) → IsOrdered (a ∷ items) → IsOrdered items
tail-IsOrdered a [] h = tt
tail-IsOrdered a (b ∷ items) h = h.1

insert_item-IsOrdered :
    (item : DispatchItem) (items : List DispatchItem)
    → IsOrdered items
    → IsOrdered (insert_item item items)
unfolding insert_item
insert_item-IsOrdered item [] h = tt
insert_item-IsOrdered item (a ∷ []) h = ground arith
insert_item-IsOrdered item (a ∷ b ∷ items) h =
    ground (arith, insert_item-IsOrdered item (b ∷ items) h.1, h.0)

insert_item-of_priority :
    (p : ℕ) (item : DispatchItem) (items : List DispatchItem)
    → IsOrdered items
    → of_priority p (insert_item item items)
      ≡ of_priority p items ++ (if eqb item.priority p then item ∷ [] else [])
unfolding insert_item
insert_item-of_priority p item [] h = ground arith
insert_item-of_priority p item (a ∷ items) h = ground (
  arith,
  insert_item-of_priority p item items (tail-IsOrdered a items h),
  of_priority-above p a items h,
)

-- Pushing an item keeps the queue in the order of the priorities, and is first in, first out among the
-- items of each priority.
pub push-IsStable :
    (item : DispatchItem) (q : DispatchQueue)
    → IsOrdered q.items
    → IsOrdered (push item q).items
      × ((p : ℕ)
          → of_priority p (push item q).items
            ≡ of_priority p q.items ++ (if eqb item.priority p then item ∷ [] else []))
unfolding push
push-IsStable item q h =
    (insert_item-IsOrdered item q.items h, λ p. insert_item-of_priority p item q.items h)
