-- ===== src/Runner/Seen/Marks.antt =====
-- internal/engine/persona_runner.go: what the idempotency cache remembers while it has room.
use rick_driven_development.Prelude.{
  ℕ, suc, ◌+◌, ◌≤◌, ◌≡◌, String, Bool, true, false, not, ◌&&◌, ◌||◌, [], ◌∷◌, ◌==◌, arith, leb,
  length, length-append, eq_iff, eq_refl, Bool-cases, inl, inr,
}
use rick_driven_development.Prelude.Dict.{lookup, is_present, lookup-set, lookup-erase}
use rick_driven_development.Runner.Seen.{IdempotencyCache, add_key, remove_key, append_key}

-- The key is remembered.
abbrev knows : String → IdempotencyCache → Bool
knows k c = is_present (lookup k c.entries)

knows-add_key :
    (k j : String) (c : IdempotencyCache)
    → length c.order + 1 ≤ c.max_size
    → knows j (add_key k c).0 ≡ (k == j || knows j c)
unfolding add_key append_key
knows-add_key k j c room = ground (arith, room, lookup-set k j true c.entries, eq_iff k j)

add_key-new : (k : String) (c : IdempotencyCache) → (add_key k c).1 ≡ not (knows k c)
unfolding add_key
add_key-new k c = ground arith

add_key-room :
    (k : String) (n : ℕ) (c : IdempotencyCache)
    → length c.order + suc n ≤ c.max_size
    → length (add_key k c).0.order + n ≤ (add_key k c).0.max_size
unfolding add_key append_key
add_key-room k n c room = elim (Bool-cases (knows k c)) [
  | inl known ↦ rw known (omega arith)
  | inr fresh ↦
      let full : leb c.max_size (length c.order) ≡ false = ground (arith, room) in
      rw (fresh, full) (omega (arith, length-append c.order (k ∷ [])))
]

knows-remove_key :
    (k j : String) (c : IdempotencyCache) → knows j (remove_key k c) ≡ (not (k == j) && knows j c)
unfolding remove_key
knows-remove_key k j c = ground (arith, lookup-erase k j c.entries, eq_iff k j)

pub remove_key-fresh : (k : String) (c : IdempotencyCache) → (add_key k (remove_key k c)).1 ≡ true
remove_key-fresh k c =
    ground (arith, add_key-new k (remove_key k c), knows-remove_key k k c, eq_refl k)

remove_key-order :
    (k : String) (n : ℕ) (c : IdempotencyCache)
    → length c.order + n ≤ c.max_size
    → length (remove_key k c).order + n ≤ (remove_key k c).max_size
unfolding remove_key
remove_key-order k n c room = room

-- A mark that is taken away can be set again, and a second mark set between the two stays.
pub gate-stays :
    (k g : String) (c : IdempotencyCache)
    → length c.order + 3 ≤ c.max_size
    → (add_key g (add_key k c).0).1 ≡ true
    → (add_key g (add_key k (remove_key k (add_key g (add_key k c).0).0)).0).1 ≡ false
gate-stays k g c room fresh =
    let c1 = (add_key k c).0 in
    let c2 = (add_key g c1).0 in
    let c3 = remove_key k c2 in
    let room1 = add_key-room k 2 c room in
    let room2 = add_key-room g 1 c1 room1 in
    ground (
      arith,
      fresh,
      add_key-new g c1,
      add_key-new g (add_key k c3).0,
      knows-add_key k g c (omega (arith, room)),
      knows-add_key g g c1 (omega (arith, room1)),
      knows-remove_key k g c2,
      knows-add_key k g c3 (remove_key-order k 1 c2 room2),
      eq_refl g,
    )
