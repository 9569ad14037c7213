-- ===== src/Runner/Seen/Bounds.antt =====
-- internal/engine/persona_runner.go: the entries and the order of the idempotency cache.
use rick_driven_development.Prelude.{
  ◌≤◌, ◌<◌, ◌≡◌, refl, String, true, List, [], ◌∷◌, arith, length, length-append, leb, eq_iff,
  contains, contains-append, Bool-cases, inl, inr,
}
use rick_driven_development.Prelude.Dict.{lookup, is_present, lookup-set, lookup-erase}
use rick_driven_development.Runner.Seen.{IdempotencyCache, remove_key, evict, append_key, add_key}

-- Each entry stands in the order, which is no longer than the cache is wide.
pub record IsBounded (c : IdempotencyCache) : Type 0 where
  pub listed :
      (key : String) → is_present (lookup key c.entries) ≡ true → contains c.order key ≡ true
  pub short : length c.order ≤ c.max_size

evict-IsBounded :
    (order : List String) (c : IdempotencyCache)
    → c.order ≡ order
    → IsBounded c
    → IsBounded (evict order c) × (1 ≤ length order → length (evict order c).order < c.max_size)
unfolding evict contains
evict-IsBounded [] c e h = (h, λ n. absurd (omega arith))
evict-IsBounded (oldest ∷ order) c e h = (
  record {
    listed = λ key known.
        ground
          (arith, h.listed key, e, known, lookup-erase oldest key c.entries, eq_iff oldest key);
    short = ground (arith, h.short, e);
  },
  λ _. ground (arith, h.short, e),
)

evict-max_size :
    (order : List String) (c : IdempotencyCache) → (evict order c).max_size ≡ c.max_size
unfolding evict
evict-max_size [] c = refl
evict-max_size (oldest ∷ order) c = refl

append_key-IsBounded :
    (key : String) (c : IdempotencyCache)
    → IsBounded c
    → length c.order < c.max_size
    → IsBounded (append_key key c)
unfolding append_key contains
append_key-IsBounded key c h room = record {
  listed = λ other known. ground (
    arith,
    h.listed other,
    known,
    lookup-set key other true c.entries,
    contains-append c.order (key ∷ []) other,
    eq_iff key other,
  );
  short = omega (arith, length-append c.order (key ∷ []));
}

-- A cache of at least one entry stays within its size, and whatever it remembers stands in its order.
pub add_key-IsBounded :
    (key : String) (c : IdempotencyCache)
    → 1 ≤ c.max_size
    → IsBounded c
    → IsBounded (add_key key c).0
unfolding add_key
add_key-IsBounded key c one h = elim (Bool-cases (is_present (lookup key c.entries))) [
  | inl known ↦ rw known h
  | inr fresh ↦ elim (Bool-cases (leb c.max_size (length c.order))) [
    | inl full ↦
        let (kept, room) = evict-IsBounded c.order c refl h in
        rw (fresh, full)
          (append_key-IsBounded key (evict c.order c) kept
            (ground (arith, room, full, one, evict-max_size c.order c)))
    | inr space ↦ rw (fresh, space) (append_key-IsBounded key c h (ground (arith, space)))
  ]
]

pub remove_key-IsBounded :
    (key : String) (c : IdempotencyCache) → IsBounded c → IsBounded (remove_key key c)
unfolding remove_key
remove_key-IsBounded key c h = record {
  listed = λ other known. h.listed other (ground (arith, known, lookup-erase key other c.entries));
  short = h.short;
}
