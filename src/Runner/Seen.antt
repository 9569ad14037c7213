-- ===== src/Runner/Seen.antt =====
-- internal/engine/persona_runner.go: idempotencyCache. With a `max_size` of 0 the code panics where
-- `evict` finds no entry; the runner's size is 10000.
pub mod Bounds
pub mod Marks
use Prim.Native.String.{◌++◌ as join}
use rick_driven_development.Prelude.{
  ℕ, suc, ◌+◌, ◌≤◌, ◌<◌, ◌≡◌, refl, String, Bool, true, false, List, [], ◌∷◌, ◌++◌, Option, none,
  some, arith, length, length-append, leb, if◌then◌else◌, eq_refl, ◌==◌, eq_iff, contains,
  contains-append, Bool-cases, inl, inr,
}
use rick_driven_development.Prelude.Dict.{
  Dict, lookup, set, erase, is_present, lookup-set, lookup-erase,
}

pub record IdempotencyCache : Type 0 where
  pub entries : Dict Bool
  pub order : List String
  pub max_size : ℕ

unfoldable pub new_idempotency_cache : ℕ → IdempotencyCache
new_idempotency_cache max_size = record { entries = []; order = []; max_size = max_size }

abbrev pub key_of : String → String → String
key_of handler_name event_id = join handler_name (join "|" event_id)

unfoldable pub remove_key : String → IdempotencyCache → IdempotencyCache
remove_key key c = record c { entries = erase key c.entries }

unfoldable pub remove_seen : String → String → IdempotencyCache → IdempotencyCache
remove_seen handler_name event_id c = remove_key (key_of handler_name event_id) c

-- oldest := order[0]; order = order[1:]; delete(entries, oldest)
unfoldable pub evict : List String → IdempotencyCache → IdempotencyCache
evict [] c = c
evict (oldest ∷ order) c = record c { entries = erase oldest c.entries; order = order }

unfoldable pub append_key : String → IdempotencyCache → IdempotencyCache
append_key key c = record c { entries = set key true c.entries; order = c.order ++ key ∷ [] }

-- true where the key is new
unfoldable pub add_key : String → IdempotencyCache → IdempotencyCache × Bool
add_key key c =
    if is_present (lookup key c.entries)
    then (c, false)
    else (append_key key (if leb c.max_size (length c.order) then evict c.order c else c), true)

unfoldable pub add_seen : String → String → IdempotencyCache → IdempotencyCache × Bool
add_seen handler_name event_id c = add_key (key_of handler_name event_id) c
