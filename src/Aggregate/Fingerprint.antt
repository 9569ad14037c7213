-- ===== src/Aggregate/Fingerprint.antt =====
-- internal/engine/aggregate.go: verdictFingerprint. SHA-256 in hex is a parameter of the model.
use Prim.Native.Char.{code}
use Prim.Native.Nat.{Ordering}
use Prim.Native.String.{compare}
use rick_driven_development.Prelude.{ℕ, String, List, [], ◌∷◌, ◌++◌, map}
use rick_driven_development.Event.Payload.{VerdictPayload}

-- The code points of a text, which stand for its UTF-8 bytes.
abbrev pub codes : String → List ℕ
codes String.[] = []
codes (String.◌∷◌ c s) = code c ∷ codes s

unfoldable pub insert_sorted : String → List String → List String
insert_sorted d [] = d ∷ []
insert_sorted d (e ∷ es) = elim (compare d e) [
  | Ordering.gt ↦ e ∷ insert_sorted d es
  | _ ↦ d ∷ e ∷ es
]

-- sort.Strings
unfoldable pub sort_strings : List String → List String
unfolding insert_sorted
sort_strings [] = []
sort_strings (d ∷ ds) = insert_sorted d (sort_strings ds)

-- What the hasher is fed: the summary and each description, a zero byte behind each.
unfoldable pub hash_parts : List String → List ℕ
hash_parts [] = []
hash_parts (d ∷ ds) = codes d ++ 0 ∷ hash_parts ds

unfoldable pub hash_input : String → List String → List ℕ
unfolding hash_parts
hash_input summary ds = hash_parts (summary ∷ ds)

unfoldable pub verdict_fingerprint : (List ℕ → String) → VerdictPayload → String
unfolding sort_strings hash_input
verdict_fingerprint sha256_hex v =
    sha256_hex (hash_input v.summary (sort_strings (map (λ i. i.description) v.issues)))
