-- ===== src/Prelude/Dict.antt =====
-- Go's `map[string]V` as an association list. A `range` over it visits the entries in the list's
-- order; a key is added at the end, and written in place when it is there.
use Prim.Native.String.{String}
use mathlib.Core.Path.{◌≡◌, refl}
use mathlib.Core.Option.{Option, none, some}
use mathlib.Core.Bool.{Bool, false, true}
use mathlib.Core.List.{List, [], ◌∷◌}
use native.Mathlib.Omega.{arith}
use text.Mathlib.Text.{◌==◌}
use text.Mathlib.TextEquality.{eq_iff}
use rick_driven_development.Prelude.Tests.{if◌then◌else◌}

abbrev pub Dict {ℓ} : Type ℓ → Type ℓ
Dict V = List (String × V)

module _ {ℓ} {V : Type ℓ} where
  -- v, ok := m[k]
  unfoldable pub lookup : String → Dict V → Option V
  lookup k [] = none
  lookup k ((j, v) ∷ m) = if j == k then some v else lookup k m

  -- m[k] = v
  unfoldable pub set : String → V → Dict V → Dict V
  set k v [] = (k, v) ∷ []
  set k v ((j, w) ∷ m) = if j == k then (j, v) ∷ m else (j, w) ∷ set k v m

  -- delete(m, k)
  unfoldable pub erase : String → Dict V → Dict V
  erase k [] = []
  erase k ((j, v) ∷ m) = let rest = erase k m in if j == k then rest else (j, v) ∷ rest

  pub lookup-set :
      (k j : String) (v : V) (m : Dict V)
      → lookup j (set k v m) ≡ (if k == j then some v else lookup j m)
  unfolding lookup set
  lookup-set k j v [] = refl
  lookup-set k j v ((i, w) ∷ m) =
      ground (arith, lookup-set k j v m, eq_iff i k, eq_iff i j, eq_iff k j)

  pub lookup-erase :
      (k j : String) (m : Dict V) → lookup j (erase k m) ≡ (if k == j then none else lookup j m)
  unfolding lookup erase
  lookup-erase k j [] = ground arith
  lookup-erase k j ((i, w) ∷ m) =
      ground (arith, lookup-erase k j m, eq_iff i k, eq_iff i j, eq_iff k j)

-- _, ok := m[k]
abbrev pub is_present {ℓ} : {A : Type ℓ} → Option A → Bool
is_present none = false
is_present (some a) = true

-- m[k], with the zero value `z` where the key is missing
abbrev pub or_zero {ℓ} : {V : Type ℓ} → V → Option V → V
or_zero z none = z
or_zero z (some v) = v

unfoldable pub get_or {ℓ} : {V : Type ℓ} → V → String → Dict V → V
get_or z k m = or_zero z (lookup k m)

-- for k, t := range m { if t == target { delete(m, k) } }
unfoldable pub erase_value : String → Dict String → Dict String
erase_value t [] = []
erase_value t ((j, v) ∷ m) =
    let rest = erase_value t m in if v == t then erase j rest else (j, v) ∷ rest

abbrev pub unless_value : String → Option String → Option String
unless_value t none = none
unless_value t (some v) = if v == t then none else some v

-- A key keeps its value, unless it is the one that is erased.
pub lookup-erase_value :
    (t k : String) (m : Dict String) → lookup k (erase_value t m) ≡ unless_value t (lookup k m)
unfolding lookup erase_value
lookup-erase_value t k [] = refl
lookup-erase_value t k ((j, v) ∷ m) =
    ground (arith, lookup-erase_value t k m, lookup-erase j k (erase_value t m))

pub ruleset dict_laws = (lookup-set, lookup-erase)

module _ {ℓ} {V : Type ℓ} where
  pub get_or-set :
      (z : V) (k j : String) (v : V) (m : Dict V)
      → get_or z j (set k v m) ≡ (if k == j then v else get_or z j m)
  unfolding get_or
  get_or-set z k j v m = ground (arith, lookup-set k j v m)

  pub get_or-erase :
      (z : V) (k j : String) (m : Dict V)
      → get_or z j (erase k m) ≡ (if k == j then z else get_or z j m)
  unfolding get_or
  get_or-erase z k j m = ground (arith, lookup-erase k j m)
