-- ===== src/Fair/Counters.antt =====
-- internal/engine/fair_dispatcher.go: the map of counters.
use rick_driven_development.Prelude.{
  ℕ, ◌+◌, ◌≤◌, ◌≡◌, refl, String, [], ◌∷◌, none, arith, ◌==◌, eq_iff, Bool-cases, inl, inr,
}
use rick_driven_development.Prelude.Dict.{
  Dict, lookup, set, erase, get_or, lookup-erase, lookup-set,
}

abbrev pub sum : Dict ℕ → ℕ
sum [] = 0
sum ((k, n) ∷ m) = n + sum m

-- No key stands twice.
abbrev pub IsDistinct : Dict ℕ → Type 0
IsDistinct [] = Unit {0}
IsDistinct ((k, n) ∷ m) = (lookup k m ≡ none) × IsDistinct m

pub sum-set : (k : String) (n : ℕ) (m : Dict ℕ) → sum (set k n m) + get_or 0 k m ≡ sum m + n
unfolding set get_or lookup
sum-set k n [] = omega arith
sum-set k n ((j, i) ∷ m) = ground (arith, sum-set k n m)

pub set-IsDistinct : (k : String) (n : ℕ) (m : Dict ℕ) → IsDistinct m → IsDistinct (set k n m)
unfolding set lookup
set-IsDistinct k n [] h = (refl, tt)
set-IsDistinct k n ((j, i) ∷ m) h = elim (Bool-cases (j == k)) [
  | inl hit ↦ rw hit h
  | inr miss ↦ rw miss (
    ground (arith, h, lookup-set k j n m, eq_iff j k, eq_iff k j, miss),
    set-IsDistinct k n m h.1,
  )
]

erase-fresh : (k : String) (m : Dict ℕ) → lookup k m ≡ none → sum (erase k m) ≡ sum m
unfolding erase lookup
erase-fresh k [] h = refl
erase-fresh k ((j, i) ∷ m) h = ground (arith, erase-fresh k m)

pub sum-erase : (k : String) (m : Dict ℕ) → IsDistinct m → sum (erase k m) + get_or 0 k m ≡ sum m
unfolding erase get_or lookup
sum-erase k [] h = refl
sum-erase k ((j, i) ∷ m) h = elim (Bool-cases (j == k)) [
  | inl hit ↦ ground (arith, hit, erase-fresh k m, eq_iff j k, h)
  | inr miss ↦ ground (arith, miss, sum-erase k m h.1)
]

pub erase-IsDistinct : (k : String) (m : Dict ℕ) → IsDistinct m → IsDistinct (erase k m)
unfolding erase
erase-IsDistinct k [] h = tt
erase-IsDistinct k ((j, i) ∷ m) h = elim (Bool-cases (j == k)) [
  | inl hit ↦ rw hit (erase-IsDistinct k m h.1)
  | inr miss ↦ rw miss (ground (arith, h, lookup-erase k j m), erase-IsDistinct k m h.1)
]

pub get_or-le-sum : (k : String) (m : Dict ℕ) → get_or 0 k m ≤ sum m
unfolding get_or lookup
get_or-le-sum k [] = omega arith
get_or-le-sum k ((j, i) ∷ m) = ground (arith, get_or-le-sum k m)
