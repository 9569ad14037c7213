-- ===== src/Aggregate/Sorting.antt =====
-- internal/engine/aggregate.go and internal/engine/workflow_resolver.go: what sort.Strings returns.
use Prim.Native.Nat.{Ordering, lt, eq, gt, compare as compare_ℕ}
use Prim.Native.Char.{code}
use Prim.Native.String.compare
use Prim.Native.String.{compare, then as first_of}
use rick_driven_development.Prelude.{
  ℕ, ◌+◌, ◌≡◌, refl, ap, sym, subst, ◌∙◌, String, Bool, true, false, List, [], ◌∷◌, ◌==◌, arith,
  if◌then◌else◌,
}
use rick_driven_development.Aggregate.Fingerprint.{insert_sorted, sort_strings}

swap : Ordering → Ordering
swap lt = gt
swap eq = eq
swap gt = lt

swap-then : (o r : Ordering) → swap (first_of o r) ≡ first_of (swap o) (swap r)
unfolding swap
swap-then lt r = refl
swap-then eq r = refl
swap-then gt r = refl

compare_ℕ-swap : (m n : ℕ) → compare_ℕ n m ≡ swap (compare_ℕ m n)
unfolding swap
compare_ℕ-swap m n = ground arith

compare-swap : (s t : String) → compare t s ≡ swap (compare s t)
unfolding swap
compare-swap String.[] String.[] = refl
compare-swap String.[] (String.◌∷◌ d t) =
    compare.cons-nil d t ∙ ap swap (sym (compare.nil-cons d t))
compare-swap (String.◌∷◌ c s) String.[] =
    compare.nil-cons c s ∙ ap swap (sym (compare.cons-nil c s))
compare-swap (String.◌∷◌ c s) (String.◌∷◌ d t) =
    compare.cons-cons d c t s
    ∙ ap (λ o. first_of o (compare t s)) (compare_ℕ-swap (code c) (code d))
    ∙ ap (first_of (swap (compare_ℕ (code c) (code d)))) (compare-swap s t)
    ∙ sym (swap-then (compare_ℕ (code c) (code d)) (compare s t))
    ∙ ap swap (sym (compare.cons-cons c d s t))

-- How often a text stands in the list.
abbrev pub occurrences : String → List String → ℕ
occurrences x [] = 0
occurrences x (d ∷ ds) = (if d == x then 1 else 0) + occurrences x ds

abbrev is_after : Ordering → Bool
is_after gt = true
is_after _ = false

-- No text stands before one that is smaller.
abbrev pub IsAscending : List String → Type 0
IsAscending [] = Unit {0}
IsAscending (d ∷ []) = Unit {0}
IsAscending (d ∷ e ∷ es) = (is_after (compare d e) ≡ false) × IsAscending (e ∷ es)

insert_sorted-place :
    (d e : String) (es : List String) (o : Ordering)
    → compare d e ≡ o
    → insert_sorted d (e ∷ es) ≡ (if is_after o then e ∷ insert_sorted d es else d ∷ e ∷ es)
unfolding insert_sorted
insert_sorted-place d e es gt q = rw (q, insert_sorted) refl
insert_sorted-place d e es lt q = rw (q, insert_sorted) refl
insert_sorted-place d e es eq q = rw (q, insert_sorted) refl

insert_sorted-occurrences :
    (x d : String) (ds : List String) → occurrences x (insert_sorted d ds) ≡ occurrences x (d ∷ ds)
unfolding insert_sorted
insert_sorted-occurrences x d [] = refl
insert_sorted-occurrences x d (e ∷ es) =
    ap (occurrences x) (insert_sorted-place d e es (compare d e) refl)
    ∙ by_test (is_after (compare d e)) (insert_sorted-occurrences x d es)
  where
    by_test :
        (after : Bool)
        → occurrences x (insert_sorted d es) ≡ occurrences x (d ∷ es)
        → occurrences x (if after then e ∷ insert_sorted d es else d ∷ e ∷ es)
          ≡ occurrences x (d ∷ e ∷ es)
    by_test true rest = omega (arith, rest)
    by_test false rest = refl

pub sort_strings-occurrences :
    (x : String) (ds : List String) → occurrences x (sort_strings ds) ≡ occurrences x ds
unfolding sort_strings
sort_strings-occurrences x [] = refl
sort_strings-occurrences x (d ∷ ds) =
    omega (arith, insert_sorted-occurrences x d (sort_strings ds), sort_strings-occurrences x ds)

-- The text stands in front of the list in order.
abbrev Leads : String → List String → Type 0
Leads e [] = Unit {0}
Leads e (d ∷ ds) = is_after (compare e d) ≡ false

cons-IsAscending :
    (e : String) (ds : List String) → Leads e ds → IsAscending ds → IsAscending (e ∷ ds)
cons-IsAscending e [] first h = tt
cons-IsAscending e (d ∷ ds) first h = (first, h)

insert_sorted-Leads :
    (d e : String) (ds : List String)
    → is_after (compare e d) ≡ false
    → Leads e ds
    → Leads e (insert_sorted d ds)
unfolding insert_sorted
insert_sorted-Leads d e [] first h = first
insert_sorted-Leads d e (f ∷ ds) first h =
    subst (Leads e) (sym (insert_sorted-place d f ds (compare d f) refl))
      (by_test (is_after (compare d f)))
  where
    by_test : (after : Bool) → Leads e (if after then f ∷ insert_sorted d ds else d ∷ f ∷ ds)
    by_test true = h
    by_test false = first

after-swap :
    (d e : String) (o : Ordering)
    → compare d e ≡ o
    → is_after o ≡ true
    → is_after (compare e d) ≡ false
unfolding swap
after-swap d e gt q h = ap is_after (compare-swap d e ∙ ap swap q)
after-swap d e lt q h = cc
after-swap d e eq q h = cc

tail-IsAscending :
    (e : String) (es : List String) → IsAscending (e ∷ es) → Leads e es × IsAscending es
tail-IsAscending e [] h = (tt, tt)
tail-IsAscending e (f ∷ es) h = h

insert_sorted-IsAscending :
    (d : String) (ds : List String) → IsAscending ds → IsAscending (insert_sorted d ds)
unfolding insert_sorted
insert_sorted-IsAscending d [] h = tt
insert_sorted-IsAscending d (e ∷ es) h =
    let (first, rest) = tail-IsAscending e es h in
    subst IsAscending (sym (insert_sorted-place d e es (compare d e) refl))
      (by_test (is_after (compare d e)) refl first (insert_sorted-IsAscending d es rest))
  where
    by_test :
        (after : Bool)
        → is_after (compare d e) ≡ after
        → Leads e es
        → IsAscending (insert_sorted d es)
        → IsAscending (if after then e ∷ insert_sorted d es else d ∷ e ∷ es)
    by_test true q first rest =
        cons-IsAscending e (insert_sorted d es)
          (insert_sorted-Leads d e es (after-swap d e (compare d e) refl q) first) rest
    by_test false q first rest = (q, h)

pub sort_strings-IsAscending : (ds : List String) → IsAscending (sort_strings ds)
unfolding sort_strings
sort_strings-IsAscending [] = tt
sort_strings-IsAscending (d ∷ ds) =
    insert_sorted-IsAscending d (sort_strings ds) (sort_strings-IsAscending ds)
