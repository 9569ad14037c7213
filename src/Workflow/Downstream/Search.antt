-- ===== src/Workflow/Downstream/Search.antt =====
-- internal/engine/workflow_def.go: the breadth-first search of DownstreamOf.
use rick_driven_development.Prelude.{
  ℕ, zero, suc, ◌+◌, ◌≤◌, ◌<◌, ◌≡◌, refl, String, true, false, not, ◌||◌, ◌&&◌, List, [], ◌∷◌, ◌++◌,
  some, sym, ◌∙◌, arith, eq_iff, length, length-append, contains, contains-append, if◌then◌else◌,
  Bool-cases, inl, inr,
}
use rick_driven_development.Prelude.Dict.{Dict, get_or}
use rick_driven_development.Workflow.Def.{Graph, depends, Downstream, next}
use rick_driven_development.Workflow.Downstream.{visit, search_from}

-- How many of the keys are not visited.
abbrev pub missing : List String → List String → ℕ
missing [] visited = 0
missing (k ∷ ks) visited =
    let rest = missing ks visited in if contains visited k then rest else suc rest

missing-cons_le :
    (ks : List String) (v : List String) (d : String) → missing ks (d ∷ v) ≤ missing ks v
unfolding contains
missing-cons_le [] v d = omega arith
missing-cons_le (k ∷ ks) v d = ground (arith, missing-cons_le ks v d)

missing-cons :
    (ks v : List String) (d : String)
    → contains ks d ≡ true
    → contains v d ≡ false
    → missing ks (d ∷ v) < missing ks v
unfolding contains
missing-cons [] v d h n = ground arith
missing-cons (k ∷ ks) v d h n =
    ground (arith, missing-cons_le ks v d, missing-cons ks v d, eq_iff k d, eq_iff d k)

pub visit-visited :
    (deps v q : List String) (x : String)
    → contains (visit deps v q).0 x ≡ (contains v x || contains deps x)
unfolding visit
visit-visited [] v q x = ground arith
visit-visited (d ∷ deps) v q x = elim (Bool-cases (contains v d)) [
  | inl e ↦ rw (e, visit) (ground (arith, visit-visited deps v q x, eq_iff d x, e))
  | inr e ↦ rw (e, visit) (ground (arith, visit-visited deps (d ∷ v) (q ++ d ∷ []) x, eq_iff d x))
]

pub visit-queue :
    (deps v q : List String) (x : String)
    → contains (visit deps v q).1 x ≡ (contains q x || (contains deps x && not (contains v x)))
unfolding visit
visit-queue [] v q x = ground arith
visit-queue (d ∷ deps) v q x = elim (Bool-cases (contains v d)) [
  | inl e ↦ rw (e, visit) (ground (arith, visit-queue deps v q x, eq_iff d x, e))
  | inr e ↦
      rw (e, visit)
        (ground (
          arith,
          visit-queue deps (d ∷ v) (q ++ d ∷ []) x,
          contains-append q (d ∷ []) x,
          eq_iff d x,
        ))
]

-- A visit turns unvisited keys into queued ones.
visit-measure :
    (ks deps v q : List String)
    → ((x : String) → contains deps x ≡ true → contains ks x ≡ true)
    → missing ks (visit deps v q).0 + length (visit deps v q).1 ≤ missing ks v + length q
unfolding visit
visit-measure ks [] v q h = omega arith
visit-measure ks (d ∷ deps) v q h = elim (Bool-cases (contains v d)) [
  | inl e ↦ rw (e, visit) (visit-measure ks deps v q (λ x m. h x (ground arith)))
  | inr e ↦
      rw (e, visit)
        (omega (
          arith,
          visit-measure ks deps (d ∷ v) (q ++ d ∷ []) (λ x m. h x (ground arith)),
          length-append q (d ∷ []),
          missing-cons ks v d (h d (ground (arith, eq_iff d d))) e,
        ))
]

pub record Inv (g : Graph) (p : String) (visited queue : List String) : Type 0 where
  pub start : contains visited p ≡ true
  pub sound : (x : String) → contains visited x ≡ true → Downstream g p x
  pub queued : (x : String) → contains queue x ≡ true → contains visited x ≡ true
  pub closed :
      (x h : String)
      → contains visited x ≡ true
      → contains queue x ≡ false
      → depends g h x ≡ true
      → contains visited h ≡ true

module _ (g : Graph) (p : String) (adj : Dict (List String)) (keys : List String)
    (edges : (d x : String) → contains (get_or [] d adj) x ≡ depends g x d)
    (known : (d x : String) → depends g x d ≡ true → contains keys x ≡ true) where
  visit-Inv :
      (c : String) (v q : List String)
      → Inv g p v (c ∷ q)
      → Inv g p (visit (get_or [] c adj) v q).0 (visit (get_or [] c adj) v q).1
  unfolding contains
  visit-Inv c v q i = record {
    start = ground (arith, visit-visited (get_or [] c adj) v q p, i.start);
    sound = λ x m. elim (Bool-cases (contains v x)) [
      | inl e ↦ i.sound x e
      | inr e ↦
          next (i.sound c (i.queued c (ground (arith, eq_iff c c))))
            (ground (arith, visit-visited (get_or [] c adj) v q x, edges c x))
    ];
    queued = λ x m. ground (
      arith,
      visit-visited (get_or [] c adj) v q x,
      visit-queue (get_or [] c adj) v q x,
      i.queued x,
    );
    closed = λ x h m n e. ground (
      arith,
      visit-visited (get_or [] c adj) v q x,
      visit-visited (get_or [] c adj) v q h,
      visit-queue (get_or [] c adj) v q x,
      i.closed x h,
      edges c h,
      edges c x,
      eq_iff c x,
    );
  }

  pub search_from-Inv :
      (fuel : ℕ) (v q : List String)
      → missing keys v + length q < fuel
      → Inv g p v q
      → (r : List String) × (search_from fuel adj v q ≡ some r) × Inv g p r []
  unfolding search_from
  search_from-Inv zero v q h i = absurd (omega arith)
  search_from-Inv (suc fuel) v [] h i = (v, refl, i)
  search_from-Inv (suc fuel) v (c ∷ q) h i =
      let deps = get_or [] c adj in
      search_from-Inv fuel (visit deps v q).0 (visit deps v q).1
        (omega (arith, visit-measure keys deps v q (λ x m. known c x (sym (edges c x) ∙ m))))
        (visit-Inv c v q i)
