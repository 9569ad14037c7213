-- ===== src/Workflow/Downstream/Exact.antt =====
-- internal/engine/workflow_def.go: the results of DownstreamOf and PersonasToInvalidateFor.
use rick_driven_development.Prelude.{
  suc, ◌≤◌, ◌≡◌, refl, sym, subst, ◌↔◌, ◌⊎◌, inl, inr, ◌≢◌, String, true, false, ◌||◌, ◌&&◌, List,
  [], ◌∷◌, map, some, arith, ◌==◌, eq_iff, length, contains, Bool-cases,
}
use rick_driven_development.Prelude.Dict.{get_or, lookup}
use rick_driven_development.Workflow.Def.{Graph, WorkflowDef, depends, Downstream, here, next}
use rick_driven_development.Workflow.Downstream.{
  dependents, search_from, downstream_of, add_all, add_siblings, personas_to_invalidate_for,
}
use rick_driven_development.Workflow.Downstream.Adjacency.{contains-dependents}
use rick_driven_development.Workflow.Downstream.Search.{missing, Inv, search_from-Inv}

keys : Graph → List String
keys g = map (λ e. e.0) g

depends-keys : (g : Graph) (d x : String) → depends g x d ≡ true → contains (keys g) x ≡ true
unfolding depends keys
depends-keys [] d x h = ground arith
depends-keys ((k, deps) ∷ g) d x h = ground (arith, depends-keys g d x)

missing-keys-le : (g : Graph) (v : List String) → missing (keys g) v ≤ length g
unfolding keys
missing-keys-le [] v = omega arith
missing-keys-le (e ∷ g) v = ground (arith, missing-keys-le g v)

edges : (g : Graph) (d x : String) → contains (get_or [] d (dependents g [])) x ≡ depends g x d
unfolding get_or contains lookup
edges g d x = ground (arith, contains-dependents g [] d x)

start-Inv : (g : Graph) (p : String) → Inv g p (p ∷ []) (p ∷ [])
unfolding contains
start-Inv g p = record {
  start = ground (arith, eq_iff p p);
  sound = λ x m. subst (Downstream g p) ((eq_iff p x).0 (ground arith)) here;
  queued = λ x m. m;
  closed = λ x h m n e. ground arith;
}

-- The search ends within its fuel, with the persona and what it reaches.
pub search-total :
    (g : Graph) (p : String)
    → (r : List String) × (search_from (suc (suc (length g))) (dependents g []) (p ∷ []) (p ∷ [])
        ≡ some r)
      × Inv g p r []
search-total g p =
    search_from-Inv g p (dependents g []) (keys g) (edges g) (depends-keys g) (suc (suc (length g)))
      (p ∷ []) (p ∷ []) (omega (arith, missing-keys-le g (p ∷ []))) (start-Inv g p)

closed_complete :
    (g : Graph) (p : String) (r : List String) {x : String}
    → Inv g p r []
    → Downstream g p x
    → contains r x ≡ true
unfolding contains
closed_complete g p r i here = i.start
closed_complete g p r i (next {d} {h} w e) = i.closed d h (closed_complete g p r i w) refl e

-- DownstreamOf returns the persona and exactly the handlers that depend on it through any number of
-- edges of the graph, cyclic or not.
pub downstream_of-Downstream :
    (g : Graph) (p x : String) → (contains (downstream_of g p) x ≡ true) ↔ Downstream g p x
unfolding downstream_of
downstream_of-Downstream g p x =
    let (r, found, i) = search-total g p in
    rw (found, downstream_of) (i.sound x, closed_complete g p r i)

contains-add_all :
    (ps seen : List String) (x : String)
    → contains (add_all ps seen) x ≡ (contains seen x || contains ps x)
unfolding add_all
contains-add_all [] seen x = ground arith
contains-add_all (p ∷ ps) seen x =
    ground (arith, contains-add_all ps seen x, contains-add_all ps (p ∷ seen) x, eq_iff p x)

-- A persona that a sibling of `from` among the listed ones reaches.
abbrev pub SiblingReaches : Graph → String → List String → String → Type 0
SiblingReaches g from siblings x =
    (s : String) × (contains siblings s ≡ true) × (s ≢ from) × Downstream g s x

add_siblings_sound :
    (g : Graph) (from : String) (ss seen : List String) (x : String)
    → contains (add_siblings g from ss seen) x ≡ true
    → (contains seen x ≡ true) ⊎ SiblingReaches g from ss x
unfolding add_siblings contains
add_siblings_sound g from [] seen x h = inl h
add_siblings_sound g from (s ∷ ss) seen x h = elim (Bool-cases (s == from)) [
  | inl e ↦ elim (add_siblings_sound g from ss seen x (ground (arith, e))) [
    | inl a ↦ inl a
    | inr (t, m, n, w) ↦ inr (t, ground arith, n, w)
  ]
  | inr e ↦
      elim (add_siblings_sound g from ss (add_all (downstream_of g s) seen) x (ground (arith, e))) [
        | inl a ↦ elim (Bool-cases (contains seen x)) [
          | inl b ↦ inl b
          | inr b ↦ inr (
            s,
            ground (arith, eq_iff s s),
            λ p. ground (arith, eq_iff s from, e, p),
            (downstream_of-Downstream g s x).0
                (ground (arith, contains-add_all (downstream_of g s) seen x, a, b)),
          )
        ]
        | inr (t, m, n, w) ↦ inr (t, ground arith, n, w)
      ]
]

add_siblings-keep :
    (g : Graph) (from : String) (ss seen : List String) (x : String)
    → contains seen x ≡ true
    → contains (add_siblings g from ss seen) x ≡ true
unfolding add_siblings
add_siblings-keep g from [] seen x h = h
add_siblings-keep g from (s ∷ ss) seen x h = ground (
  arith,
  add_siblings-keep g from ss seen x,
  add_siblings-keep g from ss (add_all (downstream_of g s) seen) x,
  contains-add_all (downstream_of g s) seen x,
)

add_siblings_complete :
    (g : Graph) (from : String) (ss seen : List String) (x s : String)
    → contains ss s ≡ true
    → s ≢ from
    → Downstream g s x
    → contains (add_siblings g from ss seen) x ≡ true
unfolding add_siblings contains
add_siblings_complete g from [] seen x s m n w = ground arith
add_siblings_complete g from (t ∷ ss) seen x s m n w = elim (Bool-cases (t == s)) [
  | inl e ↦
      let same : t ≡ s = (eq_iff t s).0 e in
      let reached : contains (downstream_of g t) x ≡ true =
        (downstream_of-Downstream g t x).1 (subst (λ u. Downstream g u x) (sym same) w) in
      let other : (t == from) ≡ false = ground (arith, eq_iff t from) in
      rw other (
        add_siblings-keep g from ss (add_all (downstream_of g t) seen) x
          (ground (arith, contains-add_all (downstream_of g t) seen x)))
  | inr e ↦
      let listed : contains ss s ≡ true = ground arith in
      ground (
        arith,
        add_siblings_complete g from ss seen x s listed n w,
        add_siblings_complete g from ss (add_all (downstream_of g t) seen) x s listed n w,
      )
]

-- A retry from `from` invalidates exactly these personas: those downstream of `from`, and, where
-- synchronous feedback is on and `from` is a consolidated reviewer, those downstream of each other
-- consolidated reviewer.
pub personas_to_invalidate_for-exact :
    (d : WorkflowDef) (from x : String)
    → (contains (personas_to_invalidate_for d from) x ≡ true) ↔ (
        Downstream d.graph from x
        ⊎ ((d.synchronous_feedback ≡ true)
            × (contains d.consolidated_reviewers from ≡ true)
            × SiblingReaches d.graph from d.consolidated_reviewers x))
unfolding personas_to_invalidate_for
personas_to_invalidate_for-exact d from x = (to, back)
  where
    base : List String
    base = downstream_of d.graph from

    to :
        contains (personas_to_invalidate_for d from) x ≡ true
        → Downstream d.graph from x
          ⊎ ((d.synchronous_feedback ≡ true)
              × (contains d.consolidated_reviewers from ≡ true)
              × SiblingReaches d.graph from d.consolidated_reviewers x)
    to h = elim (Bool-cases (d.synchronous_feedback && contains d.consolidated_reviewers from)) [
      | inl b ↦
          elim (add_siblings_sound d.graph from d.consolidated_reviewers base x
            (ground (arith, b))) [
              | inl m ↦ inl ((downstream_of-Downstream d.graph from x).0 m)
              | inr r ↦ inr (ground (arith, b), ground (arith, b), r)
            ]
      | inr b ↦ inl ((downstream_of-Downstream d.graph from x).0 (ground (arith, b)))
    ]

    back :
        Downstream d.graph from x
          ⊎ ((d.synchronous_feedback ≡ true)
              × (contains d.consolidated_reviewers from ≡ true)
              × SiblingReaches d.graph from d.consolidated_reviewers x)
        → contains (personas_to_invalidate_for d from) x ≡ true
    back (inl w) =
        let m = (downstream_of-Downstream d.graph from x).1 w in
        ground (arith, add_siblings-keep d.graph from d.consolidated_reviewers base x m)
    back (inr (on, member, (s, m, n, w))) =
        rw (on, member) (add_siblings_complete d.graph from d.consolidated_reviewers base x s m n w)
