-- ===== src/Workflow/Edit/Removal.antt =====
-- internal/engine/workflow_def.go: the edges that WithoutHandler leaves.
use rick_driven_development.Prelude.{
  ◌≡◌, refl, sym, subst, ◌∙◌, Bool, ◌↔◌, ◌⊎◌, inl, inr, ◌≢◌, String, true, false, not, ◌||◌, ◌&&◌,
  List, [], ◌∷◌, ◌++◌, some, arith, ◌==◌, eq_iff, contains, contains-append, contains-remove,
  remove, Bool-cases,
}
use mathlib.Core.Path.{ap₂}
use rick_driven_development.Prelude.Dict.{lookup}
use rick_driven_development.Workflow.Def.{Graph, WorkflowDef, depends, Downstream, here, next}
use rick_driven_development.Workflow.Edit.{dedup_from, rewire, without_node, without_handler}

contains-dedup_from :
    (seen ds : List String) (x : String)
    → contains (dedup_from seen ds) x ≡ (contains ds x && not (contains seen x))
unfolding dedup_from
contains-dedup_from seen [] x = ground arith
contains-dedup_from seen (d ∷ ds) x =
    ground (arith, contains-dedup_from seen ds x, contains-dedup_from (d ∷ seen) ds x, eq_iff d x)

contains-rewire :
    (handler : String) (preds deps : List String) (x : String)
    → contains (rewire handler preds deps) x
      ≡ ((contains deps x && not (handler == x)) || (contains deps handler && contains preds x))
unfolding rewire contains
contains-rewire handler preds deps x = ground (
  arith,
  contains-dedup_from [] (remove handler deps ++ preds) x,
  contains-append (remove handler deps) preds x,
  contains-remove handler x deps,
)

-- The edges that are left, where the first entry of the old graph gives `in_d` and `in_h`.
abbrev edges_left : Bool → Bool → Bool → Bool → Bool → Bool → Bool → Bool → Bool
edges_left same removed at in_d in_h listed old through =
    not removed && ((((same && in_d) || old) && not at) || (((same && in_h) || through) && listed))

dropped :
    (same removed at in_d in_h listed old through : Bool)
    → (same ≡ true → removed ≡ true)
    → (not removed && ((old && not at) || (through && listed)))
      ≡ edges_left same removed at in_d in_h listed old through
dropped false removed at in_d in_h listed old through f = refl
dropped true removed at in_d in_h listed old through f = rw (f refl)

kept :
    (same removed at in_d in_h listed old through : Bool)
    → (same ≡ true → removed ≡ false)
    → ((same && ((in_d && not at) || (in_h && listed)))
        || (not removed && ((old && not at) || (through && listed))))
      ≡ edges_left same removed at in_d in_h listed old through
kept false removed at in_d in_h listed old through f = refl
kept true removed at in_d in_h listed old through f = rw (f refl) (ground arith)

-- Each edge that is left joined two other handlers, or went through the removed one.
depends-without_node :
    (handler : String) (preds : List String) (g : Graph) (h d : String)
    → depends (without_node handler preds g) h d ≡ (
        not (h == handler)
        && ((depends g h d && not (handler == d)) || (depends g h handler && contains preds d)))
unfolding without_node depends
depends-without_node handler preds [] h d = ground arith
depends-without_node handler preds ((k, deps) ∷ g) h d = elim (Bool-cases (k == handler)) [
  | inl e ↦
      rw (e, without_node)
        (depends-without_node handler preds g h d
          ∙ dropped (k == h) (h == handler) (handler == d) (contains deps d) (contains deps handler)
              (contains preds d) (depends g h d) (depends g h handler)
              (λ q. ground (arith, eq_iff k handler, eq_iff k h, eq_iff h handler, e, q)))
  | inr e ↦
      rw (e, without_node)
        (ap₂ (λ u v. (k == h && u) || v) (contains-rewire handler preds deps d)
            (depends-without_node handler preds g h d)
          ∙ kept (k == h) (h == handler) (handler == d) (contains deps d) (contains deps handler)
              (contains preds d) (depends g h d) (depends g h handler)
              (λ q. ground (arith, eq_iff k handler, eq_iff k h, eq_iff h handler, e, q)))
]

-- The graph has one entry for the handler, with these predecessors.
abbrev pub OnlyEntry : Graph → String → List String → Type 0
OnlyEntry g handler preds = (d : String) → depends g handler d ≡ contains preds d

module _ (handler : String) (preds : List String) (g : Graph)
    (one : OnlyEntry g handler preds) where
  -- What a path to `h` in the old graph becomes in the new one: a path, or for the removed handler a
  -- path to one of its predecessors.
  abbrev Kept : String → String → Type 0
  Kept p h =
      ((h ≢ handler) × Downstream (without_node handler preds g) p h)
      ⊎ ((d : String) × (h ≡ handler)
          × (contains preds d ≡ true)
          × (d ≢ handler)
          × Downstream (without_node handler preds g) p d)

  keep : (p h : String) → p ≢ handler → Downstream g p h → Kept p h
  keep p h n here = inl (n, here)
  keep p h n (next {d} w e) = elim (keep p d n w) [
    | inl (other, path) ↦ elim (Bool-cases (h == handler)) [
      | inl hit ↦ inr (
        d,
        (eq_iff h handler).0 hit,
        sym (one d) ∙ subst (λ u. depends g u d ≡ true) ((eq_iff h handler).0 hit) e,
        other,
        path,
      )
      | inr miss ↦ inl (
        λ q. ground (arith, eq_iff h handler, q),
        next path
            (ground (arith, depends-without_node handler preds g h d, eq_iff handler d, other)),
      )
    ]
    | inr (c, at, listed, other, path) ↦ elim (Bool-cases (h == handler)) [
      | inl hit ↦ inr (c, (eq_iff h handler).0 hit, listed, other, path)
      | inr miss ↦
          let through : depends g h handler ≡ true = subst (λ u. depends g h u ≡ true) at e in
          inl (
            λ q. ground (arith, eq_iff h handler, q),
            next path
                (ground (arith, depends-without_node handler preds g h c, listed, through, miss)),
          )
    ]
  ]

  restore : {p h : String} → Downstream (without_node handler preds g) p h → Downstream g p h
  restore here = here
  restore (next {d} {h} w e) = elim (Bool-cases (depends g h d)) [
    | inl direct ↦ next (restore w) direct
    | inr detour ↦
        next {d = handler}
          (next (restore w) (ground (arith, depends-without_node handler preds g h d, one d)))
          (ground (arith, depends-without_node handler preds g h d))
  ]

  node_removal :
      (p h : String)
      → p ≢ handler
      → h ≢ handler
      → Downstream (without_node handler preds g) p h ↔ Downstream g p h
  node_removal p h n m = (
    restore,
    λ w. elim (keep p h n w) [ inl (_, path) ↦ path | inr (_, at, _, _, _) ↦ absurd (m at) ],
  )

-- Removing a handler that the graph has, in one entry, keeps what depends on what: between any two
-- other handlers there is a chain of dependencies after it just when there was one before.
pub without_handler-Downstream :
    (def : WorkflowDef) (handler p h : String) (preds : List String)
    → lookup handler def.graph ≡ some preds
    → OnlyEntry def.graph handler preds
    → p ≢ handler
    → h ≢ handler
    → Downstream (without_handler def handler).graph p h ↔ Downstream def.graph p h
unfolding without_handler
without_handler-Downstream def handler p h preds found one n m =
    rw (found, without_handler) (node_removal handler preds def.graph one p h n m)

-- Nothing names a removed handler of the graph any more: it is not required, depends on nothing, and, where it
-- did not list itself, nothing depends on it.
pub without_handler-absent :
    (def : WorkflowDef) (handler x : String) (preds : List String)
    → lookup handler def.graph ≡ some preds
    → contains preds handler ≡ false
    → (contains (without_handler def handler).required handler ≡ false)
      × (depends (without_handler def handler).graph handler x ≡ false)
      × (depends (without_handler def handler).graph x handler ≡ false)
unfolding without_handler
without_handler-absent def handler x preds found self =
    rw (found, without_handler)
      (
        ground (arith, contains-remove handler handler def.required, eq_iff handler handler),
        ground
            (arith, depends-without_node handler preds def.graph handler x, eq_iff handler handler),
        ground
            (arith, depends-without_node handler preds def.graph x handler, eq_iff handler handler),
      )
