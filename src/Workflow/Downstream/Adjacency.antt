-- ===== src/Workflow/Downstream/Adjacency.antt =====
-- internal/engine/workflow_def.go: the reverse adjacency that DownstreamOf builds.
use rick_driven_development.Prelude.{
  ◌≡◌, refl, String, ◌||◌, ◌&&◌, List, [], ◌∷◌, ◌++◌, arith, ◌==◌, eq_iff, contains,
  contains-append,
}
use rick_driven_development.Prelude.Dict.{Dict, set, get_or, get_or-set}
use rick_driven_development.Workflow.Def.{Graph, depends}
use rick_driven_development.Workflow.Downstream.{add_dependents, dependents}

-- Entries for one dependent.
contains-append_one :
    (dep d h x : String) (acc : Dict (List String))
    → contains (get_or [] d (set dep (get_or [] dep acc ++ h ∷ []) acc)) x
      ≡ ((dep == d && h == x) || contains (get_or [] d acc) x)
unfolding contains
contains-append_one dep d h x acc = ground (
  arith,
  get_or-set [] dep d (get_or [] dep acc ++ h ∷ []) acc,
  contains-append (get_or [] dep acc) (h ∷ []) x,
  eq_iff dep d,
)

contains-add_dependents :
    (h : String) (deps : List String) (acc : Dict (List String)) (d x : String)
    → contains (get_or [] d (add_dependents h deps acc)) x
      ≡ ((h == x && contains deps d) || contains (get_or [] d acc) x)
unfolding add_dependents contains
contains-add_dependents h [] acc d x = ground arith
contains-add_dependents h (dep ∷ deps) acc d x = ground (
  arith,
  contains-add_dependents h deps (set dep (get_or [] dep acc ++ h ∷ []) acc) d x,
  contains-append_one dep d h x acc,
)

pub contains-dependents :
    (g : Graph) (acc : Dict (List String)) (d x : String)
    → contains (get_or [] d (dependents g acc)) x ≡ (depends g x d || contains (get_or [] d acc) x)
unfolding dependents depends
contains-dependents [] acc d x = refl
contains-dependents ((k, deps) ∷ g) acc d x = ground (
  arith,
  contains-dependents g (add_dependents k deps acc) d x,
  contains-add_dependents k deps acc d x,
)
