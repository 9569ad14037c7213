-- ===== src/Workflow/Downstream.antt =====
-- internal/engine/workflow_def.go: DownstreamOf and PersonasToInvalidateFor.
pub mod Adjacency
pub mod Search
pub mod Exact
use rick_driven_development.Prelude.{
  ℕ, zero, suc, String, Bool, not, ◌||◌, List, [], ◌∷◌, ◌++◌, Option, none, some, ◌==◌, length,
  contains, if◌then◌else◌,
}
use rick_driven_development.Prelude.Dict.{Dict, set, get_or, or_zero}
use rick_driven_development.Workflow.Def.{Graph, WorkflowDef}

-- for _, dep := range deps { dependents[dep] = append(dependents[dep], h) }
unfoldable pub add_dependents : String → List String → Dict (List String) → Dict (List String)
unfolding get_or set
add_dependents h [] acc = acc
add_dependents h (dep ∷ deps) acc =
    add_dependents h deps (set dep (get_or [] dep acc ++ h ∷ []) acc)

unfoldable pub dependents : Graph → Dict (List String) → Dict (List String)
unfolding add_dependents
dependents [] acc = acc
dependents ((h, deps) ∷ g) acc = dependents g (add_dependents h deps acc)

-- The inner loop of the search: `visited` by its keys, and the queue.
unfoldable pub visit : List String → List String → List String → List String × List String
unfolding contains
visit [] visited queue = (visited, queue)
visit (dep ∷ deps) visited queue =
    let seen = contains visited dep in
    visit deps (if seen then visited else dep ∷ visited) (if seen then queue else queue ++ dep ∷ [])

-- `none` means that the fuel ran out.
unfoldable pub search_from :
    ℕ → Dict (List String) → List String → List String → Option (List String)
unfolding visit get_or
search_from zero adj visited queue = none
search_from (suc fuel) adj visited [] = some visited
search_from (suc fuel) adj visited (current ∷ queue) =
    let next = visit (get_or [] current adj) visited queue in search_from fuel adj next.0 next.1

-- Each handler enters the queue at most once, so two more rounds than the graph has entries suffice.
unfoldable pub downstream_of : Graph → String → List String
unfolding dependents search_from
downstream_of g persona =
    or_zero [] (search_from (suc (suc (length g))) (dependents g []) (persona ∷ []) (persona ∷ []))

-- for _, p := range ps { seen[p] = struct{}{} }
unfoldable pub add_all : List String → List String → List String
unfolding contains
add_all [] seen = seen
add_all (p ∷ ps) seen = add_all ps (if contains seen p then seen else p ∷ seen)

unfoldable pub add_siblings : Graph → String → List String → List String → List String
unfolding downstream_of add_all
add_siblings g from [] seen = seen
add_siblings g from (sibling ∷ siblings) seen =
    add_siblings g from siblings
      (if sibling == from then seen else add_all (downstream_of g sibling) seen)

unfoldable pub personas_to_invalidate_for : WorkflowDef → String → List String
unfolding contains downstream_of add_siblings
personas_to_invalidate_for d from =
    let downstream = downstream_of d.graph from in
    if not d.synchronous_feedback || not (contains d.consolidated_reviewers from)
    then downstream
    else add_siblings d.graph from d.consolidated_reviewers downstream
