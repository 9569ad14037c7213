-- ===== src/Workflow/Edit.antt =====
-- internal/engine/workflow_def.go: WithoutHandler and WithStaleReferenceSweep.
pub mod Removal
use rick_driven_development.Prelude.{
  String, Bool, false, List, [], ◌∷◌, ◌++◌, Option, none, some, ◌==◌, contains, remove,
  if◌then◌else◌,
}
use rick_driven_development.Prelude.Dict.{Dict, lookup, set}
use rick_driven_development.Workflow.Def.{Graph, WorkflowDef}

-- The loop that deduplicates, over what it has emitted.
unfoldable pub dedup_from : List String → List String → List String
unfolding contains
dedup_from seen [] = []
dedup_from seen (d ∷ ds) =
    let rest = dedup_from seen ds in
    let fresh = dedup_from (d ∷ seen) ds in if contains seen d then rest else d ∷ fresh

unfoldable pub rewire : String → List String → List String → List String
unfolding contains remove dedup_from
rewire handler preds deps =
    if contains deps handler
    then dedup_from [] (remove handler deps ++ preds)
    else remove handler deps

unfoldable pub without_node : String → List String → Graph → Graph
unfolding rewire
without_node handler preds [] = []
without_node handler preds ((h, deps) ∷ g) =
    let rest = without_node handler preds g in
    if h == handler then rest else (h, rewire handler preds deps) ∷ rest

unfoldable pub without_handler : WorkflowDef → String → WorkflowDef
unfolding lookup remove without_node
without_handler def handler = elim (lookup handler def.graph) [
  | none ↦ def
  | some preds ↦ record def {
    required = remove handler def.required;
    graph = without_node handler preds def.graph;
  }
]

unfoldable pub sweep_graph : List String → Graph → Graph
sweep_graph cons_deps [] = []
sweep_graph cons_deps ((h, deps) ∷ g) =
    let rest = sweep_graph cons_deps g in
    (h, (if h == "pr-consolidator" then cons_deps ++ "pr-stale-reference" ∷ [] else deps)) ∷ rest

unfoldable pub with_stale_reference_sweep : WorkflowDef → WorkflowDef
unfolding lookup set sweep_graph
with_stale_reference_sweep def = elim (lookup "pr-consolidator" def.graph) [
  | none ↦ def
  | some cons_deps ↦ elim (lookup "pr-stale-reference" def.graph) [
    | some _ ↦ def
    | none ↦ record def {
      required = def.required ++ "pr-stale-reference" ∷ [];
      graph = set "pr-stale-reference" ("pr-jira-context" ∷ []) (sweep_graph cons_deps def.graph);
    }
  ]
]
