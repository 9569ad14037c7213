-- ===== src/Examples/Graphs.antt =====
-- The theorems on the graphs of workflows, applied to built-in workflows.
use rick_driven_development.Prelude.{◌≡◌, refl, ◌↔◌, ◌⊎◌, true, [], ◌∷◌, contains, arith}
use rick_driven_development.Prelude.Dict.{lookup}
use rick_driven_development.Workflow.Def.{depends, Downstream}
use rick_driven_development.Workflow.Downstream.{downstream_of, personas_to_invalidate_for}
use rick_driven_development.Workflow.Downstream.Exact.{
  SiblingReaches, downstream_of-Downstream, personas_to_invalidate_for-exact,
}
use rick_driven_development.Workflow.Edit.{without_handler}
use rick_driven_development.Workflow.Edit.Removal.{without_handler-Downstream}
use rick_driven_development.Workflow.Builtin.{workflow_def_of, workspace_dev}
use rick_driven_development.Workflow.Builtin.Acyclic.{builtin-acyclic}
use rick_driven_development.Workflow.Builtin.Development.{
  develop_only_workflow_def, workspace_dev_workflow_def,
}

downstream_of-Downstream_example :
    (contains (downstream_of develop_only_workflow_def.graph "developer") "committer" ≡ true)
    ↔ Downstream develop_only_workflow_def.graph "developer" "committer"
downstream_of-Downstream_example =
    downstream_of-Downstream develop_only_workflow_def.graph "developer" "committer"

personas_to_invalidate_for-exact_example :
    (contains (personas_to_invalidate_for workspace_dev_workflow_def "reviewer") "qa" ≡ true) ↔ (
      Downstream workspace_dev_workflow_def.graph "reviewer" "qa"
      ⊎ ((true ≡ true)
          × (contains ("reviewer" ∷ "qa" ∷ []) "reviewer" ≡ true)
          × SiblingReaches workspace_dev_workflow_def.graph "reviewer"
              ("reviewer" ∷ "qa" ∷ [])
              "qa"))
personas_to_invalidate_for-exact_example =
    personas_to_invalidate_for-exact workspace_dev_workflow_def "reviewer" "qa"

without_handler-Downstream_example :
    Downstream (without_handler develop_only_workflow_def "reviewer").graph "developer" "committer"
    ↔ Downstream develop_only_workflow_def.graph "developer" "committer"
unfolding lookup depends contains
without_handler-Downstream_example =
    without_handler-Downstream develop_only_workflow_def "reviewer" "developer" "committer"
      ("developer" ∷ []) refl (λ d. ground arith) (λ e. cc) (λ e. cc)

builtin-acyclic_example :
    ¬ Downstream (workflow_def_of workspace_dev).graph "committer" "quality-gate"
unfolding depends contains workflow_def_of
builtin-acyclic_example = builtin-acyclic workspace_dev "committer" "quality-gate" refl
