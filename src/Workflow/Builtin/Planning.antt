-- ===== src/Workflow/Builtin/Planning.antt =====
-- internal/engine/workflow_def.go: the built-in workflows that review and plan.
use rick_driven_development.Prelude.{String, true, List, [], ◌∷◌, ◌++◌}
use rick_driven_development.Prelude.Dict.{set}
use rick_driven_development.Workflow.Def.{Graph, WorkflowDef}
use rick_driven_development.Workflow.Builtin.Development.{zero_def}

abbrev pub pr_category_reviewers : List String
pr_category_reviewers =
    "pr-security" ∷ "pr-concurrency" ∷ "pr-error-handling" ∷ "pr-observability" ∷ "pr-api-contract"
    ∷ "pr-idempotency" ∷ "pr-testing" ∷ "pr-integration" ∷ "pr-performance" ∷ "pr-data"
    ∷ "pr-hygiene" ∷ "pr-vendor-resilience" ∷ "pr-docs-concordance" ∷ "pr-correctness" ∷ []

-- for _, reviewer := range prCategoryReviewers { graph[reviewer] = … }
unfoldable pub with_reviewers : List String → Graph → Graph
unfolding set
with_reviewers [] g = g
with_reviewers (r ∷ rs) g = with_reviewers rs (set r ("pr-jira-context" ∷ []) g)

abbrev pub pr_review_workflow_def : WorkflowDef
pr_review_workflow_def = record zero_def {
  id = "pr-review";
  required =
      ("pr-workspace" ∷ "pr-jira-context" ∷ [])
      ++ pr_category_reviewers
      ++ ("pr-consolidator" ∷ "pr-cleanup" ∷ []);
  graph = with_reviewers pr_category_reviewers (
      ("pr-workspace", [])
      ∷ ("pr-jira-context", "pr-workspace" ∷ [])
      ∷ ("pr-consolidator", pr_category_reviewers)
      ∷ ("pr-cleanup", "pr-consolidator" ∷ [])
      ∷ []);
  max_iterations = 1;
  partial_review_on_failure = true;
}

abbrev pub plan_btu_workflow_def : WorkflowDef
plan_btu_workflow_def = record zero_def {
  id = "plan-btu";
  required =
      "confluence-reader" ∷ "codebase-researcher" ∷ "plan-architect" ∷ "estimator"
      ∷ "confluence-writer" ∷ [];
  graph =
      ("confluence-reader", [])
      ∷ ("codebase-researcher", "confluence-reader" ∷ [])
      ∷ ("plan-architect", "codebase-researcher" ∷ [])
      ∷ ("estimator", "plan-architect" ∷ [])
      ∷ ("confluence-writer", "estimator" ∷ [])
      ∷ [];
  max_iterations = 3;
  escalate_on_max_iter = true;
}

abbrev pub jira_qa_steps_workflow_def : WorkflowDef
jira_qa_steps_workflow_def = record zero_def {
  id = "jira-qa-steps";
  required = "qa-context" ∷ "qa-analyzer" ∷ "qa-jira-writer" ∷ [];
  graph =
      ("qa-context", [])
      ∷ ("qa-analyzer", "qa-context" ∷ [])
      ∷ ("qa-jira-writer", "qa-analyzer" ∷ [])
      ∷ [];
  max_iterations = 1;
}

abbrev pub plan_jira_workflow_def : WorkflowDef
plan_jira_workflow_def = record zero_def {
  id = "plan-jira";
  required = "page-reader" ∷ "project-manager" ∷ "jira-task-creator" ∷ [];
  graph =
      ("page-reader", [])
      ∷ ("project-manager", "page-reader" ∷ [])
      ∷ ("jira-task-creator", "project-manager" ∷ [])
      ∷ [];
  max_iterations = 3;
  escalate_on_max_iter = true;
}

abbrev pub task_creator_workflow_def : WorkflowDef
task_creator_workflow_def = record zero_def {
  id = "task-creator";
  required = "task-creator" ∷ [];
  graph = ("task-creator", []) ∷ [];
  max_iterations = 1;
}
