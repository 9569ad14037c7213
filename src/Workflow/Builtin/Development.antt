-- ===== src/Workflow/Builtin/Development.antt =====
-- internal/engine/workflow_def.go: the built-in workflows that develop code.
use rick_driven_development.Prelude.{false, true, [], ◌∷◌}
use rick_driven_development.Workflow.Def.{WorkflowDef}

-- The zero value of the struct.
abbrev pub zero_def : WorkflowDef
zero_def = record {
  id = "";
  required = [];
  graph = [];
  max_iterations = 0;
  escalate_on_max_iter = false;
  hint_threshold = 0;
  retriggered_by = [];
  max_chain_depth = 0;
  partial_review_on_failure = false;
  synchronous_feedback = false;
  consolidated_reviewers = [];
  review_consolidator = "";
}

abbrev pub develop_only_workflow_def : WorkflowDef
develop_only_workflow_def = record zero_def {
  id = "develop-only";
  required = "workspace" ∷ "developer" ∷ "reviewer" ∷ "committer" ∷ [];
  graph =
      ("workspace", [])
      ∷ ("developer", "workspace" ∷ [])
      ∷ ("reviewer", "developer" ∷ [])
      ∷ ("committer", "reviewer" ∷ [])
      ∷ [];
  retriggered_by = ("developer", "feedback.generated" ∷ []) ∷ [];
  max_iterations = 3;
}

abbrev pub workspace_dev_workflow_def : WorkflowDef
workspace_dev_workflow_def = record zero_def {
  id = "workspace-dev";
  required =
      "workspace" ∷ "context-snapshot" ∷ "developer" ∷ "quality-gate" ∷ "reviewer" ∷ "qa"
      ∷ "review-consolidator" ∷ "committer" ∷ [];
  graph =
      ("workspace", [])
      ∷ ("context-snapshot", "workspace" ∷ [])
      ∷ ("developer", "context-snapshot" ∷ [])
      ∷ ("reviewer", "developer" ∷ [])
      ∷ ("qa", "developer" ∷ [])
      ∷ ("review-consolidator", "reviewer" ∷ "qa" ∷ [])
      ∷ ("quality-gate", "review-consolidator" ∷ [])
      ∷ ("committer", "quality-gate" ∷ [])
      ∷ [];
  retriggered_by = ("developer", "feedback.generated" ∷ []) ∷ [];
  max_iterations = 3;
  escalate_on_max_iter = true;
  synchronous_feedback = true;
  consolidated_reviewers = "reviewer" ∷ "qa" ∷ [];
  review_consolidator = "review-consolidator";
}

abbrev pub pr_feedback_workflow_def : WorkflowDef
pr_feedback_workflow_def = record zero_def {
  id = "pr-feedback";
  required =
      "workspace" ∷ "github-pr-fetcher" ∷ "feedback-analyzer" ∷ "context-snapshot" ∷ "developer"
      ∷ "reviewer" ∷ "qa" ∷ "review-consolidator" ∷ "quality-gate" ∷ "committer" ∷ "pr-replier"
      ∷ "pr-reply-poster" ∷ [];
  graph =
      ("github-pr-fetcher", [])
      ∷ ("workspace", "github-pr-fetcher" ∷ [])
      ∷ ("feedback-analyzer", "workspace" ∷ [])
      ∷ ("context-snapshot", "feedback-analyzer" ∷ [])
      ∷ ("developer", "context-snapshot" ∷ [])
      ∷ ("reviewer", "developer" ∷ [])
      ∷ ("qa", "developer" ∷ [])
      ∷ ("review-consolidator", "reviewer" ∷ "qa" ∷ [])
      ∷ ("quality-gate", "review-consolidator" ∷ [])
      ∷ ("committer", "quality-gate" ∷ [])
      ∷ ("pr-replier", "committer" ∷ [])
      ∷ ("pr-reply-poster", "pr-replier" ∷ [])
      ∷ [];
  retriggered_by = ("developer", "feedback.generated" ∷ []) ∷ [];
  max_iterations = 3;
  escalate_on_max_iter = true;
  synchronous_feedback = true;
  consolidated_reviewers = "reviewer" ∷ "qa" ∷ [];
  review_consolidator = "review-consolidator";
}

abbrev pub jira_dev_workflow_def : WorkflowDef
jira_dev_workflow_def = record zero_def {
  id = "jira-dev";
  required =
      "jira-context" ∷ "workspace" ∷ "context-snapshot" ∷ "researcher" ∷ "architect" ∷ "developer"
      ∷ "review-consolidator" ∷ "quality-gate" ∷ "reviewer" ∷ "qa" ∷ "committer" ∷ [];
  graph =
      ("jira-context", [])
      ∷ ("workspace", "jira-context" ∷ [])
      ∷ ("context-snapshot", "workspace" ∷ [])
      ∷ ("researcher", "context-snapshot" ∷ [])
      ∷ ("architect", "researcher" ∷ [])
      ∷ ("developer", "architect" ∷ [])
      ∷ ("reviewer", "developer" ∷ [])
      ∷ ("qa", "developer" ∷ [])
      ∷ ("review-consolidator", "reviewer" ∷ "qa" ∷ [])
      ∷ ("quality-gate", "review-consolidator" ∷ [])
      ∷ ("committer", "quality-gate" ∷ [])
      ∷ [];
  retriggered_by = ("developer", "feedback.generated" ∷ []) ∷ [];
  max_iterations = 3;
  escalate_on_max_iter = true;
  synchronous_feedback = true;
  consolidated_reviewers = "reviewer" ∷ "qa" ∷ [];
  review_consolidator = "review-consolidator";
}

abbrev pub github_dev_workflow_def : WorkflowDef
github_dev_workflow_def = record zero_def {
  id = "github-dev";
  required =
      "github-context" ∷ "workspace" ∷ "context-snapshot" ∷ "researcher" ∷ "architect" ∷ "developer"
      ∷ "review-consolidator" ∷ "quality-gate" ∷ "reviewer" ∷ "qa" ∷ "committer" ∷ [];
  graph =
      ("github-context", [])
      ∷ ("workspace", "github-context" ∷ [])
      ∷ ("context-snapshot", "workspace" ∷ [])
      ∷ ("researcher", "context-snapshot" ∷ [])
      ∷ ("architect", "researcher" ∷ [])
      ∷ ("developer", "architect" ∷ [])
      ∷ ("reviewer", "developer" ∷ [])
      ∷ ("qa", "developer" ∷ [])
      ∷ ("review-consolidator", "reviewer" ∷ "qa" ∷ [])
      ∷ ("quality-gate", "review-consolidator" ∷ [])
      ∷ ("committer", "quality-gate" ∷ [])
      ∷ [];
  retriggered_by = ("developer", "feedback.generated" ∷ []) ∷ [];
  max_iterations = 3;
  escalate_on_max_iter = true;
  synchronous_feedback = true;
  consolidated_reviewers = "reviewer" ∷ "qa" ∷ [];
  review_consolidator = "review-consolidator";
}

abbrev pub ci_fix_workflow_def : WorkflowDef
ci_fix_workflow_def = record zero_def {
  id = "ci-fix";
  required =
      "workspace" ∷ "developer" ∷ "review-consolidator" ∷ "quality-gate" ∷ "reviewer" ∷ "qa"
      ∷ "committer" ∷ [];
  graph =
      ("workspace", [])
      ∷ ("developer", "workspace" ∷ [])
      ∷ ("reviewer", "developer" ∷ [])
      ∷ ("qa", "developer" ∷ [])
      ∷ ("review-consolidator", "reviewer" ∷ "qa" ∷ [])
      ∷ ("quality-gate", "review-consolidator" ∷ [])
      ∷ ("committer", "quality-gate" ∷ [])
      ∷ [];
  retriggered_by = ("developer", "feedback.generated" ∷ []) ∷ [];
  max_iterations = 2;
  escalate_on_max_iter = true;
  synchronous_feedback = true;
  consolidated_reviewers = "reviewer" ∷ "qa" ∷ [];
  review_consolidator = "review-consolidator";
}
