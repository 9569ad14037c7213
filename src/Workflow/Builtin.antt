-- ===== src/Workflow/Builtin.antt =====
-- internal/engine/workflow_def.go and selectWorkflowDef of internal/cli/run.go: the built-in workflows.
pub mod Development
pub mod Planning
pub mod Acyclic
use rick_driven_development.Workflow.Def.{WorkflowDef}
use Development.{
  develop_only_workflow_def, workspace_dev_workflow_def, pr_feedback_workflow_def,
  jira_dev_workflow_def, github_dev_workflow_def, ci_fix_workflow_def,
}
use Planning.{
  pr_review_workflow_def, plan_btu_workflow_def, jira_qa_steps_workflow_def, plan_jira_workflow_def,
  task_creator_workflow_def,
}

pub data Builtin : Type 0 where
  develop_only workspace_dev pr_feedback jira_dev github_dev ci_fix pr_review plan_btu jira_qa_steps
        plan_jira task_creator :
      Builtin

unfoldable pub workflow_def_of : Builtin → WorkflowDef
workflow_def_of develop_only = develop_only_workflow_def
workflow_def_of workspace_dev = workspace_dev_workflow_def
workflow_def_of pr_feedback = pr_feedback_workflow_def
workflow_def_of jira_dev = jira_dev_workflow_def
workflow_def_of github_dev = github_dev_workflow_def
workflow_def_of ci_fix = ci_fix_workflow_def
workflow_def_of pr_review = pr_review_workflow_def
workflow_def_of plan_btu = plan_btu_workflow_def
workflow_def_of jira_qa_steps = jira_qa_steps_workflow_def
workflow_def_of plan_jira = plan_jira_workflow_def
workflow_def_of task_creator = task_creator_workflow_def
