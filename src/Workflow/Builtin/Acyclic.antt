-- ===== src/Workflow/Builtin/Acyclic.antt =====
-- internal/engine/workflow_def.go: the dependency graphs of the built-in workflows.
use rick_driven_development.Prelude.{
  ℕ, suc, ◌≤◌, ◌<◌, ◌≡◌, refl, String, Bool, true, ◌&&◌, List, [], ◌∷◌, arith, ◌==◌, eq_iff, ltb,
  contains, if◌then◌else◌,
}
use rick_driven_development.Workflow.Def.{Graph, depends, Downstream, here, next}
use rick_driven_development.Workflow.Builtin.{
  Builtin, workflow_def_of, develop_only, workspace_dev, pr_feedback, jira_dev, github_dev, ci_fix,
  pr_review, plan_btu, jira_qa_steps, plan_jira, task_creator,
}
use rick_driven_development.Workflow.Builtin.Planning.{with_reviewers}
use rick_driven_development.Prelude.Dict.{set}

-- The place of a name in an order, past the end if it is not there.
rank : List String → String → ℕ
rank [] x = 0
rank (y ∷ ys) x = if y == x then 0 else suc (rank ys x)

all_before : List String → String → List String → Bool
unfolding rank
all_before order h [] = true
all_before order h (d ∷ ds) = ltb (rank order d) (rank order h) && all_before order h ds

-- Each entry's predecessors stand before it in the order.
is_ordered : List String → Graph → Bool
unfolding all_before
is_ordered order [] = true
is_ordered order ((h, deps) ∷ g) = all_before order h deps && is_ordered order g

all_before_sound :
    (order : List String) (h : String) (ds : List String) (d : String)
    → all_before order h ds ≡ true
    → contains ds d ≡ true
    → rank order d < rank order h
unfolding all_before contains
all_before_sound order h [] d a m = ground arith
all_before_sound order h (x ∷ ds) d a m = ground (arith, all_before_sound order h ds d, eq_iff x d)

is_ordered_sound :
    (order : List String) (g : Graph) (h d : String)
    → is_ordered order g ≡ true
    → depends g h d ≡ true
    → rank order d < rank order h
unfolding is_ordered depends
is_ordered_sound order [] h d a e = ground arith
is_ordered_sound order ((k, deps) ∷ g) h d a e =
    ground (arith, is_ordered_sound order g h d, all_before_sound order k deps d, eq_iff k h)

Downstream-rank :
    (order : List String) (g : Graph) (p : String) {x : String}
    → is_ordered order g ≡ true
    → Downstream g p x
    → rank order p ≤ rank order x
Downstream-rank order g p a here = omega arith
Downstream-rank order g p a (next {d} {h} w e) =
    omega (arith, Downstream-rank order g p a w, is_ordered_sound order g h d a e)

order_of : Builtin → List String
order_of develop_only = "workspace" ∷ "developer" ∷ "reviewer" ∷ "committer" ∷ []
order_of workspace_dev =
    "workspace" ∷ "context-snapshot" ∷ "developer" ∷ "reviewer" ∷ "qa" ∷ "review-consolidator"
    ∷ "quality-gate" ∷ "committer" ∷ []
order_of pr_feedback =
    "github-pr-fetcher" ∷ "workspace" ∷ "feedback-analyzer" ∷ "context-snapshot" ∷ "developer"
    ∷ "reviewer" ∷ "qa" ∷ "review-consolidator" ∷ "quality-gate" ∷ "committer" ∷ "pr-replier"
    ∷ "pr-reply-poster" ∷ []
order_of jira_dev =
    "jira-context" ∷ "workspace" ∷ "context-snapshot" ∷ "researcher" ∷ "architect" ∷ "developer"
    ∷ "reviewer" ∷ "qa" ∷ "review-consolidator" ∷ "quality-gate" ∷ "committer" ∷ []
order_of github_dev =
    "github-context" ∷ "workspace" ∷ "context-snapshot" ∷ "researcher" ∷ "architect" ∷ "developer"
    ∷ "reviewer" ∷ "qa" ∷ "review-consolidator" ∷ "quality-gate" ∷ "committer" ∷ []
order_of ci_fix =
    "workspace" ∷ "developer" ∷ "reviewer" ∷ "qa" ∷ "review-consolidator" ∷ "quality-gate"
    ∷ "committer" ∷ []
order_of pr_review =
    "pr-workspace" ∷ "pr-jira-context" ∷ "pr-security" ∷ "pr-concurrency" ∷ "pr-error-handling"
    ∷ "pr-observability" ∷ "pr-api-contract" ∷ "pr-idempotency" ∷ "pr-testing" ∷ "pr-integration"
    ∷ "pr-performance" ∷ "pr-data" ∷ "pr-hygiene" ∷ "pr-vendor-resilience" ∷ "pr-docs-concordance"
    ∷ "pr-correctness" ∷ "pr-consolidator" ∷ "pr-cleanup" ∷ []
order_of plan_btu =
    "confluence-reader" ∷ "codebase-researcher" ∷ "plan-architect" ∷ "estimator"
    ∷ "confluence-writer" ∷ []
order_of jira_qa_steps = "qa-context" ∷ "qa-analyzer" ∷ "qa-jira-writer" ∷ []
order_of plan_jira = "page-reader" ∷ "project-manager" ∷ "jira-task-creator" ∷ []
order_of task_creator = "task-creator" ∷ []

order_of-is_ordered : (b : Builtin) → is_ordered (order_of b) (workflow_def_of b).graph ≡ true
unfolding order_of is_ordered workflow_def_of with_reviewers set
order_of-is_ordered develop_only = refl
order_of-is_ordered workspace_dev = refl
order_of-is_ordered pr_feedback = refl
order_of-is_ordered jira_dev = refl
order_of-is_ordered github_dev = refl
order_of-is_ordered ci_fix = refl
order_of-is_ordered pr_review = refl
order_of-is_ordered plan_btu = refl
order_of-is_ordered jira_qa_steps = refl
order_of-is_ordered plan_jira = refl
order_of-is_ordered task_creator = refl

-- No built-in workflow has a cycle: what a handler depends on is not downstream of it.
pub builtin-acyclic :
    (b : Builtin) (h d : String)
    → depends (workflow_def_of b).graph h d ≡ true
    → ¬ Downstream (workflow_def_of b).graph h d
builtin-acyclic b h d e w = absurd (
    omega (
      arith,
      Downstream-rank (order_of b) (workflow_def_of b).graph h (order_of-is_ordered b) w,
      is_ordered_sound (order_of b) (workflow_def_of b).graph h d (order_of-is_ordered b) e,
    ))
