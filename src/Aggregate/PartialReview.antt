-- ===== src/Aggregate/PartialReview.antt =====
-- internal/engine/aggregate.go and workflow_def.go: failures of the reviewers of the pr-review workflow.
use rick_driven_development.Prelude.{
  ◌≡◌, ◌≢◌, refl, ◌∙◌, sym, String, Bool, true, false, not, ◌||◌, List, [], ◌∷◌, ◌++◌, some, arith,
  ◌==◌, eq_iff, contains, contains-append, Bool-cases, inl, inr, subst, ap,
}
use rick_driven_development.Prelude.Dict.{get_or-set}
use rick_driven_development.Event.Payload.{PersonaFailedPayload}
use rick_driven_development.Event.Envelope.{Envelope, Body, Stamp, workflow_failed}
use rick_driven_development.Workflow.Builtin.Planning.{
  pr_category_reviewers, pr_review_workflow_def,
}
use rick_driven_development.Aggregate.State.{WorkflowAggregate, has_completed, is_category_reviewer}
use rick_driven_development.Aggregate.Apply.{absorbs_failures, apply_failed}
use rick_driven_development.Aggregate.Emit.{emit, maybe_emit_workflow_completed}
use rick_driven_development.Aggregate.Decide.Failures.{skip_or_fail}

abbrev pub is_failure : Body → Bool
is_failure (workflow_failed j) = true
is_failure _ = false

-- Some event declares the workflow failed.
abbrev pub fails : List Envelope → Bool
fails [] = false
fails (e ∷ es) = is_failure e.body || fails es

-- The reviewers that the workflow's definition and the aggregate both list.
shared_reviewers : List String
shared_reviewers =
    "pr-security" ∷ "pr-concurrency" ∷ "pr-error-handling" ∷ "pr-observability" ∷ "pr-api-contract"
    ∷ "pr-idempotency" ∷ "pr-testing" ∷ "pr-integration" ∷ "pr-performance" ∷ "pr-data"
    ∷ "pr-hygiene" ∷ "pr-vendor-resilience" ∷ "pr-docs-concordance" ∷ []

reviewers-split : pr_category_reviewers ≡ shared_reviewers ++ "pr-correctness" ∷ []
unfolding shared_reviewers
reviewers-split = refl

is_category_reviewer-split :
    (x : String)
    → is_category_reviewer x ≡ contains (shared_reviewers ++ "pr-stale-reference" ∷ []) x
unfolding is_category_reviewer shared_reviewers
is_category_reviewer-split x = refl

correctness_unlisted : is_category_reviewer "pr-correctness" ≡ false
unfolding is_category_reviewer contains
correctness_unlisted = refl

listed_but_correctness :
    (x : String)
    → contains pr_category_reviewers x ≡ true
    → is_category_reviewer x ≡ not (x == "pr-correctness")
unfolding contains
listed_but_correctness x m = elim (Bool-cases (x == "pr-correctness")) [
  | inl e ↦
      ap is_category_reviewer ((eq_iff x "pr-correctness").0 e)
      ∙ correctness_unlisted
      ∙ sym (ap not e)
  | inr e ↦
      let split : contains (shared_reviewers ++ "pr-correctness" ∷ []) x ≡ true =
        subst (λ l. contains l x ≡ true) reviewers-split m in
      ground (
        arith,
        split,
        e,
        eq_iff x "pr-correctness",
        eq_iff "pr-correctness" x,
        is_category_reviewer-split x,
        contains-append shared_reviewers ("pr-correctness" ∷ []) x,
        contains-append shared_reviewers ("pr-stale-reference" ∷ []) x,
      )
]

completion-not_failed :
    (s : Stamp) (w : WorkflowAggregate) (env : Envelope)
    → fails (maybe_emit_workflow_completed s w env) ≡ false
unfolding maybe_emit_workflow_completed emit
completion-not_failed s w env = ground arith

-- In the pr-review workflow the failure of a category reviewer that is neither retried nor paused on
-- marks the reviewer as completed and lets the workflow go on, for every category reviewer that the
-- workflow requires except pr-correctness, whose failure fails the workflow.
pub reviewer_failure :
    (s : Stamp) (w : WorkflowAggregate) (env : Envelope) (p : PersonaFailedPayload)
    → w.workflow_def ≡ some pr_review_workflow_def
    → contains pr_category_reviewers p.persona ≡ true
    → p.persona ≢ ""
    → (has_completed (apply_failed p w) p.persona
        ≡ (not (p.persona == "pr-correctness") || has_completed w p.persona))
      × (fails (skip_or_fail s w pr_review_workflow_def env p) ≡ (p.persona == "pr-correctness"))
unfolding apply_failed absorbs_failures has_completed skip_or_fail emit
reviewer_failure s w env p d m n = (
  ground (
    arith,
    d,
    n,
    eq_iff p.persona "",
    eq_iff p.persona p.persona,
    listed_but_correctness p.persona m,
    get_or-set false p.persona p.persona true w.completed_personas,
  ),
  ground (arith, listed_but_correctness p.persona m, completion-not_failed s w env),
)
