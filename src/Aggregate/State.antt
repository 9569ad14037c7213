-- ===== src/Aggregate/State.antt =====
-- internal/engine/aggregate.go: the aggregate's state. Go's `int` counters that count events are ℕ;
-- a missing key of a map reads as its zero value.
use rick_driven_development.Prelude.{
  ℕ, String, Bool, false, true, not, ◌&&◌, List, [], ◌∷◌, Option, none, some, contains,
}
use rick_driven_development.Prelude.Dict.{Dict, lookup, get_or}
use rick_driven_development.Workflow.Def.{WorkflowDef}

pub data Status : Type 0 where
  requested running completed failed cancelled paused : Status

pub record CachedVerdict : Type 0 where
  pub source_persona : String
  pub raw_diagnostics : String

abbrev pub zero_cached : CachedVerdict
zero_cached = record { source_persona = ""; raw_diagnostics = "" }

pub record WorkflowAggregate : Type 0 where
  pub id : String
  pub version : ℕ
  pub status : Status
  pub workflow_def : Option WorkflowDef
  pub completed_personas : Dict Bool
  pub skipped_personas : Dict Bool
  pub feedback_count : Dict ℕ
  pub feedback_pending : Dict String
  pub auto_retries : Dict ℕ
  pub tokens_used : ℕ
  pub token_budget : ℕ
  pub max_iterations : ℕ
  pub prompt : String
  pub workflow_id : String
  pub source : String
  pub ticket : String
  pub last_verdict_fingerprint : Dict String
  pub last_failing_verdict : Dict CachedVerdict
  pub pending_resume_retarget : String
  pub pending_resume_retarget_source : String
  pub pending_resume_retry_from_phase : String

abbrev pub max_auto_retries_per_persona : ℕ
max_auto_retries_per_persona = 1

unfoldable pub new_workflow_aggregate : String → WorkflowAggregate
new_workflow_aggregate id = record {
  id = id;
  version = 0;
  status = requested;
  workflow_def = none;
  completed_personas = [];
  skipped_personas = [];
  feedback_count = [];
  feedback_pending = [];
  auto_retries = [];
  tokens_used = 0;
  token_budget = 0;
  max_iterations = 3;
  prompt = "";
  workflow_id = "";
  source = "";
  ticket = "";
  last_verdict_fingerprint = [];
  last_failing_verdict = [];
  pending_resume_retarget = "";
  pending_resume_retarget_source = "";
  pending_resume_retry_from_phase = "";
}

-- w.CompletedPersonas[persona]
unfoldable pub has_completed : WorkflowAggregate → String → Bool
has_completed w persona = get_or false persona w.completed_personas

unfoldable pub is_stale_after_feedback : WorkflowAggregate → String → Bool
is_stale_after_feedback w persona = elim (lookup persona w.feedback_pending) [
  | none ↦ false
  | some target ↦ not (has_completed w target)
]

-- The status test that most decisions begin with.
abbrev pub is_running : Status → Bool
is_running running = true
is_running _ = false

abbrev pub is_requested : Status → Bool
is_requested requested = true
is_requested _ = false

abbrev pub is_paused : Status → Bool
is_paused paused = true
is_paused _ = false

unfoldable pub is_required_persona : WorkflowAggregate → String → Bool
is_required_persona w persona = elim w.workflow_def [
  | none ↦ false
  | some d ↦ contains d.required persona
]

-- for _, req := range Required { if !CompletedPersonas[req] … }
unfoldable pub all_completed : WorkflowAggregate → List String → Bool
unfolding has_completed
all_completed w [] = true
all_completed w (r ∷ rs) = has_completed w r && all_completed w rs

unfoldable pub is_category_reviewer : String → Bool
unfolding contains
is_category_reviewer persona = contains category_reviewers persona
  where
    category_reviewers : List String
    category_reviewers =
        "pr-security" ∷ "pr-concurrency" ∷ "pr-error-handling" ∷ "pr-observability"
        ∷ "pr-api-contract" ∷ "pr-idempotency" ∷ "pr-testing" ∷ "pr-integration" ∷ "pr-performance"
        ∷ "pr-data" ∷ "pr-hygiene" ∷ "pr-vendor-resilience" ∷ "pr-docs-concordance"
        ∷ "pr-stale-reference" ∷ []
