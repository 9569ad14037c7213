-- ===== src/Examples/Data.antt =====
-- The workflows, events and runtimes of the tests.
use rick_driven_development.Prelude.{
  ℕ, String, true, List, [], ◌∷◌, ◌≡◌, refl, some, All, length, arith, leb, ◌&&◌, if◌then◌else◌,
  ◌+◌,
}
use rick_driven_development.Prelude.Dict.{Dict, get_or}
use rick_driven_development.Event.Payload.{
  Bytes, FailureKind, PersonaFailedPayload, VerdictPayload, VerdictOutcome, zero_failed,
  zero_verdict,
}
use rick_driven_development.Event.Envelope.{Envelope, Body, Stamp}
use rick_driven_development.Workflow.Builtin.Development.{develop_only_workflow_def}
use rick_driven_development.Aggregate.Runtime.{Runtime, Outcome, done, panic}
use rick_driven_development.Aggregate.State.{WorkflowAggregate, running, new_workflow_aggregate}
use rick_driven_development.Aggregate.Bounds.{RangesOver}
use rick_driven_development.Aggregate.Decide.Resume.{Decided}

abbrev pub lower_ascii : Bytes → Bytes
lower_ascii [] = []
lower_ascii (b ∷ bs) = (if leb 65 b && leb b 90 then b + 32 else b) ∷ lower_ascii bs

pub length-lower_ascii : (s : Bytes) → length (lower_ascii s) ≡ length s
length-lower_ascii [] = refl
length-lower_ascii (b ∷ bs) = ground (arith, length-lower_ascii bs)

-- The keys of a map, each with what the map says of it.
abbrev pub entries_of : Dict ℕ → Dict ℕ → List (String × ℕ)
entries_of m [] = []
entries_of m ((k, v) ∷ rest) = (k, get_or 0 k m) ∷ entries_of m rest

abbrev pub ranges : Dict ℕ → List (String × ℕ)
ranges m = entries_of m m

abbrev pub plain : Runtime
plain = record {
  to_lower = lower_ascii;
  sha256_hex = λ bytes. "5e884898";
  rate_limit_autopause = "";
  range_order = ranges;
}

entries_of-All : (m l : Dict ℕ) → All (λ e. get_or 0 e.0 m ≡ e.1) (entries_of m l)
entries_of-All m [] = tt
entries_of-All m ((k, v) ∷ rest) = (refl, entries_of-All m rest)

pub plain-RangesOver : RangesOver plain
plain-RangesOver m = entries_of-All m m

abbrev pub stamp : Stamp
stamp = record { id = "evt-9"; now = 1700000000 }

abbrev pub arrives : Body → Envelope
arrives body = record {
  id = "evt-8";
  body = body;
  aggregate_id = "wf-1";
  version = 8;
  schema_version = 1;
  timestamp = 1699999999;
  causation_id = "evt-7";
  correlation_id = "wf-1";
  source = "engine:persona-runner";
}

-- A running workflow of the develop-only kind: the developer has completed, after one round.
abbrev pub midway : WorkflowAggregate
midway = record {
  id = "wf-1";
  version = 7;
  status = running;
  workflow_def = some develop_only_workflow_def;
  completed_personas = ("workspace", true) ∷ ("developer", true) ∷ [];
  skipped_personas = [];
  feedback_count = ("developer", 1) ∷ [];
  feedback_pending = [];
  auto_retries = [];
  tokens_used = 0;
  token_budget = 0;
  max_iterations = 3;
  prompt = "add a cache";
  workflow_id = "develop-only";
  source = "raw";
  ticket = "";
  last_verdict_fingerprint = [];
  last_failing_verdict = [];
  pending_resume_retarget = "";
  pending_resume_retarget_source = "";
  pending_resume_retry_from_phase = "";
}

abbrev pub finished : WorkflowAggregate
finished = record midway {
  completed_personas =
      ("workspace", true) ∷ ("developer", true) ∷ ("reviewer", true) ∷ ("committer", true) ∷ [];
}

abbrev pub failing_verdict : VerdictPayload
failing_verdict = record zero_verdict {
  persona = "developer";
  source_persona = "reviewer";
  outcome = VerdictOutcome.fail;
  summary = "no test covers the eviction";
}

abbrev pub limited : Bytes → PersonaFailedPayload
limited stderr = record zero_failed {
  persona = "developer";
  error = "exit status 1";
  failure_kind = FailureKind.rate_limited;
  backend = "claude";
  stderr = stderr;
}

-- What a decision that returns gives.
abbrev pub result : Outcome Decided → Decided
result (done r) = r
result panic = record { state = new_workflow_aggregate ""; events = [] }
