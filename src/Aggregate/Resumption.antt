-- ===== src/Aggregate/Resumption.antt =====
-- internal/engine/aggregate.go: pauses and resumes, and the memory of verdicts.
use Prim.Native.Nat.{max}
use rick_driven_development.Prelude.{
  ℕ, ◌+◌, ◌≤◌, ◌≡◌, refl, ◌≢◌, String, Bool, true, false, not, ◌&&◌, List, [], ◌∷◌, some, arith,
  ◌==◌, eq_iff, leb, if◌then◌else◌, subst, sym,
}
use rick_driven_development.Prelude.Dict.{get_or, get_or-set, get_or-erase}
use rick_driven_development.Event.Payload.{
  Bytes, PersonaFailedPayload, VerdictPayload, WorkflowRetriedPayload, WorkflowResumedPayload,
  rate_limited, text, identical_verdict,
}
use rick_driven_development.Event.Envelope.{
  Envelope, Body, Json, Stamp, persona_failed, verdict_rendered, verdict_tracked, workflow_resumed,
  workflow_retried, feedback_generated, workflow_paused,
}
use rick_driven_development.Workflow.Def.{WorkflowDef}
use rick_driven_development.Workflow.Downstream.{personas_to_invalidate_for}
use rick_driven_development.Aggregate.Runtime.{Runtime, done}
use rick_driven_development.Aggregate.Fingerprint.{verdict_fingerprint}
use rick_driven_development.Aggregate.Failure.{
  kind_is_auto_retryable, extract_rate_limit_reset_hint,
}
use rick_driven_development.Aggregate.State.{
  WorkflowAggregate, paused, zero_cached, is_running, is_required_persona,
}
use rick_driven_development.Aggregate.Apply.{
  apply, apply_all, apply_body, apply_paused, apply_verdict, is_fail, fingerprint_key,
}
use rick_driven_development.Aggregate.Emit.{emit}
use rick_driven_development.Aggregate.Decide.Failures.{
  in_graph, maybe_auto_retry, rate_limit_pause, rate_limit_payload, maybe_rate_limit_pause,
  fail_required, decide_persona_failed,
}
use rick_driven_development.Aggregate.Decide.Verdicts.{
  escalate_verdict, is_repeated_failure, decide_failing_verdict, decide_verdict_rendered,
}
use rick_driven_development.Aggregate.Decide.Resume.{
  Decided, resume_retry, resume_feedback, resume_retarget, decide_workflow_resumed,
}
use rick_driven_development.Aggregate.Decide.{decide_body, decide}

-- The body of the one event that a decision emits.
abbrev pub Emits : Body → List Envelope → Type 0
Emits b [] = ⊥
Emits b (e ∷ []) = e.body ≡ b
Emits b (e ∷ f ∷ es) = ⊥

abbrev pub resumption_retry : WorkflowDef → String → WorkflowRetriedPayload
resumption_retry d persona = record {
  from_phase = persona;
  invalidated_personas = personas_to_invalidate_for d persona;
  reason = text "engine: resume after rate_limited pause";
  automatic = false;
}

module _ (rt : Runtime) (s s' : Stamp) (w : WorkflowAggregate) (d : WorkflowDef)
    (env env' : Envelope) (j : Json WorkflowResumedPayload) (known : w.workflow_def ≡ some d)
    (on : is_running w.status ≡ true) (resumes : env'.body ≡ workflow_resumed j) where
  -- A required persona of the graph of a running workflow that hits a rate limit pauses the workflow
  -- and leaves its automatic retries as they are, where pauses are not switched off and the reset hint
  -- is extracted. The resume that follows retries the workflow from that persona, if it has a name.
  pub rate_limit_roundtrip :
      (p : PersonaFailedPayload) (hint : Bytes)
      → env.body ≡ persona_failed (some p)
      → p.failure_kind ≡ rate_limited
      → p.persona ≢ ""
      → is_required_persona w p.persona ≡ true
      → in_graph d p.persona ≡ true
      → (rt.rate_limit_autopause == "0") ≡ false
      → extract_rate_limit_reset_hint rt.to_lower p.stderr ≡ done hint
      → (r r' : Decided) × (decide rt s w env ≡ done r)
        × ((apply_all rt r.state r.events).status ≡ paused)
        × ((apply_all rt r.state r.events).auto_retries ≡ w.auto_retries)
        × (decide rt s' (apply rt (apply_all rt r.state r.events) env') env' ≡ done r')
        × Emits (workflow_retried (some (resumption_retry d p.persona))) r'.events
  unfolding decide decide_body decide_persona_failed fail_required maybe_auto_retry
      kind_is_auto_retryable maybe_rate_limit_pause rate_limit_pause emit apply_all apply apply_body
      apply_paused decide_workflow_resumed resume_retry
  rate_limit_roundtrip p hint e k n q g a h = (
    record { state = w; events = paused_event ∷ [] },
    decide_workflow_resumed rt s' (apply rt (apply_all rt w (paused_event ∷ [])) env') env',
    ground (arith, e, known, on, k, q, g, a, h),
    refl,
    refl,
    rw resumes refl,
    rw resumes (ground (arith, known, g, n, eq_iff p.persona "")),
  )
    where
      paused_event : Envelope
      paused_event =
          emit s w env "engine:aggregate" (workflow_paused (some (rate_limit_payload p hint)))

  -- A failing verdict that is not advisory, names its source and its target, and repeats the last one of
  -- its source on a required persona pauses the running workflow, however many rounds are left. The resume that follows asks that persona for one more
  -- round on behalf of the same source, and raises the limit of rounds just as far as that needs.
  pub repeated_failure_roundtrip :
      (v : VerdictPayload)
      → env.body ≡ verdict_rendered (some v)
      → is_fail v.outcome ≡ true
      → v.advisory ≡ false
      → v.persona ≢ ""
      → v.source_persona ≢ ""
      → is_required_persona w v.persona ≡ true
      → is_repeated_failure rt w v ≡ true
      → (r r' : Decided) × (decide rt s w env ≡ done r)
        × ((apply_all rt r.state r.events).status ≡ paused)
        × (decide rt s' (apply rt (apply_all rt r.state r.events) env') env' ≡ done r')
        × Emits
            (feedback_generated (
              some (record {
                target_persona = v.persona;
                source_persona = v.source_persona;
                iteration = get_or 0 v.persona w.feedback_count + 1;
                issues = [];
                summary = "re-triggered after operator guidance";
                raw_diagnostics =
                    (get_or zero_cached v.persona w.last_failing_verdict).raw_diagnostics;
              })))
            r'.events
        × (r'.state.max_iterations ≡ max w.max_iterations (get_or 0 v.persona w.feedback_count + 1))
  unfolding decide decide_body decide_verdict_rendered decide_failing_verdict escalate_verdict emit
      apply_all apply apply_body apply_paused decide_workflow_resumed resume_retarget
      resume_feedback is_required_persona
  repeated_failure_roundtrip v e f a n m q g = (
    record { state = w; events = escalation },
    decide_workflow_resumed rt s' (apply rt (apply_all rt w escalation) env') env',
    ground (arith, e, f, a, q, g, on),
    refl,
    rw resumes refl,
    rw resumes (ground (arith, q, known, n, m, eq_iff v.persona "", eq_iff v.source_persona "")),
    rw resumes (ground (arith, q, known, n, m, eq_iff v.persona "", eq_iff v.source_persona "")),
  )
    where
      escalation : List Envelope
      escalation =
          escalate_verdict s w env (identical_verdict v.source_persona v.summary) v.persona
            v.source_persona

apply_verdict-fingerprint :
    (rt : Runtime) (w : WorkflowAggregate) (v : VerdictPayload) (key : String)
    → v.persona ≢ ""
    → v.source_persona ≢ ""
    → key ≡ fingerprint_key v.source_persona v.persona
    → (get_or "" key (apply_verdict rt v w).last_verdict_fingerprint
        ≡ (if is_fail v.outcome then verdict_fingerprint rt.sha256_hex v else ""))
      × ((apply_verdict rt v w).feedback_count ≡ w.feedback_count)
unfolding apply_verdict
apply_verdict-fingerprint rt w v key n m k = ground (
  arith,
  n,
  m,
  k,
  eq_iff v.persona "",
  eq_iff v.source_persona "",
  eq_iff key key,
  get_or-set "" key key (verdict_fingerprint rt.sha256_hex v) w.last_verdict_fingerprint,
  get_or-erase "" key key w.last_verdict_fingerprint,
)

repeats_of_memory :
    (fails : Bool) (fp fp' : String) (n : ℕ)
    → 1 ≤ n
    → let last = if fails then fp else "" in
      (leb 1 n && (not (last == "") && last == fp')) ≡ (fails && (not (fp == "") && fp == fp'))
repeats_of_memory true fp fp' n h = ground arith
repeats_of_memory false fp fp' n h = ground (arith, eq_iff "" "")

-- A tracked verdict that names its source and its target decides what is remembered of them. Once the
-- target has been through a round of feedback, a later verdict of the same source on the same target is
-- a repeated failure exactly if the tracked one failed, and both have the same fingerprint, which is not
-- empty. After a tracked verdict that does not fail, none is.
pub verdict_memory :
    (rt : Runtime) (w : WorkflowAggregate) (env : Envelope) (v v' : VerdictPayload)
    → env.body ≡ verdict_tracked (some v)
    → v.persona ≢ ""
    → v.source_persona ≢ ""
    → v'.persona ≡ v.persona
    → v'.source_persona ≡ v.source_persona
    → 1 ≤ get_or 0 v.persona w.feedback_count
    → let fp = verdict_fingerprint rt.sha256_hex v in
      is_repeated_failure rt (apply rt w env) v'
      ≡ (is_fail v.outcome && (not (fp == "") && fp == verdict_fingerprint rt.sha256_hex v'))
unfolding apply apply_body is_repeated_failure
verdict_memory rt w env v v' e n m p q rounds =
    let (last, counts) =
      apply_verdict-fingerprint rt (record w { version = env.version }) v
        (fingerprint_key v'.source_persona v'.persona) n m (ground (arith, p, q)) in
    rw (e, counts, last)
      (repeats_of_memory (is_fail v.outcome) (verdict_fingerprint rt.sha256_hex v)
        (verdict_fingerprint rt.sha256_hex v') (get_or 0 v'.persona w.feedback_count)
        (subst (λ x. 1 ≤ get_or 0 x w.feedback_count) (sym p) rounds))
