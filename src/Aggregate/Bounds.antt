-- ===== src/Aggregate/Bounds.antt =====
-- internal/engine/aggregate.go: the counts of feedback rounds and automatic retries under decisions.
use rick_driven_development.Prelude.{
  ℕ, ◌+◌, ◌≤◌, ◌≡◌, refl, String, List, [], ◌∷◌, arith, All, leb, Bool-cases, inl, inr,
}
use rick_driven_development.Prelude.Dict.{Dict, get_or, get_or-set}
use rick_driven_development.Event.Payload.{
  Bytes, VerdictPayload, PersonaFailedPayload, WorkflowRetriedPayload, HintEmittedPayload,
  HintRejectedPayload,
}
use rick_driven_development.Event.Envelope.{Envelope, Json, Stamp}
use rick_driven_development.Workflow.Def.{WorkflowDef}
use rick_driven_development.Aggregate.Runtime.{Runtime, done}
use rick_driven_development.Aggregate.State.{WorkflowAggregate, max_auto_retries_per_persona}
use rick_driven_development.Aggregate.Apply.{
  apply, apply_all, apply_body, apply_paused, apply_feedback, invalidate, count_auto_retry,
  apply_retried, apply_completed,
}
use rick_driven_development.Aggregate.Emit.{emit, maybe_emit_workflow_completed}
use rick_driven_development.Aggregate.Decide.Branches.{
  Retries, Pauses, FailureBranch, retried, paused_for, fell_through,
}
use rick_driven_development.Aggregate.Decide.Induction.{DecideCases, decide_induction}
use rick_driven_development.Aggregate.Decide.Failures.{auto_retry_payload, skip_or_fail}
use rick_driven_development.Aggregate.Decide.Verdicts.{
  decide_failing_verdict, escalate_verdict, max_iterations_reached, feedback,
}
use rick_driven_development.Aggregate.Decide.Resume.{
  Decided, retries_on_resume, retargets_on_resume, resume_retry_payload, resume_retry,
  resume_feedback, resume_retarget, resume_scan, decide_workflow_resumed,
}
use rick_driven_development.Aggregate.Decide.Hints.{decide_hint_emitted, decide_hint_rejected}
use rick_driven_development.Aggregate.Decide.{
  decide_workflow_requested, decide_token_budget_exceeded, decide,
}

-- No persona has had more feedback rounds than the limit, nor more automatic retries than the cap.
pub record IsWithinLimits (w : WorkflowAggregate) : Type 0 where
  pub rounds : (p : String) → get_or 0 p w.feedback_count ≤ w.max_iterations
  pub retries : (p : String) → get_or 0 p w.auto_retries ≤ max_auto_retries_per_persona

-- A retry changes neither the rounds nor their limit, and counts itself.
pub record RetryEffect (p : WorkflowRetriedPayload) (w w' : WorkflowAggregate) : Type 0 where
  pub same_rounds : w'.feedback_count ≡ w.feedback_count
  pub same_limit : w'.max_iterations ≡ w.max_iterations
  pub counted : w'.auto_retries ≡ (count_auto_retry p w).auto_retries

invalidate-rounds :
    (ps : List String) (w : WorkflowAggregate)
    → ((invalidate ps w).feedback_count ≡ w.feedback_count)
      × ((invalidate ps w).max_iterations ≡ w.max_iterations)
      × ((invalidate ps w).auto_retries ≡ w.auto_retries)
unfolding invalidate
invalidate-rounds [] w = (refl, refl, refl)
invalidate-rounds (p ∷ ps) w = invalidate-rounds ps _

pub apply_retried-RetryEffect :
    (p : WorkflowRetriedPayload) (w : WorkflowAggregate) → RetryEffect p w (apply_retried p w)
unfolding apply_retried count_auto_retry
apply_retried-RetryEffect p w = ground (arith, invalidate-rounds p.invalidated_personas w)

-- Events that leave the counters alone.
abbrev KeepsCounters : WorkflowAggregate → WorkflowAggregate → Type 0
KeepsCounters w w' =
    (w'.feedback_count ≡ w.feedback_count)
    × (w'.max_iterations ≡ w.max_iterations)
    × (w'.auto_retries ≡ w.auto_retries)

KeepsCounters-IsWithinLimits :
    (w w' : WorkflowAggregate) → KeepsCounters w w' → IsWithinLimits w → IsWithinLimits w'
KeepsCounters-IsWithinLimits w w' k h = record {
  rounds = λ p. ground (arith, h.rounds p);
  retries = λ p. ground (arith, h.retries p);
}

decide_failing_verdict-IsWithinLimits :
    (rt : Runtime) (s : Stamp) (w : WorkflowAggregate) (env : Envelope) (v : VerdictPayload)
    → IsWithinLimits w
    → IsWithinLimits (apply_all rt w (decide_failing_verdict rt s w env v))
unfolding decide_failing_verdict escalate_verdict max_iterations_reached feedback emit apply_all
    apply apply_body apply_paused apply_feedback
decide_failing_verdict-IsWithinLimits rt s w env v h = record {
  rounds = λ p. ground (
    arith,
    h.rounds p,
    get_or-set 0 v.persona p (get_or 0 v.persona w.feedback_count + 1) w.feedback_count,
  );
  retries = λ p. ground (arith, h.retries p);
}

maybe_emit_workflow_completed-kept :
    (rt : Runtime) (s : Stamp) (w : WorkflowAggregate) (env : Envelope)
    → KeepsCounters w (apply_all rt w (maybe_emit_workflow_completed s w env))
unfolding maybe_emit_workflow_completed emit apply_all apply apply_body
maybe_emit_workflow_completed-kept rt s w env = ground arith

skip_or_fail-kept :
    (rt : Runtime) (s : Stamp) (w : WorkflowAggregate) (d : WorkflowDef) (env : Envelope)
    (p : PersonaFailedPayload)
    → KeepsCounters w (apply_all rt w (skip_or_fail s w d env p))
unfolding skip_or_fail emit apply_all apply apply_body
skip_or_fail-kept rt s w d env p = ground (arith, maybe_emit_workflow_completed-kept rt s w env)

Retries-IsWithinLimits :
    (rt : Runtime) (s : Stamp) (w : WorkflowAggregate) (env : Envelope) (d : WorkflowDef)
    (p : PersonaFailedPayload) (e : Envelope)
    → IsWithinLimits w
    → Retries rt s w env d p e
    → IsWithinLimits (apply_all rt w (e ∷ []))
unfolding emit apply_all apply apply_body count_auto_retry
Retries-IsWithinLimits rt s w env d p e h r = rw (r.event) (record {
  rounds = λ x. ground (arith, h.rounds x, effect);
  retries = λ x. ground (
    arith,
    h.retries x,
    effect,
    r.unspent,
    get_or-set 0 p.persona x (get_or 0 p.persona w.auto_retries + 1) w.auto_retries,
  );
})
  where
    next : WorkflowAggregate
    next = record w { version = w.version + 1 }

    effect :
        RetryEffect (auto_retry_payload w d p) next (apply_retried (auto_retry_payload w d p) next)
    effect = apply_retried-RetryEffect (auto_retry_payload w d p) next

Pauses-kept :
    (rt : Runtime) (s : Stamp) (w : WorkflowAggregate) (env : Envelope) (d : WorkflowDef)
    (p : PersonaFailedPayload) (e : Envelope) (hint : Bytes)
    → Pauses rt s w env d p e hint
    → KeepsCounters w (apply_all rt w (e ∷ []))
unfolding emit apply_all apply apply_body apply_paused
Pauses-kept rt s w env d p e hint r = rw (r.event) (refl, refl, refl)

fail_required-IsWithinLimits :
    (rt : Runtime) (s : Stamp) (w : WorkflowAggregate) (env : Envelope) (d : WorkflowDef)
    (p : PersonaFailedPayload) (es : List Envelope)
    → IsWithinLimits w
    → FailureBranch rt s w env d p es
    → IsWithinLimits (apply_all rt w es)
fail_required-IsWithinLimits rt s w env d p es h (retried e r q) =
    rw q (Retries-IsWithinLimits rt s w env d p e h r)
fail_required-IsWithinLimits rt s w env d p es h (paused_for e hint r q) =
    rw q (KeepsCounters-IsWithinLimits w _ (Pauses-kept rt s w env d p e hint r) h)
fail_required-IsWithinLimits rt s w env d p es h (fell_through n q) =
    rw q (KeepsCounters-IsWithinLimits w _ (skip_or_fail-kept rt s w d env p) h)

decide_workflow_requested-kept :
    (rt : Runtime) (s : Stamp) (w : WorkflowAggregate) (env : Envelope)
    → KeepsCounters w (apply_all rt w (decide_workflow_requested s w env))
unfolding decide_workflow_requested emit apply_all apply apply_body
decide_workflow_requested-kept rt s w env = ground arith

decide_token_budget_exceeded-kept :
    (rt : Runtime) (s : Stamp) (w : WorkflowAggregate) (env : Envelope)
    → KeepsCounters w (apply_all rt w (decide_token_budget_exceeded s w env))
unfolding decide_token_budget_exceeded emit apply_all apply apply_body
decide_token_budget_exceeded-kept rt s w env = (refl, refl, refl)

decide_hint_emitted-kept :
    (rt : Runtime) (s : Stamp) (w : WorkflowAggregate) (env : Envelope)
    (j : Json HintEmittedPayload)
    → KeepsCounters w (apply_all rt w (decide_hint_emitted s w env j))
unfolding decide_hint_emitted emit apply_all apply apply_body apply_paused
decide_hint_emitted-kept rt s w env j = ground arith

decide_hint_rejected-kept :
    (rt : Runtime) (s : Stamp) (w : WorkflowAggregate) (env : Envelope)
    (j : Json HintRejectedPayload)
    → KeepsCounters w (apply_all rt w (decide_hint_rejected s w env j))
unfolding decide_hint_rejected emit apply_all apply apply_body apply_completed
decide_hint_rejected-kept rt s w env j = ground arith

-- A `range` over a map of counters visits entries of the map.
abbrev pub RangesOver : Runtime → Type 0
RangesOver rt = (m : Dict ℕ) → All (λ e. get_or 0 e.0 m ≡ e.1) (rt.range_order m)

resume_retry-IsWithinLimits :
    (rt : Runtime) (s : Stamp) (w : WorkflowAggregate) (env : Envelope)
    → IsWithinLimits w
    → IsWithinLimits (apply_all rt w (resume_retry s w env ∷ []))
unfolding resume_retry emit apply_all apply apply_body count_auto_retry
resume_retry-IsWithinLimits rt s w env h =
    KeepsCounters-IsWithinLimits w _
      (ground (arith, apply_retried-RetryEffect (resume_retry_payload w) next)) h
  where
    next : WorkflowAggregate
    next = record w { version = w.version + 1 }

resume_retarget-IsWithinLimits :
    (rt : Runtime) (s : Stamp) (w : WorkflowAggregate) (env : Envelope)
    → IsWithinLimits w
    → let r = resume_retarget s w env in IsWithinLimits (apply_all rt r.state r.events)
unfolding resume_retarget resume_feedback emit apply_all apply apply_body apply_feedback
resume_retarget-IsWithinLimits rt s w env h = record {
  rounds = λ p. ground (
    arith,
    h.rounds p,
    get_or-set 0 w.pending_resume_retarget p
        (get_or 0 w.pending_resume_retarget w.feedback_count + 1) w.feedback_count,
  );
  retries = λ p. ground (arith, h.retries p);
}

resume_scan-IsWithinLimits :
    (rt : Runtime) (s : Stamp) (w : WorkflowAggregate) (env : Envelope) (counts : List (String × ℕ))
    → All (λ e. get_or 0 e.0 w.feedback_count ≡ e.1) counts
    → IsWithinLimits w
    → let r = resume_scan s w env counts in IsWithinLimits (apply_all rt r.state r.events)
unfolding resume_scan resume_feedback emit apply_all apply apply_body apply_feedback
resume_scan-IsWithinLimits rt s w env [] a h = h
resume_scan-IsWithinLimits rt s w env ((persona, count) ∷ counts) a h =
    elim (Bool-cases (leb w.max_iterations count)) [
      | inl hit ↦
          rw (hit, resume_scan)
            (record {
              rounds = λ p. ground (
                arith,
                h.rounds p,
                a.0,
                hit,
                get_or-set 0 persona p (get_or 0 persona w.feedback_count + 1) w.feedback_count,
              );
              retries = λ p. ground (arith, h.retries p);
            })
      | inr miss ↦ rw (miss, resume_scan) (resume_scan-IsWithinLimits rt s w env counts a.1 h)
    ]

decide_workflow_resumed-IsWithinLimits :
    (rt : Runtime) (s : Stamp) (w : WorkflowAggregate) (env : Envelope)
    → RangesOver rt
    → IsWithinLimits w
    → let r = decide_workflow_resumed rt s w env in IsWithinLimits (apply_all rt r.state r.events)
unfolding decide_workflow_resumed apply_all
decide_workflow_resumed-IsWithinLimits rt s w env ranges h =
    elim (Bool-cases (retries_on_resume w w.workflow_def)) [
      | inl e ↦ rw (e, decide_workflow_resumed) (resume_retry-IsWithinLimits rt s w env h)
      | inr e ↦ elim (Bool-cases (retargets_on_resume w)) [
        | inl f ↦ rw (e, f, decide_workflow_resumed) (resume_retarget-IsWithinLimits rt s w env h)
        | inr f ↦
            rw (e, f, decide_workflow_resumed)
              (resume_scan-IsWithinLimits rt s w env (rt.range_order w.feedback_count)
                (ranges w.feedback_count) h)
      ]
    ]

-- Whatever event a workflow within its limits decides on, it is within its limits once the events
-- that the decision emits are applied: no persona has had more feedback rounds than the limit of
-- iterations, which a resume after a pause may raise, nor more than one automatic retry. A `range` over
-- the map of rounds is taken to visit entries of that map.
pub decide-IsWithinLimits :
    (rt : Runtime) (s : Stamp) (w : WorkflowAggregate) (env : Envelope) (r : Decided)
    → RangesOver rt
    → IsWithinLimits w
    → decide rt s w env ≡ done r
    → IsWithinLimits (apply_all rt r.state r.events)
unfolding apply_all
decide-IsWithinLimits rt s w env r ranges h =
    decide_induction (λ w' es. IsWithinLimits (apply_all rt w' es)) rt s w env cases r
  where
    cases : DecideCases (λ w' es. IsWithinLimits (apply_all rt w' es)) rt s w env
    cases = record {
      on_nothing = h;
      on_requested =
          λ _. KeepsCounters-IsWithinLimits w _ (decide_workflow_requested-kept rt s w env) h;
      on_completed =
          KeepsCounters-IsWithinLimits w _ (maybe_emit_workflow_completed-kept rt s w env) h;
      on_failed = λ d p es _ _ _ b. fail_required-IsWithinLimits rt s w env d p es h b;
      on_verdict = λ v _ _ _. decide_failing_verdict-IsWithinLimits rt s w env v h;
      on_budget =
          λ _. KeepsCounters-IsWithinLimits w _ (decide_token_budget_exceeded-kept rt s w env) h;
      on_resumed = λ _. decide_workflow_resumed-IsWithinLimits rt s w env ranges h;
      on_hint = λ j. KeepsCounters-IsWithinLimits w _ (decide_hint_emitted-kept rt s w env j) h;
      on_rejection =
          λ j. KeepsCounters-IsWithinLimits w _ (decide_hint_rejected-kept rt s w env j) h;
    }
