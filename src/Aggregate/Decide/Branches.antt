-- ===== src/Aggregate/Decide/Branches.antt =====
-- The ways in which a decision comes out, with what each says of the state.
use rick_driven_development.Prelude.{
  ◌<◌, ◌≡◌, refl, ◌⊎◌, inl, inr, true, List, [], ◌∷◌, Option, none, some, arith, Option-cases, sym,
  ◌∙◌,
}
use rick_driven_development.Prelude.Dict.{get_or}
use rick_driven_development.Event.Payload.{
  Bytes, VerdictPayload, PersonaFailedPayload, zero_verdict, zero_failed,
}
use rick_driven_development.Event.Envelope.{
  Envelope, Json, Stamp, unmarshal, workflow_retried, workflow_paused,
}
use rick_driven_development.Workflow.Def.{WorkflowDef}
use rick_driven_development.Aggregate.Runtime.{Runtime, Outcome, done, panic, Outcome-cases}
use rick_driven_development.Aggregate.Failure.{
  failure_kind_is_auto_retryable, is_rate_limited, extract_rate_limit_reset_hint,
}
use rick_driven_development.Aggregate.State.{
  WorkflowAggregate, is_running, is_required_persona, max_auto_retries_per_persona,
}
use rick_driven_development.Aggregate.Apply.{is_fail}
use rick_driven_development.Aggregate.Emit.{emit}
use rick_driven_development.Aggregate.Decide.Failures.{
  in_graph, auto_retry_payload, maybe_auto_retry, rate_limit_payload, rate_limit_pause,
  maybe_rate_limit_pause, skip_or_fail, fail_required, decide_persona_failed, pause_or,
}
use rick_driven_development.Aggregate.Decide.Verdicts.{
  decide_failing_verdict, decide_verdict_rendered,
}

module _ (rt : Runtime) (s : Stamp) (w : WorkflowAggregate) (env : Envelope) where
  -- A verdict is passed over, or it fails a required persona of a running workflow.
  pub data VerdictBranch (v : VerdictPayload) (es : List Envelope) : Type 0 where
    passed_over : es ≡ [] → VerdictBranch v es
    judged :
        is_running w.status ≡ true
        → is_fail v.outcome ≡ true
        → is_required_persona w v.persona ≡ true
        → es ≡ decide_failing_verdict rt s w env v
        → VerdictBranch v es

  pub decide_verdict_rendered-branch :
      (j : Json VerdictPayload)
      → VerdictBranch (unmarshal zero_verdict j) (decide_verdict_rendered rt s w env j)
  unfolding decide_verdict_rendered
  decide_verdict_rendered-branch j = elim cases [
    | inl e ↦ passed_over e
    | inr (a, b, c, e) ↦ judged a b c e
  ]
    where
      v : VerdictPayload
      v = unmarshal zero_verdict j

      cases :
          (decide_verdict_rendered rt s w env j ≡ [])
          ⊎ ((is_running w.status ≡ true)
              × (is_fail v.outcome ≡ true)
              × (is_required_persona w v.persona ≡ true)
              × (decide_verdict_rendered rt s w env j ≡ decide_failing_verdict rt s w env v))
      cases = ground arith

  module _ (d : WorkflowDef) (p : PersonaFailedPayload) where
    pub record Retries (e : Envelope) : Type 0 where
      pub retryable : failure_kind_is_auto_retryable p ≡ true
      pub unspent : get_or 0 p.persona w.auto_retries < max_auto_retries_per_persona
      pub known : in_graph d p.persona ≡ true
      pub event :
          e ≡ emit s w env "engine:aggregate" (workflow_retried (some (auto_retry_payload w d p)))

    pub maybe_auto_retry-Retries :
        (e : Envelope) → maybe_auto_retry s w d env p ≡ some e → Retries e
    unfolding maybe_auto_retry
    maybe_auto_retry-Retries e q = ground arith

    pub record Pauses (e : Envelope) (hint : Bytes) : Type 0 where
      pub limited : is_rate_limited p.failure_kind ≡ true
      pub known : in_graph d p.persona ≡ true
      pub hinted : extract_rate_limit_reset_hint rt.to_lower p.stderr ≡ done hint
      pub event :
          e ≡ emit s w env "engine:aggregate" (workflow_paused (some (rate_limit_payload p hint)))

    pub maybe_rate_limit_pause-Pauses :
        (e : Envelope)
        → maybe_rate_limit_pause rt s w d env p ≡ done (some e)
        → (hint : Bytes) × Pauses e hint
    unfolding maybe_rate_limit_pause rate_limit_pause
    maybe_rate_limit_pause-Pauses e q =
        elim (Outcome-cases (extract_rate_limit_reset_hint rt.to_lower p.stderr)) [
          | inl bad ↦ absurd (ground (arith, bad))
          | inr (hint, found) ↦ (hint, ground (arith, found))
        ]

    -- A required persona's failure is retried, pauses the workflow, or is skipped or fails it.
    pub data FailureBranch (es : List Envelope) : Type 0 where
      retried : (e : Envelope) → Retries e → es ≡ e ∷ [] → FailureBranch es
      paused_for : (e : Envelope) (hint : Bytes) → Pauses e hint → es ≡ e ∷ [] → FailureBranch es
      fell_through :
          maybe_auto_retry s w d env p ≡ none → es ≡ skip_or_fail s w d env p → FailureBranch es

    pub fail_required-branch :
        (es : List Envelope) → fail_required rt s w d env p ≡ done es → FailureBranch es
    unfolding fail_required
    fail_required-branch es q = elim (Option-cases (maybe_auto_retry s w d env p)) [
      | inr (e, r) ↦ retried e (maybe_auto_retry-Retries e r) (ground (arith, r))
      | inl r ↦ pause_branch (maybe_rate_limit_pause rt s w d env p) refl r (sym (reduced r) ∙ q)
    ]
      where
        reduced :
            maybe_auto_retry s w d env p ≡ none
            → fail_required rt s w d env p
              ≡ pause_or (skip_or_fail s w d env p) (maybe_rate_limit_pause rt s w d env p)
        reduced r = ground (arith, r)

        pause_branch :
            (o : Outcome (Option Envelope))
            → maybe_rate_limit_pause rt s w d env p ≡ o
            → maybe_auto_retry s w d env p ≡ none
            → pause_or (skip_or_fail s w d env p) (maybe_rate_limit_pause rt s w d env p) ≡ done es
            → FailureBranch es
        pause_branch panic r n q' = absurd (ground (arith, r))
        pause_branch (done none) r n q' = fell_through n (ground (arith, r))
        pause_branch (done (some e)) r n q' =
            let (hint, pauses) = maybe_rate_limit_pause-Pauses e r in
            paused_for e hint pauses (ground (arith, r))

  -- A failure is passed over, or it is of a required persona of a running workflow.
  pub data FailedBranch (p : PersonaFailedPayload) (es : List Envelope) : Type 0 where
    ignored : es ≡ [] → FailedBranch p es
    handled :
        (d : WorkflowDef)
        → w.workflow_def ≡ some d
        → is_running w.status ≡ true
        → is_required_persona w p.persona ≡ true
        → fail_required rt s w d env p ≡ done es
        → FailedBranch p es

  pub decide_persona_failed-branch :
      (j : Json PersonaFailedPayload) (es : List Envelope)
      → decide_persona_failed rt s w env j ≡ done es
      → FailedBranch (unmarshal zero_failed j) es
  unfolding decide_persona_failed
  decide_persona_failed-branch j es q = elim (Option-cases w.workflow_def) [
    | inl n ↦ ignored (ground (arith, n))
    | inr (d, e) ↦ elim (cases d e) [ inl n ↦ ignored n | inr (a, b, c) ↦ handled d e a b c ]
  ]
    where
      p : PersonaFailedPayload
      p = unmarshal zero_failed j

      cases :
          (d : WorkflowDef)
          → w.workflow_def ≡ some d
          → (es ≡ [])
            ⊎ ((is_running w.status ≡ true)
                × (is_required_persona w p.persona ≡ true)
                × (fail_required rt s w d env p ≡ done es))
      cases d e = ground (arith, e)
