-- ===== src/Runner/Advisory/Escalation.antt =====
-- internal/engine/persona_runner.go and internal/engine/aggregate.go: frontRunAdvisoryPause beside the
-- engine's own decision on the same events.
use rick_driven_development.Prelude.{
  ◌≡◌, refl, ap, String, true, false, ◌&&◌, List, [], ◌∷◌, ◌++◌, some, arith, contains, Bool-cases,
  inl, inr,
}
use rick_driven_development.Event.Payload.{VerdictPayload, advisory_failure}
use rick_driven_development.Event.Envelope.{
  Envelope, Body, Stamp, verdict_rendered, workflow_paused,
}
use rick_driven_development.Workflow.Def.{WorkflowDef}
use rick_driven_development.Aggregate.Runtime.{Runtime, done}
use rick_driven_development.Aggregate.State.{WorkflowAggregate, running, is_required_persona}
use rick_driven_development.Aggregate.Apply.{is_fail}
use rick_driven_development.Aggregate.Decide.{decide, decide_body}
use rick_driven_development.Aggregate.Decide.Verdicts.{
  decide_verdict_rendered, decide_failing_verdict, escalate_verdict,
}
use rick_driven_development.Aggregate.Emit.{emit}
use rick_driven_development.Aggregate.Decide.Resume.{Decided}
use rick_driven_development.Aggregate.Resumption.{Emits}
use rick_driven_development.Resolver.{def_of}
use rick_driven_development.Runner.Pauses.{is_paused}
use rick_driven_development.Runner.Admission.{PersonaRunner}
use rick_driven_development.Runner.Advisory.{
  pause_if_required, scan_advisory, front_run_advisory_pause,
}

-- `ev` is an advisory failure of the batch whose persona the workflow requires.
pub record IsAdvisoryFailure (def : WorkflowDef) (events : List Envelope) (ev : Envelope)
    (v : VerdictPayload) : Type 0 where
  pub among : (before : List Envelope) × (after : List Envelope) × (events ≡ before ++ ev ∷ after)
  pub rendered : ev.body ≡ verdict_rendered (some v)
  pub advisory : v.advisory ≡ true
  pub failing : is_fail v.outcome ≡ true
  pub is_required : contains def.required v.persona ≡ true

later-IsAdvisoryFailure :
    (def : WorkflowDef) (e : Envelope) (events : List Envelope) (ev : Envelope) (v : VerdictPayload)
    → IsAdvisoryFailure def events ev v
    → IsAdvisoryFailure def (e ∷ events) ev v
later-IsAdvisoryFailure def e events ev v h =
    let (before, after, split) = h.among in
    record {
      among = (e ∷ before, after, ap (λ l. e ∷ l) split);
      rendered = h.rendered;
      advisory = h.advisory;
      failing = h.failing;
      is_required = h.is_required;
    }

pause_if_required-paused :
    (correlation_id : String) (v : VerdictPayload) (r : PersonaRunner) (def : WorkflowDef)
    → def_of correlation_id r.resolver ≡ some def
    → is_paused correlation_id r.pauser ≡ false
    → is_paused correlation_id (pause_if_required correlation_id v r).pauser ≡ true
    → contains def.required v.persona ≡ true
unfolding pause_if_required
pause_if_required-paused correlation_id v r def known before after =
    elim (Bool-cases (contains def.required v.persona)) [
      | inl yes_required ↦ yes_required
      | inr free ↦ absurd (ground (arith, known, before, after, free))
    ]

scan_advisory-paused :
    (correlation_id : String) (events : List Envelope) (r : PersonaRunner) (def : WorkflowDef)
    → def_of correlation_id r.resolver ≡ some def
    → is_paused correlation_id r.pauser ≡ false
    → is_paused correlation_id (scan_advisory correlation_id events r).pauser ≡ true
    → (ev : Envelope) × (v : VerdictPayload) × IsAdvisoryFailure def events ev v
unfolding scan_advisory
scan_advisory-paused correlation_id [] r def known before after =
    absurd (ground (arith, before, after))
scan_advisory-paused correlation_id (e ∷ events) r def known before after =
    by_body e.body refl (scan_advisory-paused correlation_id events r def known before)
  where
    found_later :
        (ev : Envelope) × (v : VerdictPayload) × IsAdvisoryFailure def events ev v
        → (ev : Envelope) × (v : VerdictPayload) × IsAdvisoryFailure def (e ∷ events) ev v
    found_later (ev, v, h) = (ev, v, later-IsAdvisoryFailure def e events ev v h)

    by_body :
        (b : Body)
        → e.body ≡ b
        → (is_paused correlation_id (scan_advisory correlation_id events r).pauser ≡ true
            → (ev : Envelope) × (v : VerdictPayload) × IsAdvisoryFailure def events ev v)
        → (ev : Envelope) × (v : VerdictPayload) × IsAdvisoryFailure def (e ∷ events) ev v
    by_body (verdict_rendered (some v)) eq later =
        elim (Bool-cases (v.advisory && is_fail v.outcome)) [
          | inl hit ↦ (
            e,
            v,
            record {
              among = ([], events, refl);
              rendered = eq;
              advisory = ground (arith, hit);
              failing = ground (arith, hit);
              is_required =
                  pause_if_required-paused correlation_id v r def known before
                    (ground (arith, after, eq, hit));
            },
          )
          | inr miss ↦ found_later (later (ground (arith, after, eq, miss)))
        ]
    by_body _ eq later = found_later (later (ground (arith, after, eq)))

-- The one event of the decision is a pause for the verdict, which asks no persona again.
pub record IsEscalation (v : VerdictPayload) (s : Stamp) (w : WorkflowAggregate) (ev : Envelope)
    (r : Decided) : Type 0 where
  pub kept : r.state ≡ w
  pub pause :
      Emits
        (workflow_paused (
          some (record {
            reason = advisory_failure v.source_persona v.summary v.persona;
            source = "engine:auto-escalation";
            retarget_persona = "";
            retarget_source = "";
            retry_from_phase = "";
            rate_limit_reset_hint = [];
            rate_limit_backend = "";
          })))
        r.events

-- The engine escalates an advisory failure of a running workflow.
decide-escalates :
    (rt : Runtime) (s : Stamp) (w : WorkflowAggregate) (def : WorkflowDef) (events : List Envelope)
    (ev : Envelope) (v : VerdictPayload)
    → w.status ≡ running
    → w.workflow_def ≡ some def
    → IsAdvisoryFailure def events ev v
    → (r : Decided) × (decide rt s w ev ≡ done r) × IsEscalation v s w ev r
unfolding decide decide_body decide_verdict_rendered decide_failing_verdict is_required_persona
    escalate_verdict emit
decide-escalates rt s w def events ev v runs known h = (
  record {
    state = w;
    events = escalate_verdict s w ev (advisory_failure v.source_persona v.summary v.persona) "" "";
  },
  rw (h.rendered, runs, h.failing, known, h.is_required, h.advisory, decide) refl,
  record { kept = refl; pause = refl },
)

-- If the runner pauses a workflow before it publishes a batch, the batch has an advisory failure, of a
-- persona that the workflow requires, at which the engine escalates a running aggregate of that
-- workflow: it decides on one event, a WorkflowPaused for that verdict's failure, with the source
-- "engine:auto-escalation" and without a persona to ask again.
pub front_run_advisory_pause-escalates :
    (correlation_id : String) (events : List Envelope) (r : PersonaRunner) (def : WorkflowDef)
    (rt : Runtime) (s : Stamp) (w : WorkflowAggregate)
    → def_of correlation_id r.resolver ≡ some def
    → w.status ≡ running
    → w.workflow_def ≡ some def
    → is_paused correlation_id r.pauser ≡ false
    → is_paused correlation_id (front_run_advisory_pause correlation_id events r).pauser ≡ true
    → (ev : Envelope) × (v : VerdictPayload) × IsAdvisoryFailure def events ev v
      × (r' : Decided) × (decide rt s w ev ≡ done r')
      × IsEscalation v s w ev r'
unfolding front_run_advisory_pause
front_run_advisory_pause-escalates correlation_id events r def rt s w known runs attached before
      after =
    let (ev, v, h) = scan_advisory-paused correlation_id events r def known before paused in
    let (r', decided, escalation) = decide-escalates rt s w def events ev v runs attached h in
    (ev, v, h, r', decided, escalation)
  where
    paused : is_paused correlation_id (scan_advisory correlation_id events r).pauser ≡ true
    paused = ground (arith, before, after)
