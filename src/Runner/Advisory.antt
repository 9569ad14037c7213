-- ===== src/Runner/Advisory.antt =====
-- internal/engine/persona_runner.go: frontRunAdvisoryPause, which pauses a workflow before the batch is
-- published in which a handler reports an advisory failure.
pub mod Escalation
use rick_driven_development.Prelude.{
  String, Bool, ◌&&◌, List, [], ◌∷◌, Option, none, some, ◌==◌, contains, if◌then◌else◌,
}
use rick_driven_development.Event.Payload.{VerdictPayload}
use rick_driven_development.Event.Envelope.{Envelope, verdict_rendered}
use rick_driven_development.Aggregate.Apply.{is_fail}
use rick_driven_development.Resolver.{def_of}
use rick_driven_development.Runner.Pauses.{pause}
use rick_driven_development.Runner.Admission.{PersonaRunner}

-- Only where the engine would escalate: the verdict's persona is required by the workflow.
unfoldable pub pause_if_required : String → VerdictPayload → PersonaRunner → PersonaRunner
pause_if_required correlation_id v r = elim (def_of correlation_id r.resolver) [
  | none ↦ r
  | some def ↦
      if contains def.required v.persona
      then record r { pauser = pause correlation_id r.pauser }
      else r
]

-- The first advisory failure decides.
unfoldable pub scan_advisory : String → List Envelope → PersonaRunner → PersonaRunner
scan_advisory correlation_id [] r = r
scan_advisory correlation_id (ev ∷ events) r =
    let rest = scan_advisory correlation_id events r in
    elim ev.body [
      | verdict_rendered (some v) ↦
          if v.advisory && is_fail v.outcome then pause_if_required correlation_id v r else rest
      | _ ↦ rest
    ]

unfoldable pub front_run_advisory_pause : String → List Envelope → PersonaRunner → PersonaRunner
front_run_advisory_pause correlation_id events r =
    if correlation_id == "" then r else scan_advisory correlation_id events r
