-- ===== src/Projection/Status/Agreement.antt =====
-- internal/projection/workflow.go beside internal/engine/aggregate.go: the status of a workflow.
use rick_driven_development.Prelude.{
  ◌≡◌, refl, ap, sym, ◌∙◌, String, Bool, true, false, not, ◌&&◌, List, [], ◌∷◌, none, ◌==◌, arith,
  All, if◌then◌else◌, Bool-cases, inl, inr,
}
use rick_driven_development.Event.Envelope.{
  Envelope, Body, workflow_requested, workflow_started, workflow_completed, workflow_failed,
  workflow_cancelled, workflow_paused, workflow_resumed, workflow_retried, persona_failed_tracked,
  feedback_generated, verdict_tracked,
}
use rick_driven_development.Aggregate.Runtime.{Runtime}
use rick_driven_development.Aggregate.State.{
  Status, WorkflowAggregate, requested, running, completed, failed, cancelled, paused,
}
use rick_driven_development.Aggregate.Apply.{
  apply, apply_body, apply_all, apply_requested, apply_paused, apply_retried, apply_completed,
  apply_failed, apply_feedback, apply_verdict,
}
use rick_driven_development.Projection.Status.{
  WorkflowStatusProjection, status_entry, handle, handle_all,
}
use rick_driven_development.Projection.Status.Shown.{shown, handle-shown}

-- The projection's word for a status of the aggregate.
abbrev pub status_name : Status → String
status_name requested = "requested"
status_name running = "running"
status_name completed = "completed"
status_name failed = "failed"
status_name cancelled = "cancelled"
status_name paused = "paused"

abbrev pub next_status : Body → Status → Status
next_status (workflow_requested j) s = requested
next_status (workflow_started id j) s = running
next_status (workflow_completed j) s = completed
next_status (workflow_failed j) s = failed
next_status (workflow_cancelled j) s = cancelled
next_status (workflow_paused j) s = paused
next_status (workflow_resumed j) s = running
next_status (workflow_retried j) s = running
next_status _ s = s

abbrev pub is_retry : Body → Bool
is_retry (workflow_retried j) = true
is_retry _ = false

-- A payload that the projection reads parses.
abbrev pub parses : Body → Bool
parses (workflow_requested none) = false
parses (workflow_started id none) = false
parses (workflow_failed none) = false
parses _ = true

-- The aggregate's own events, without the retries.
abbrev pub lifecycle_of : String → List Envelope → List Envelope
lifecycle_of id [] = []
lifecycle_of id (env ∷ envs) =
    let rest = lifecycle_of id envs in
    if env.aggregate_id == id && not (is_retry env.body) then env ∷ rest else rest

apply_body-status :
    (rt : Runtime) (b : Body) (w : WorkflowAggregate)
    → (apply_body rt b w).status ≡ next_status b w.status
unfolding apply_body apply_requested apply_paused apply_retried apply_completed apply_failed
    apply_feedback apply_verdict
apply_body-status rt (workflow_requested j) w = refl
apply_body-status rt (workflow_started id j) w = refl
apply_body-status rt (workflow_completed j) w = refl
apply_body-status rt (workflow_failed j) w = refl
apply_body-status rt (workflow_cancelled j) w = refl
apply_body-status rt (workflow_paused j) w = refl
apply_body-status rt (workflow_resumed j) w = refl
apply_body-status rt (workflow_retried j) w = refl
apply_body-status rt (persona_failed_tracked j) w = ground arith
apply_body-status rt (feedback_generated j) w = ground arith
apply_body-status rt (verdict_tracked j) w = ground arith
apply_body-status rt _ w = refl

shown-next_status :
    (b : Body) (s : Status)
    → parses b ≡ true
    → is_retry b ≡ false
    → shown b (status_name s) ≡ status_name (next_status b s)
shown-next_status (workflow_requested none) s h r = absurd (ground (arith, h))
shown-next_status (workflow_started id none) s h r = absurd (ground (arith, h))
shown-next_status (workflow_failed none) s h r = absurd (ground (arith, h))
shown-next_status (workflow_retried j) s h r = absurd (ground (arith, r))
shown-next_status _ s h r = refl

retry-shown : (b : Body) (s : String) → is_retry b ≡ true → shown b s ≡ s
retry-shown (workflow_retried j) s h = refl
retry-shown _ s h = absurd (ground (arith, h))

-- What the projection shows after one event.
handle-Agrees :
    (rt : Runtime) (id : String) (env : Envelope) (p : WorkflowStatusProjection)
    (w : WorkflowAggregate)
    → parses env.body ≡ true
    → (status_entry id p).status ≡ status_name w.status
    → (status_entry id (handle env p).0).status
      ≡ status_name
          (if env.aggregate_id == id && not (is_retry env.body) then apply rt w env else w).status
unfolding apply
handle-Agrees rt id env p w read same =
    handle-shown id env p ∙ (elim (Bool-cases (env.aggregate_id == id)) [
      | inr other ↦ rw other same
      | inl own ↦ elim (Bool-cases (is_retry env.body)) [
        | inl retry ↦ rw (own, retry) (retry-shown env.body (status_entry id p).status retry ∙ same)
        | inr plain ↦
            rw (own, plain, same)
              (shown-next_status env.body w.status read plain
                ∙ ap status_name
                    (sym (apply_body-status rt env.body (record w { version = env.version }))))
      ]
    ])

-- The status that the projection shows for an aggregate is that of the aggregate itself, folded over its
-- own events without the retries: on any interleaving of events of all aggregates, when the two agree
-- at first and the payloads that the projection reads parse.
pub handle_all-apply_all :
    (rt : Runtime) (id : String) (envs : List Envelope) (p : WorkflowStatusProjection)
    (w : WorkflowAggregate)
    → All (λ env. parses env.body ≡ true) envs
    → (status_entry id p).status ≡ status_name w.status
    → (status_entry id (handle_all envs p)).status
      ≡ status_name (apply_all rt w (lifecycle_of id envs)).status
unfolding handle_all apply_all
handle_all-apply_all rt id [] p w ps same = same
handle_all-apply_all rt id (env ∷ envs) p w ps same =
    let next = if env.aggregate_id == id && not (is_retry env.body) then apply rt w env else w in
    handle_all-apply_all rt id envs (handle env p).0 next ps.1
      (handle-Agrees rt id env p w ps.0 same)
    ∙ ap (λ v. status_name v.status) (fold_next (env.aggregate_id == id && not (is_retry env.body)))
  where
    fold_next :
        (b : Bool)
        → apply_all rt (if b then apply rt w env else w) (lifecycle_of id envs)
          ≡ apply_all rt w (if b then env ∷ lifecycle_of id envs else lifecycle_of id envs)
    fold_next true = refl
    fold_next false = refl
