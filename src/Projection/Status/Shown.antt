-- ===== src/Projection/Status/Shown.antt =====
-- internal/projection/workflow.go: what the projection shows after an event.
use rick_driven_development.Prelude.{
  ◌≡◌, refl, ap, ◌∙◌, String, Bool, true, false, none, some, ◌==◌, arith, eq_iff, if◌then◌else◌,
  Bool-cases, inl, inr,
}
use rick_driven_development.Prelude.Dict.{lookup-set}
use rick_driven_development.Event.Envelope.{
  Envelope, Body, workflow_requested, workflow_started, workflow_completed, workflow_failed,
  workflow_cancelled, workflow_paused, workflow_resumed, hint_emitted, hint_approved, hint_rejected,
}
use rick_driven_development.Projection.Status.{
  WorkflowStatus, WorkflowStatusProjection, status_entry, put_status, sync_hint_count,
  add_hint_persona, handle_hint_emitted, remove_hint_persona, status_requested, status_started,
  status_failed, lifecycle, handle_lifecycle, handle,
}

status_entry-put_status :
    (id aggregate_id : String) (ws : WorkflowStatus) (p : WorkflowStatusProjection)
    → status_entry id (put_status aggregate_id ws p)
      ≡ (if aggregate_id == id then ws else status_entry id p)
unfolding status_entry put_status
status_entry-put_status id aggregate_id ws p =
    ground (arith, lookup-set aggregate_id id ws p.workflows, eq_iff aggregate_id id)

put_status-keeps :
    (id aggregate_id : String) (ws : WorkflowStatus) (p : WorkflowStatusProjection)
    → ws.status ≡ (status_entry aggregate_id p).status
    → (status_entry id (put_status aggregate_id ws p)).status ≡ (status_entry id p).status
put_status-keeps id aggregate_id ws p h =
    rw (status_entry-put_status id aggregate_id ws p) (elim (Bool-cases (aggregate_id == id)) [
      | inl same ↦
          rw same (h ∙ ap (λ x. (status_entry x p).status) ((eq_iff aggregate_id id).0 same))
      | inr other ↦ rw other refl
    ])

sync_hint_count-status :
    (id workflow_id : String) (p : WorkflowStatusProjection)
    → (status_entry id (sync_hint_count workflow_id p)).status ≡ (status_entry id p).status
unfolding sync_hint_count
sync_hint_count-status id workflow_id p = put_status-keeps id workflow_id _ p refl

add_hint_persona-status :
    (id workflow_id persona : String) (p : WorkflowStatusProjection)
    → (status_entry id (add_hint_persona workflow_id persona p)).status ≡ (status_entry id p).status
unfolding add_hint_persona status_entry
add_hint_persona-status id workflow_id persona p = refl

handle_hint_emitted-status :
    (id persona : String) (env : Envelope) (p : WorkflowStatusProjection)
    → (status_entry id (handle_hint_emitted env persona p)).status ≡ (status_entry id p).status
unfolding handle_hint_emitted
handle_hint_emitted-status id persona env p = elim (Bool-cases (env.correlation_id == "")) [
  | inl unnamed ↦ rw unnamed refl
  | inr named ↦ rw named (
      sync_hint_count-status id env.correlation_id (add_hint_persona env.correlation_id persona p)
      ∙ hints_apart)
]
  where
    hints_apart :
        (status_entry id (add_hint_persona env.correlation_id persona p)).status
        ≡ (status_entry id p).status
    hints_apart = add_hint_persona-status id env.correlation_id persona p

remove_hint_persona-status :
    (id persona : String) (env : Envelope) (p : WorkflowStatusProjection)
    → (status_entry id (remove_hint_persona env persona p)).status ≡ (status_entry id p).status
unfolding remove_hint_persona status_entry
remove_hint_persona-status id persona env p = sync_hint_count-status id _ _

-- What the projection shows after an event of the workflow's aggregate.
abbrev pub shown : Body → String → String
shown (workflow_requested (some payload)) s = "requested"
shown (workflow_started id (some payload)) s = "running"
shown (workflow_completed j) s = "completed"
shown (workflow_failed (some payload)) s = "failed"
shown (workflow_cancelled j) s = "cancelled"
shown (workflow_paused j) s = "paused"
shown (workflow_resumed j) s = "running"
shown _ s = s

-- The entry of the event's aggregate takes the status that the event gives, others keep theirs.
put_status-shown :
    (id aggregate_id : String) (b : Body) (ws : WorkflowStatus) (p : WorkflowStatusProjection)
    → ws.status ≡ shown b (status_entry aggregate_id p).status
    → (status_entry id (put_status aggregate_id ws p)).status ≡ (
        if aggregate_id == id
        then shown b (status_entry id p).status
        else (status_entry id p).status)
put_status-shown id aggregate_id b ws p h =
    rw (status_entry-put_status id aggregate_id ws p) (elim (Bool-cases (aggregate_id == id)) [
      | inl same ↦
          rw same
            (h ∙ ap (λ x. shown b (status_entry x p).status) ((eq_iff aggregate_id id).0 same))
      | inr other ↦ rw other refl
    ])

if_same : (b : Bool) (s : String) → s ≡ (if b then s else s)
if_same true s = refl
if_same false s = refl

pub handle-shown :
    (id : String) (env : Envelope) (p : WorkflowStatusProjection)
    → (status_entry id (handle env p).0).status ≡ (
        if env.aggregate_id == id
        then shown env.body (status_entry id p).status
        else (status_entry id p).status)
unfolding handle handle_lifecycle lifecycle status_requested status_started status_failed
handle-shown id env p = by_body env.body refl
  where
    by_body :
        (b : Body)
        → env.body ≡ b
        → (status_entry id (handle env p).0).status ≡ (
            if env.aggregate_id == id
            then shown env.body (status_entry id p).status
            else (status_entry id p).status)
    by_body (workflow_requested none) e =
        rw e (put_status-shown id env.aggregate_id (workflow_requested none) _ p refl)
    by_body (workflow_requested (some x)) e =
        rw e (put_status-shown id env.aggregate_id (workflow_requested (some x)) _ p refl)
    by_body (workflow_started i none) e =
        rw e (put_status-shown id env.aggregate_id (workflow_started i none) _ p refl)
    by_body (workflow_started i (some x)) e =
        rw e (put_status-shown id env.aggregate_id (workflow_started i (some x)) _ p refl)
    by_body (workflow_completed j) e =
        rw e (put_status-shown id env.aggregate_id (workflow_completed j) _ p refl)
    by_body (workflow_failed none) e =
        rw e (put_status-shown id env.aggregate_id (workflow_failed none) _ p refl)
    by_body (workflow_failed (some x)) e =
        rw e (put_status-shown id env.aggregate_id (workflow_failed (some x)) _ p refl)
    by_body (workflow_cancelled j) e =
        rw e (put_status-shown id env.aggregate_id (workflow_cancelled j) _ p refl)
    by_body (workflow_paused j) e =
        rw e (put_status-shown id env.aggregate_id (workflow_paused j) _ p refl)
    by_body (workflow_resumed j) e =
        rw e (put_status-shown id env.aggregate_id (workflow_resumed j) _ p refl)
    by_body (hint_emitted none) e = rw e (if_same _ _)
    by_body (hint_emitted (some x)) e = rw e (
        handle_hint_emitted-status id x.persona (record env { body = hint_emitted (some x) }) p
        ∙ if_same _ _)
    by_body (hint_approved none) e = rw e (if_same _ _)
    by_body (hint_approved (some x)) e = rw e (
        remove_hint_persona-status id x.persona (record env { body = hint_approved (some x) }) p
        ∙ if_same _ _)
    by_body (hint_rejected none) e = rw e (if_same _ _)
    by_body (hint_rejected (some x)) e = rw e (
        remove_hint_persona-status id x.persona (record env { body = hint_rejected (some x) }) p
        ∙ if_same _ _)
    by_body _ e = rw e (if_same _ _)
