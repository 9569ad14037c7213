-- ===== src/Runner/Results/Depth.antt =====
-- internal/engine/persona_runner.go: a dispatch and the dispatches that its last event leads to.
use rick_driven_development.Prelude.{
  ℕ, ◌+◌, ◌<◌, ◌≡◌, refl, Bool, false, not, ◌&&◌, ◌||◌, List, Option, none, some, ◌==◌, arith,
}
use rick_driven_development.Event.Payload.{Bytes}
use rick_driven_development.Event.Envelope.{Envelope, Stamp}
use rick_driven_development.Aggregate.Failure.{kind_is_auto_retryable, has_idle_watchdog}
use rick_driven_development.Resolver.{Handler}
use rick_driven_development.Runner.Results.{
  Surroundings, Dispatch, DispatchError, ContextError, BackendError, deadline_exceeded, canceled,
  kind_of_backend, classify_dispatch_failure, backend_of, terminal_body, terminal_event,
  failed_body, truncated_body, completed_body,
}
use rick_driven_development.Runner.Admission.{
  PersonaRunner, queued, chain_depth_of, chain_depth_limit, wrap,
}
use rick_driven_development.Runner.Admission.Safety.{wrap-IsAdmissible}

terminal_event-depth :
    (s : Surroundings) (at : Stamp) (h next : Handler) (env : Envelope) (chain_depth depth : ℕ)
    (d : Dispatch) (r : PersonaRunner)
    → chain_depth_of next (terminal_event s at h env chain_depth d) r ≡ some depth
    → depth ≡ chain_depth + 1
unfolding chain_depth_of terminal_event terminal_body failed_body truncated_body completed_body
terminal_event-depth s at h next env chain_depth depth d r known = ground (arith, known)

terminal_event-other :
    (s : Surroundings) (at : Stamp) (h next : Handler) (env : Envelope) (chain_depth depth : ℕ)
    (d : Dispatch) (r : PersonaRunner)
    → chain_depth_of next (terminal_event s at h env chain_depth d) r ≡ some depth
    → (h.name == next.name) ≡ false
unfolding chain_depth_of terminal_event terminal_body failed_body truncated_body completed_body
terminal_event-other s at h next env chain_depth depth d r known = ground (arith, known)

-- The event that ends a dispatch is queued for a handler only if the next dispatch, one deeper than this
-- one, is still within the depth limit of the workflow, and only for another handler.
pub terminal_event-IsShallow :
    (s : Surroundings) (at : Stamp) (h next : Handler) (env : Envelope) (chain_depth : ℕ)
    (d : Dispatch) (r : PersonaRunner) (events : Option (List Envelope)) (starts : Bool)
    → (wrap events next (terminal_event s at h env chain_depth d) r).1 ≡ queued starts
    → (chain_depth + 1 < chain_depth_limit env.correlation_id r) × ((h.name == next.name) ≡ false)
unfolding terminal_event
terminal_event-IsShallow s at h next env chain_depth d r events starts q =
    let (depth, known, shallow) =
      (wrap-IsAdmissible events next (terminal_event s at h env chain_depth d) r starts
        q).concerned in
    (
      omega (arith, shallow, terminal_event-depth s at h next env chain_depth depth d r known),
      terminal_event-other s at h next env chain_depth depth d r known,
    )

-- No other failure is.
kind_of_backend-final :
    (to_lower : Bytes → Bytes) (ctx : Option ContextError) (e : Option BackendError)
    → kind_is_auto_retryable (kind_of_backend to_lower ctx e) (backend_of e) ≡ false
unfolding kind_is_auto_retryable has_idle_watchdog
kind_of_backend-final to_lower none none = refl
kind_of_backend-final to_lower (some deadline_exceeded) none = refl
kind_of_backend-final to_lower (some canceled) none = refl
kind_of_backend-final to_lower ctx (some e) = ground arith

-- A failure is retried automatically exactly when the backend went silent, or ran out of time and is one
-- without an idle watchdog, and no progress timeout was found.
pub classify_dispatch_failure-kind_is_auto_retryable :
    (to_lower : Bytes → Bytes) (ctx : Option ContextError) (err : DispatchError)
    → kind_is_auto_retryable
        (classify_dispatch_failure to_lower ctx err)
        (backend_of err.backend_error)
      ≡ (not err.is_progress_timeout
          && (err.is_idle_timeout
              || (err.is_deadline_exceeded && backend_of err.backend_error == "antigravity")))
unfolding classify_dispatch_failure kind_is_auto_retryable has_idle_watchdog
classify_dispatch_failure-kind_is_auto_retryable to_lower ctx err =
    ground (arith, kind_of_backend-final to_lower ctx err.backend_error)
