-- ===== src/Runner/Pauses.antt =====
-- internal/engine/pause_controller.go: the correlations that are paused, and the dispatches that wait
-- for their resumption.
use rick_driven_development.Prelude.{String, Bool, true, false, List, [], ◌∷◌, ◌++◌}
use rick_driven_development.Prelude.Dict.{Dict, set, erase, get_or}
use rick_driven_development.Event.Envelope.{Envelope}
use rick_driven_development.Resolver.{Handler}

pub record BlockedDispatch : Type 0 where
  pub handler : Handler
  pub env : Envelope

pub record PauseController : Type 0 where
  pub paused : Dict Bool
  pub blocked : Dict (List BlockedDispatch)

abbrev pub new_pause_controller : PauseController
new_pause_controller = record { paused = []; blocked = [] }

unfoldable pub is_paused : String → PauseController → Bool
is_paused correlation_id p = get_or false correlation_id p.paused

unfoldable pub add_blocked : String → Handler → Envelope → PauseController → PauseController
add_blocked correlation_id h env p = record p {
  blocked =
      set correlation_id
        (get_or [] correlation_id p.blocked ++ record { handler = h; env = env } ∷ []) p.blocked;
}

unfoldable pub pause : String → PauseController → PauseController
pause correlation_id p = record p { paused = set correlation_id true p.paused }

unfoldable pub resume : String → PauseController → PauseController × List BlockedDispatch
resume correlation_id p = (
  record { paused = erase correlation_id p.paused; blocked = erase correlation_id p.blocked },
  get_or [] correlation_id p.blocked,
)

unfoldable pub mark_cancelled : String → PauseController → PauseController
mark_cancelled correlation_id p = record {
  paused = set correlation_id true p.paused;
  blocked = erase correlation_id p.blocked;
}
