-- ===== src/Hooks/Registration.antt =====
-- internal/engine/hook_registry.go: register and unregister.
use rick_driven_development.Prelude.{
  ◌≡◌, String, List, [], ◌∷◌, ◌++◌, ◌==◌, eq_iff, eq_refl, arith, if◌then◌else◌, contains, false,
}
use rick_driven_development.Prelude.Dict.{get_or, get_or-set, get_or-erase}
use rick_driven_development.Hooks.{HookRegistry, hooks_for, register, unregister, remove_hook}

pub hooks_for-register :
    (persona name : String) (added : List String) (hooks : HookRegistry)
    → hooks_for name (register persona added hooks)
      ≡ (if persona == name then hooks_for name hooks ++ added else hooks_for name hooks)
unfolding hooks_for register
hooks_for-register persona name added hooks = ground (
  arith,
  get_or-set [] persona name (get_or [] persona hooks ++ added) hooks,
  eq_iff persona name,
)

pub hooks_for-unregister :
    (persona name hook_name : String) (hooks : HookRegistry)
    → hooks_for name (unregister persona hook_name hooks) ≡ (
        if persona == name
        then remove_hook hook_name (hooks_for name hooks)
        else hooks_for name hooks)
unfolding hooks_for unregister
hooks_for-unregister persona name hook_name hooks =
    let left = remove_hook hook_name (get_or [] persona hooks) in
    ground (
      arith,
      get_or-set [] persona name left hooks,
      get_or-erase [] persona name hooks,
      eq_iff persona name,
    )

remove_hook-append :
    (hook_name : String) (hs : List String)
    → contains hs hook_name ≡ false
    → remove_hook hook_name (hs ++ hook_name ∷ []) ≡ hs
unfolding contains remove_hook
remove_hook-append hook_name [] fresh = ground (arith, eq_refl hook_name)
remove_hook-append hook_name (h ∷ hs) fresh = ground (arith, remove_hook-append hook_name hs)

-- A hook that the persona did not have leaves again when it is unregistered.
pub unregister-register :
    (persona name hook_name : String) (hooks : HookRegistry)
    → contains (hooks_for persona hooks) hook_name ≡ false
    → hooks_for name (unregister persona hook_name (register persona (hook_name ∷ []) hooks))
      ≡ hooks_for name hooks
unregister-register persona name hook_name hooks fresh = ground (
  arith,
  hooks_for-unregister persona name hook_name (register persona (hook_name ∷ []) hooks),
  hooks_for-register persona name (hook_name ∷ []) hooks,
  remove_hook-append hook_name (hooks_for persona hooks) fresh,
  eq_iff persona name,
)
