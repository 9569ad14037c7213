-- ===== src/Hooks.antt =====
-- internal/engine/hook_registry.go: before-hooks, a persona's further predecessors.
pub mod Registration
use rick_driven_development.Prelude.{
  String, Bool, true, false, List, [], ◌∷◌, ◌++◌, ◌==◌, if◌then◌else◌,
}
use rick_driven_development.Prelude.Dict.{Dict, set, erase, get_or}

abbrev pub HookRegistry : Type 0
HookRegistry = Dict (List String)

unfoldable pub hooks_for : String → HookRegistry → List String
hooks_for name hooks = get_or [] name hooks

unfoldable pub register : String → List String → HookRegistry → HookRegistry
register persona hook_personas hooks = set persona (get_or [] persona hooks ++ hook_personas) hooks

-- The first occurrence leaves.
unfoldable pub remove_hook : String → List String → List String
remove_hook hook_name [] = []
remove_hook hook_name (h ∷ hs) =
    let rest = remove_hook hook_name hs in if h == hook_name then hs else h ∷ rest

abbrev pub has_hooks : List String → Bool
has_hooks [] = false
has_hooks (h ∷ hs) = true

unfoldable pub unregister : String → String → HookRegistry → HookRegistry
unregister persona hook_name hooks =
    let left = remove_hook hook_name (get_or [] persona hooks) in
    if has_hooks left then set persona left hooks else erase persona hooks
