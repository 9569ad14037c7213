-- ===== src/Runner/Admission.antt =====
-- internal/engine/persona_runner.go: wrap, which admits an event for a handler, the queue that it enters
-- and the replay of what a pause has blocked. `events` is what the store loads of the correlation;
-- a dropped event is reported with its reason, and the log is left out.
pub mod Replay
pub mod Safety
pub mod Stages
use Prim.Native.String.{◌++◌ as join}
use rick_driven_development.Prelude.{
  ℕ, ◌+◌, String, Bool, true, false, not, ◌&&◌, List, [], ◌∷◌, Option, none, some, ◌==◌, leb, ltb,
  length, if◌then◌else◌,
}
use rick_driven_development.Prelude.Dict.{Dict, lookup, set}
use rick_driven_development.Event.Envelope.{
  Envelope, Body, persona_completed, persona_failed, feedback_generated,
}
use rick_driven_development.Workflow.Def.{effective_max_chain_depth}
use rick_driven_development.Hooks.{HookRegistry, has_hooks}
use rick_driven_development.Resolver.{
  Handler, WorkflowResolver, def_of, is_dag_relevant, is_retriggerable, effective_after_personas,
}
use rick_driven_development.Resolver.Join.{
  JoinCheck, satisfied, unsatisfied, store_error, check_join_condition,
}
use rick_driven_development.Runner.Seen.{IdempotencyCache, add_seen, remove_seen}
use rick_driven_development.Runner.Queue.{
  DispatchItem, DispatchQueue, event_priority, push, pop, get_or_create,
}
use rick_driven_development.Runner.Pauses.{
  PauseController, BlockedDispatch, is_paused, add_blocked, resume,
}

pub record PersonaRunner : Type 0 where
  pub seen : IdempotencyCache
  pub pauser : PauseController
  pub queues : Dict DispatchQueue
  pub hooks : HookRegistry
  pub resolver : WorkflowResolver
  pub handlers : Dict Handler
  pub default_chain_depth : ℕ
  pub cancelled : Bool

pub data DropReason : Type 0 where
  event_dedup store_failed ctx_cancelled : DropReason
  join_unsatisfied : List String → DropReason
  join_gate_dedup : String → DropReason

-- `queued` says whether this call starts the drain.
pub data Admission : Type 0 where
  ignored blocked : Admission
  dropped : DropReason → Admission
  queued : Bool → Admission

unfoldable pub handler_lookup : PersonaRunner → String → Option Handler
handler_lookup r name = lookup name r.handlers

-- The chain depth of the dispatch, unless the event does not concern the handler.
unfoldable pub chain_depth_of : Handler → Envelope → PersonaRunner → Option ℕ
chain_depth_of h env r = elim env.body [
  | persona_completed (some pc) ↦
      if pc.persona == h.name
      then none
      else if is_dag_relevant h pc.persona env.correlation_id r.hooks r.resolver
      then some (pc.chain_depth + 1)
      else none
  | persona_failed (some pf) ↦ if pf.persona == h.name then none else some (pf.chain_depth + 1)
  | feedback_generated j ↦
      if is_retriggerable h.name env.correlation_id (handler_lookup r) r.resolver
      then some 0
      else none
  | _ ↦ some 0
]

unfoldable pub chain_depth_limit : String → PersonaRunner → ℕ
chain_depth_limit correlation_id r =
    if correlation_id == ""
    then r.default_chain_depth
    else elim (def_of correlation_id r.resolver) [
      | none ↦ r.default_chain_depth
      | some def ↦ effective_max_chain_depth def
    ]

-- With the event appended to its queue, of which this call becomes the worker if there is none.
unfoldable pub enqueue_and_drain :
    Handler → Envelope → ℕ → PersonaRunner → PersonaRunner × Admission
enqueue_and_drain h env chain_depth r =
    let key = join h.name (join "|" env.correlation_id) in
    let q = get_or_create key r.queues in
    let item : DispatchItem = record {
      priority = event_priority env.body;
      env = env;
      chain_depth = chain_depth;
    } in
    (
      record r { queues = set key (record (push item q) { draining = true }) r.queues },
      queued (not q.draining),
    )

abbrev pub is_satisfied : JoinCheck → Bool
is_satisfied (satisfied fingerprint) = true
is_satisfied _ = false

-- Steps 7 to 9: the pause, the shutdown, the queue.
unfoldable pub pass_pause : Handler → Envelope → ℕ → PersonaRunner → PersonaRunner × Admission
pass_pause h env chain_depth r =
    if is_paused env.correlation_id r.pauser
    then (record r { pauser = add_blocked env.correlation_id h env r.pauser }, blocked)
    else if r.cancelled
    then (r, dropped ctx_cancelled)
    else enqueue_and_drain h env chain_depth r

abbrev pub is_persona_completed : Body → Bool
is_persona_completed (persona_completed j) = true
is_persona_completed _ = false

-- len(afterPersonas) > 1 && env.Type == event.PersonaCompleted
unfoldable pub is_gated : List String → Envelope → Bool
is_gated after_personas env = ltb 1 (length after_personas) && is_persona_completed env.body

abbrev pub gate_name : Handler → String
gate_name h = join h.name ":join"

-- Of several completions that satisfy one join, the first passes.
unfoldable pub pass_gate :
    Handler → Envelope → ℕ → String → PersonaRunner → PersonaRunner × Admission
pass_gate h env chain_depth fingerprint r =
    let marked = add_seen (gate_name h) fingerprint r.seen in
    if marked.1
    then pass_pause h env chain_depth (record r { seen = marked.0 })
    else (r, dropped (join_gate_dedup fingerprint))

-- Step 6: the join, where there is one.
unfoldable pub pass_join :
    Option (List Envelope) → Handler → Envelope → ℕ → PersonaRunner → PersonaRunner × Admission
pass_join events h env chain_depth r =
    let after_personas = effective_after_personas h env.correlation_id r.hooks r.resolver in
    if not (has_hooks after_personas && not (env.correlation_id == ""))
    then pass_pause h env chain_depth r
    else elim (check_join_condition (def_of env.correlation_id r.resolver) h.name after_personas
        events) [
          | store_error ↦
              (record r { seen = remove_seen h.name env.id r.seen }, dropped store_failed)
          | unsatisfied missing ↦ (r, dropped (join_unsatisfied missing))
          | satisfied fingerprint ↦
              if is_gated after_personas env
              then pass_gate h env chain_depth fingerprint r
              else pass_pause h env chain_depth r
        ]

-- Steps 3 and 4: the depth and the event's own mark.
unfoldable pub pass_depth :
    Option (List Envelope) → Handler → Envelope → ℕ → PersonaRunner → PersonaRunner × Admission
pass_depth events h env chain_depth r =
    let marked = add_seen h.name env.id r.seen in
    if leb (chain_depth_limit env.correlation_id r) chain_depth
    then (r, ignored)
    else if marked.1
    then pass_join events h env chain_depth (record r { seen = marked.0 })
    else (r, dropped event_dedup)

unfoldable pub wrap :
    Option (List Envelope) → Handler → Envelope → PersonaRunner → PersonaRunner × Admission
wrap events h env r = elim (chain_depth_of h env r) [
  | none ↦ (r, ignored)
  | some chain_depth ↦ pass_depth events h env chain_depth r
]

-- The events of a queue, in its order, behind those already blocked.
unfoldable pub block_all : String → Handler → List DispatchItem → PauseController → PauseController
block_all correlation_id h [] p = p
block_all correlation_id h (item ∷ items) p =
    block_all correlation_id h items (add_blocked correlation_id h item.env p)

-- One round of the drain, with the item that it is to execute if it goes on.
unfoldable pub drain_round : Handler → String → PersonaRunner → PersonaRunner × Option DispatchItem
drain_round h correlation_id r =
    let key = join h.name (join "|" correlation_id) in
    let q = get_or_create key r.queues in
    if is_paused correlation_id r.pauser
    then (
      record r {
        queues = set key (record { items = []; draining = false }) r.queues;
        pauser = block_all correlation_id h q.items r.pauser;
      },
      none,
    )
    else let (left, next) = pop q in
      elim next [
        | none ↦ (record r { queues = set key (record left { draining = false }) r.queues }, none)
        | some item ↦ (record r { queues = set key left r.queues }, some item)
      ]

-- A blocked dispatch, as the resumption hands it to `wrap` again.
unfoldable pub replay :
    Option (List Envelope) → BlockedDispatch → PersonaRunner → PersonaRunner × Admission
replay events b r =
    wrap events b.handler b.env (record r { seen = remove_seen b.handler.name b.env.id r.seen })

-- The subscription to WorkflowResumed, up to the replays.
unfoldable pub resume_correlation : String → PersonaRunner → PersonaRunner × List BlockedDispatch
resume_correlation correlation_id r =
    let resumed = resume correlation_id r.pauser in (record r { pauser = resumed.0 }, resumed.1)

-- `RecoverDispatch`; `false` is its error.
unfoldable pub recover_dispatch :
    Option (List Envelope) → String → Envelope → PersonaRunner → PersonaRunner × Bool
recover_dispatch events handler_name env r = elim (handler_lookup r handler_name) [
  | none ↦ (r, false)
  | some h ↦
      let after_personas = effective_after_personas h env.correlation_id r.hooks r.resolver in
      let wf_def = def_of env.correlation_id r.resolver in
      let is_held = has_hooks after_personas && not (env.correlation_id == "") in
      if is_held
        && not (is_satisfied (check_join_condition wf_def handler_name after_personas events))
      then (r, false)
      else if is_paused env.correlation_id r.pauser
      then (record r { pauser = add_blocked env.correlation_id h env r.pauser }, true)
      else ((enqueue_and_drain h env 0 r).0, true)
]
