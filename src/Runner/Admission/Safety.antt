-- ===== src/Runner/Admission/Safety.antt =====
-- internal/engine/persona_runner.go: what holds of an event that wrap has queued for a handler.
use rick_driven_development.Prelude.{
  ℕ, ◌<◌, ◌≡◌, Bool, true, false, not, ◌&&◌, List, Option, some, ◌==◌, arith, leb, Bool-cases,
  Option-cases, inl, inr,
}
use rick_driven_development.Prelude.Dict.{lookup, is_present}
use rick_driven_development.Event.Envelope.{Envelope}
use rick_driven_development.Hooks.{has_hooks}
use rick_driven_development.Resolver.{Handler, def_of, effective_after_personas}
use rick_driven_development.Resolver.Join.{check_join_condition}
use rick_driven_development.Runner.Seen.{add_seen, add_key, key_of}
use rick_driven_development.Runner.Pauses.{is_paused}
use rick_driven_development.Runner.Admission.{
  PersonaRunner, queued, chain_depth_of, chain_depth_limit, is_satisfied, pass_pause, pass_gate,
  pass_join, pass_depth, wrap,
}

-- The handler's join, where it has one, is satisfied.
abbrev pub IsJoined : Option (List Envelope) → Handler → Envelope → PersonaRunner → Type 0
IsJoined events h env r =
    let after_personas = effective_after_personas h env.correlation_id r.hooks r.resolver in
    (has_hooks after_personas && not (env.correlation_id == "")) ≡ true
    → is_satisfied
        (check_join_condition (def_of env.correlation_id r.resolver) h.name after_personas events)
      ≡ true

pub record IsAdmissible (events : Option (List Envelope)) (h : Handler) (env : Envelope)
    (r : PersonaRunner) : Type 0 where
  pub concerned :
      (depth : ℕ) × (chain_depth_of h env r ≡ some depth)
      × (depth < chain_depth_limit env.correlation_id r)
  pub unseen : is_present (lookup (key_of h.name env.id) r.seen.entries) ≡ false
  pub joined : IsJoined events h env r
  pub unpaused : is_paused env.correlation_id r.pauser ≡ false
  pub alive : r.cancelled ≡ false

pass_pause-queued :
    (h : Handler) (env : Envelope) (depth : ℕ) (r : PersonaRunner) (starts : Bool)
    → (pass_pause h env depth r).1 ≡ queued starts
    → (is_paused env.correlation_id r.pauser ≡ false) × (r.cancelled ≡ false)
unfolding pass_pause
pass_pause-queued h env depth r starts q = ground (arith, q)

pass_join-queued :
    (events : Option (List Envelope)) (h : Handler) (env : Envelope) (depth : ℕ) (r : PersonaRunner)
    (starts : Bool)
    → (pass_join events h env depth r).1 ≡ queued starts
    → IsJoined events h env r
      × (is_paused env.correlation_id r.pauser ≡ false)
      × (r.cancelled ≡ false)
unfolding pass_join pass_gate pass_pause
pass_join-queued events h env depth r starts q =
    (λ held. ground (arith, q, held), ground (arith, q), ground (arith, q))

pass_depth-queued :
    (events : Option (List Envelope)) (h : Handler) (env : Envelope) (depth : ℕ) (r : PersonaRunner)
    (starts : Bool)
    → (pass_depth events h env depth r).1 ≡ queued starts
    → (depth < chain_depth_limit env.correlation_id r)
      × (is_present (lookup (key_of h.name env.id) r.seen.entries) ≡ false)
      × IsJoined events h env r
      × (is_paused env.correlation_id r.pauser ≡ false)
      × (r.cancelled ≡ false)
unfolding pass_depth add_seen add_key
pass_depth-queued events h env depth r starts q =
    elim (Bool-cases (leb (chain_depth_limit env.correlation_id r) depth)) [
      | inl deep ↦ absurd (ground (arith, q, deep))
      | inr shallow ↦ elim (Bool-cases (add_seen h.name env.id r.seen).1) [
        | inl fresh ↦
            let marked : PersonaRunner = record r { seen = (add_seen h.name env.id r.seen).0 } in
            let (joined, unpaused, alive) =
              pass_join-queued events h env depth marked starts
                (ground (arith, q, shallow, fresh)) in
            (ground (arith, shallow), ground (arith, fresh), joined, unpaused, alive)
        | inr known ↦ absurd (ground (arith, q, shallow, known))
      ]
    ]

-- An event that wrap has queued for a handler concerns it, is within the depth limit and was not seen
-- before; the handler's join is satisfied by what the store holds; and neither is the workflow paused
-- nor the runner shut down.
pub wrap-IsAdmissible :
    (events : Option (List Envelope)) (h : Handler) (env : Envelope) (r : PersonaRunner)
    (starts : Bool)
    → (wrap events h env r).1 ≡ queued starts
    → IsAdmissible events h env r
unfolding wrap
wrap-IsAdmissible events h env r starts q = elim (Option-cases (chain_depth_of h env r)) [
  | inl foreign ↦ absurd (ground (arith, q, foreign))
  | inr (depth, known) ↦
      let (shallow, unseen, joined, unpaused, alive) =
        pass_depth-queued events h env depth r starts (ground (arith, q, known)) in
      record {
        concerned = (depth, known, shallow);
        unseen = unseen;
        joined = joined;
        unpaused = unpaused;
        alive = alive;
      }
]
