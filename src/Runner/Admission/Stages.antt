-- ===== src/Runner/Admission/Stages.antt =====
-- internal/engine/persona_runner.go: the steps that a blocked event has passed in wrap.
use rick_driven_development.Prelude.{
  ℕ, ◌≡◌, refl, String, true, false, not, ◌&&◌, List, Option, some, ◌==◌, arith, leb, Bool-cases,
  Option-cases, inl, inr,
}
use rick_driven_development.Event.Envelope.{Envelope}
use rick_driven_development.Hooks.{has_hooks}
use rick_driven_development.Resolver.{Handler, def_of, effective_after_personas}
use rick_driven_development.Resolver.Join.{satisfied, check_join_condition}
use rick_driven_development.Runner.Seen.{add_seen, add_key, key_of}
use rick_driven_development.Runner.Pauses.{is_paused, add_blocked}
use rick_driven_development.Runner.Admission.{
  PersonaRunner, blocked, chain_depth_of, chain_depth_limit, enqueue_and_drain, pass_pause,
  pass_gate, gate_name, pass_join, pass_depth, is_gated, wrap,
}

-- The admission of a completion to a join of several, as far as the gate.
pub wrap-pass_gate :
    (events : Option (List Envelope)) (h : Handler) (env : Envelope) (r : PersonaRunner) (depth : ℕ)
    (fingerprint : String)
    → chain_depth_of h env r ≡ some depth
    → leb (chain_depth_limit env.correlation_id r) depth ≡ false
    → (add_key (key_of h.name env.id) r.seen).1 ≡ true
    → (has_hooks (effective_after_personas h env.correlation_id r.hooks r.resolver)
        && not (env.correlation_id == ""))
      ≡ true
    → check_join_condition
        (def_of env.correlation_id r.resolver)
        h.name
        (effective_after_personas h env.correlation_id r.hooks r.resolver)
        events
      ≡ satisfied fingerprint
    → is_gated (effective_after_personas h env.correlation_id r.hooks r.resolver) env ≡ true
    → wrap events h env r
      ≡ pass_gate h env depth fingerprint
          (record r { seen = (add_key (key_of h.name env.id) r.seen).0 })
unfolding wrap pass_depth pass_join add_seen
wrap-pass_gate events h env r depth fingerprint known shallow fresh held joined gated =
    rw (known, shallow, fresh, held, joined, gated, wrap, pass_depth, pass_join, add_seen) refl

pub wrap-pass_pause :
    (events : Option (List Envelope)) (h : Handler) (env : Envelope) (r : PersonaRunner) (depth : ℕ)
    (fingerprint : String)
    → chain_depth_of h env r ≡ some depth
    → leb (chain_depth_limit env.correlation_id r) depth ≡ false
    → (add_key (key_of h.name env.id) r.seen).1 ≡ true
    → (has_hooks (effective_after_personas h env.correlation_id r.hooks r.resolver)
        && not (env.correlation_id == ""))
      ≡ true
    → check_join_condition
        (def_of env.correlation_id r.resolver)
        h.name
        (effective_after_personas h env.correlation_id r.hooks r.resolver)
        events
      ≡ satisfied fingerprint
    → is_gated (effective_after_personas h env.correlation_id r.hooks r.resolver) env ≡ false
    → wrap events h env r
      ≡ pass_pause h env depth (record r { seen = (add_key (key_of h.name env.id) r.seen).0 })
unfolding wrap pass_depth pass_join add_seen
wrap-pass_pause events h env r depth fingerprint known shallow fresh held joined single =
    rw (known, shallow, fresh, held, joined, single, wrap, pass_depth, pass_join, add_seen) refl

pub pass_pause-blocked :
    (h : Handler) (env : Envelope) (depth : ℕ) (r : PersonaRunner)
    → (pass_pause h env depth r).1 ≡ blocked
    → pass_pause h env depth r
      ≡ (record r { pauser = add_blocked env.correlation_id h env r.pauser }, blocked)
unfolding pass_pause enqueue_and_drain
pass_pause-blocked h env depth r stopped =
    elim (Bool-cases (is_paused env.correlation_id r.pauser)) [
      | inl paused ↦ rw (paused, pass_pause) refl
      | inr runs ↦ absurd (ground (arith, stopped, runs))
    ]

pub pass_gate-blocked :
    (h : Handler) (env : Envelope) (depth : ℕ) (fingerprint : String) (r : PersonaRunner)
    → (pass_gate h env depth fingerprint r).1 ≡ blocked
    → ((add_key (key_of (gate_name h) fingerprint) r.seen).1 ≡ true)
      × (pass_gate h env depth fingerprint r ≡ (
        record r {
          seen = (add_key (key_of (gate_name h) fingerprint) r.seen).0;
          pauser = add_blocked env.correlation_id h env r.pauser;
        },
        blocked,
      ))
unfolding pass_gate add_seen
pass_gate-blocked h env depth fingerprint r stopped =
    elim (Bool-cases (add_key (key_of (gate_name h) fingerprint) r.seen).1) [
      | inl fresh ↦ (
        fresh,
        rw (fresh, pass_gate, add_seen)
            (pass_pause-blocked h env depth
              (record r { seen = (add_key (key_of (gate_name h) fingerprint) r.seen).0 })
              (ground (arith, stopped, fresh))),
      )
      | inr known ↦ absurd (ground (arith, stopped, known))
    ]

-- What a blocked event has passed.
pub blocked-depth :
    (events : Option (List Envelope)) (h : Handler) (env : Envelope) (r : PersonaRunner)
    → (wrap events h env r).1 ≡ blocked
    → (depth : ℕ) × (chain_depth_of h env r ≡ some depth)
      × (leb (chain_depth_limit env.correlation_id r) depth ≡ false)
      × ((add_key (key_of h.name env.id) r.seen).1 ≡ true)
unfolding wrap pass_depth add_seen
blocked-depth events h env r stopped = elim (Option-cases (chain_depth_of h env r)) [
  | inl foreign ↦ absurd (ground (arith, stopped, foreign))
  | inr (depth, known) ↦
      (depth, known, ground (arith, stopped, known), ground (arith, stopped, known))
]
