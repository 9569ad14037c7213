-- ===== src/Runner/Admission/Replay.antt =====
-- internal/engine/persona_runner.go: what becomes of a dispatch that a pause has blocked once the
-- workflow is resumed.
use rick_driven_development.Prelude.{
  ℕ, ◌+◌, ◌≤◌, ◌≡◌, refl, ap, sym, ◌∙◌, String, true, false, not, ◌&&◌, List, Option, ◌==◌, arith,
  length, eq_refl, Bool-cases, inl, inr, if◌then◌else◌,
}
use Prim.Native.String.{◌++◌ as join}
use rick_driven_development.Prelude.Dict.{get_or-erase}
use rick_driven_development.Event.Envelope.{Envelope}
use rick_driven_development.Hooks.{has_hooks}
use rick_driven_development.Resolver.{Handler, def_of, effective_after_personas}
use rick_driven_development.Resolver.Join.{satisfied, check_join_condition}
use rick_driven_development.Runner.Seen.{add_seen, remove_seen, add_key, remove_key, key_of}
use rick_driven_development.Runner.Seen.Marks.{remove_key-fresh, gate-stays}
use rick_driven_development.Runner.Queue.{get_or_create}
use rick_driven_development.Runner.Pauses.{PauseController, is_paused, add_blocked, resume}
use rick_driven_development.Runner.Admission.{
  PersonaRunner, join_gate_dedup, blocked, dropped, queued, chain_depth_of, chain_depth_limit,
  handler_lookup, enqueue_and_drain, pass_pause, pass_gate, gate_name, is_gated, wrap, replay,
  resume_correlation,
}
use rick_driven_development.Runner.Admission.Stages.{
  wrap-pass_gate, wrap-pass_pause, pass_gate-blocked, pass_pause-blocked, blocked-depth,
}

gate-closed :
    (h : Handler) (env : Envelope) (depth : ℕ) (fingerprint : String) (r : PersonaRunner)
    → (add_key (key_of (gate_name h) fingerprint) r.seen).1 ≡ false
    → (pass_gate h env depth fingerprint r).1 ≡ dropped (join_gate_dedup fingerprint)
unfolding pass_gate add_seen
gate-closed h env depth fingerprint r known = rw (known, pass_gate, add_seen) refl

resume-runs :
    (correlation_id : String) (p : PauseController)
    → is_paused correlation_id (resume correlation_id p).0 ≡ false
unfolding is_paused resume
resume-runs correlation_id p =
    ground
      (arith, get_or-erase false correlation_id correlation_id p.paused, eq_refl correlation_id)

resumed-runs :
    (h : Handler) (env : Envelope) (depth : ℕ) (r : PersonaRunner)
    → is_paused env.correlation_id r.pauser ≡ false
    → r.cancelled ≡ false
    → (pass_pause h env depth r).1
      ≡ queued (not (get_or_create (join h.name (join "|" env.correlation_id)) r.queues).draining)
unfolding pass_pause enqueue_and_drain
resumed-runs h env depth r runs alive = rw (runs, alive, pass_pause) refl

module _ (events events_later : Option (List Envelope)) (h : Handler) (env : Envelope)
    (r : PersonaRunner) (fingerprint : String)
    (held : (has_hooks (effective_after_personas h env.correlation_id r.hooks r.resolver)
        && not (env.correlation_id == ""))
      ≡ true)
    (joined : check_join_condition
        (def_of env.correlation_id r.resolver)
        h.name
        (effective_after_personas h env.correlation_id r.hooks r.resolver)
        events
      ≡ satisfied fingerprint)
    (still_joined : check_join_condition
        (def_of env.correlation_id r.resolver)
        h.name
        (effective_after_personas h env.correlation_id r.hooks r.resolver)
        events_later
      ≡ satisfied fingerprint)
    (stopped : (wrap events h env r).1 ≡ blocked) where
  -- A completion that a pause has blocked at a join of several personas does not reach the handler when
  -- the workflow is resumed: its replay finds the mark that its first admission has left at the join's
  -- gate, and is dropped. The join has the fingerprint that it had, and the cache of marks has room for three more.
  replay-IsDropped :
      length r.seen.order + 3 ≤ r.seen.max_size
      → is_gated (effective_after_personas h env.correlation_id r.hooks r.resolver) env ≡ true
      → (replay events_later
          (record { handler = h; env = env })
          (resume_correlation env.correlation_id (wrap events h env r).0).0).1
        ≡ dropped (join_gate_dedup fingerprint)
  unfolding replay resume_correlation remove_seen chain_depth_of chain_depth_limit handler_lookup
      add_seen
  replay-IsDropped room gated =
      let (depth, known, shallow, fresh) = blocked-depth events h env r stopped in
      let first =
        wrap-pass_gate events h env r depth fingerprint known shallow fresh held joined gated in
      let (open_gate, left) =
        pass_gate-blocked h env depth fingerprint _ (ap (λ o. o.1) (sym first) ∙ stopped) in
      let k = key_of h.name env.id in
      let again : PersonaRunner = record r {
        seen = remove_key k (add_key (key_of (gate_name h) fingerprint) (add_key k r.seen).0).0;
        pauser = (resume env.correlation_id (add_blocked env.correlation_id h env r.pauser)).0;
      } in
      let second =
        wrap-pass_gate events_later h env again depth fingerprint known shallow
          (remove_key-fresh k _) held still_joined gated in
      rw (first, left, second)
        (gate-closed h env depth fingerprint _
          (gate-stays k (key_of (gate_name h) fingerprint) r.seen room open_gate))

  -- Any other event that a pause has blocked at a satisfied join is queued for the handler when the
  -- workflow is resumed, unless the runner is shut down.
  replay-IsQueued :
      r.cancelled ≡ false
      → is_gated (effective_after_personas h env.correlation_id r.hooks r.resolver) env ≡ false
      → (replay events_later
          (record { handler = h; env = env })
          (resume_correlation env.correlation_id (wrap events h env r).0).0).1
        ≡ queued (not (get_or_create (join h.name (join "|" env.correlation_id)) r.queues).draining)
  unfolding replay resume_correlation remove_seen chain_depth_of chain_depth_limit handler_lookup
      add_seen
  replay-IsQueued alive single =
      let (depth, known, shallow, fresh) = blocked-depth events h env r stopped in
      let first =
        wrap-pass_pause events h env r depth fingerprint known shallow fresh held joined single in
      let left = pass_pause-blocked h env depth _ (ap (λ o. o.1) (sym first) ∙ stopped) in
      let k = key_of h.name env.id in
      let again : PersonaRunner = record r {
        seen = remove_key k (add_key k r.seen).0;
        pauser = (resume env.correlation_id (add_blocked env.correlation_id h env r.pauser)).0;
      } in
      let second =
        wrap-pass_pause events_later h env again depth fingerprint known shallow
          (remove_key-fresh k _) held still_joined single in
      rw (first, left, second)
        (resumed-runs h env depth _
          (resume-runs env.correlation_id (add_blocked env.correlation_id h env r.pauser)) alive)

  -- What becomes of an event that a pause has blocked at a satisfied join, when the workflow is resumed
  -- directly after it and the events that the store then loads satisfy the join with the same
  -- fingerprint: a completion for a join of several personas is dropped, as its replay finds the
  -- mark that its first admission has left at the join's gate; any other event is queued for the handler.
  -- The runner is not shut down, and the cache of marks has room for three more.
  pub replay-Admission :
      length r.seen.order + 3 ≤ r.seen.max_size
      → r.cancelled ≡ false
      → (replay events_later
          (record { handler = h; env = env })
          (resume_correlation env.correlation_id (wrap events h env r).0).0).1
        ≡ (if is_gated (effective_after_personas h env.correlation_id r.hooks r.resolver) env
            then dropped (join_gate_dedup fingerprint)
            else queued
                (not (get_or_create (join h.name (join "|" env.correlation_id)) r.queues).draining))
  replay-Admission room alive =
      elim (Bool-cases
        (is_gated (effective_after_personas h env.correlation_id r.hooks r.resolver) env)) [
          | inl gated ↦ rw gated (replay-IsDropped room gated)
          | inr single ↦ rw single (replay-IsQueued alive single)
        ]
