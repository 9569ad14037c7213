-- ===== src/Projection/Tokens/Totals.antt =====
-- internal/projection/tokens.go beside internal/engine/aggregate.go: the tokens of a workflow.
use rick_driven_development.Prelude.{
  ℕ, ◌^◌, ◌<◌, ◌≡◌, refl, ap, ◌∙◌, String, List, [], ◌∷◌, none, some, ◌==◌, arith, eq_iff, eqb,
  if◌then◌else◌, Bool-cases, inl, inr,
}
use rick_driven_development.Prelude.Dict.{set, lookup-set}
use rick_driven_development.Event.Payload.{AiResponsePayload, zero_retried}
use rick_driven_development.Event.Envelope.{
  Envelope, Body, unmarshal, ai_response_received, workflow_retried, persona_failed_tracked,
  feedback_generated, verdict_tracked,
}
use rick_driven_development.Aggregate.Runtime.{Runtime}
use rick_driven_development.Aggregate.State.{WorkflowAggregate}
use rick_driven_development.Aggregate.Apply.{
  apply, apply_body, apply_all, apply_requested, apply_paused, apply_retried, count_auto_retry,
  invalidate, apply_completed, apply_failed, apply_feedback, apply_verdict,
}
use rick_driven_development.Projection.Tokens.{
  TokenUsage, TokenUsageProjection, add64, usage_entry, add_usage, handle_response, handle,
  handle_all,
}

-- The events of one aggregate.
abbrev pub events_of : String → List Envelope → List Envelope
events_of id [] = []
events_of id (env ∷ envs) =
    let rest = events_of id envs in if env.aggregate_id == id then env ∷ rest else rest

abbrev pub tokens_of : Body → ℕ
tokens_of (ai_response_received (some payload)) = payload.tokens_used
tokens_of _ = 0

invalidate-tokens :
    (ps : List String) (w : WorkflowAggregate) → (invalidate ps w).tokens_used ≡ w.tokens_used
unfolding invalidate
invalidate-tokens [] w = refl
invalidate-tokens (p ∷ ps) w = invalidate-tokens ps _

apply_body-tokens :
    (rt : Runtime) (b : Body) (w : WorkflowAggregate)
    → w.tokens_used < 2 ^ 64
    → (apply_body rt b w).tokens_used ≡ add64 w.tokens_used (tokens_of b)
unfolding apply_body apply_requested apply_paused apply_retried count_auto_retry apply_completed
    apply_failed apply_feedback apply_verdict
apply_body-tokens rt (ai_response_received none) w small = omega arith
apply_body-tokens rt (ai_response_received (some payload)) w small = refl
apply_body-tokens rt (workflow_retried j) w small =
    ground (arith, small, invalidate-tokens (unmarshal zero_retried j).invalidated_personas w)
apply_body-tokens rt (persona_failed_tracked j) w small = ground (arith, small)
apply_body-tokens rt (feedback_generated j) w small = ground (arith, small)
apply_body-tokens rt (verdict_tracked j) w small = ground (arith, small)
apply_body-tokens rt _ w small = omega arith

usage_entry-set :
    (id aggregate_id : String) (tu : TokenUsage) (p : TokenUsageProjection)
    → usage_entry id (set aggregate_id tu p) ≡ (if aggregate_id == id then tu else usage_entry id p)
unfolding usage_entry
usage_entry-set id aggregate_id tu p =
    ground (arith, lookup-set aggregate_id id tu p, eq_iff aggregate_id id)

add_usage-total :
    (payload : AiResponsePayload) (tu : TokenUsage)
    → (add_usage payload tu).total ≡ add64 tu.total payload.tokens_used
unfolding add_usage
add_usage-total payload tu = refl

-- An event adds its tokens to the total of its aggregate.
Adds : String → String → Body → TokenUsageProjection → TokenUsageProjection → Type 0
Adds id aggregate_id b p q = (usage_entry id q).total ≡ (
    if aggregate_id == id
    then add64 (usage_entry id p).total (tokens_of b)
    else (usage_entry id p).total)

Adds-nothing :
    (id aggregate_id : String) (b : Body) (p : TokenUsageProjection)
    → (usage_entry id p).total < 2 ^ 64
    → tokens_of b ≡ 0
    → Adds id aggregate_id b p p
unfolding Adds
Adds-nothing id aggregate_id b p small none_used = ground (arith, small, none_used)

handle_response-Adds :
    (id aggregate_id : String) (payload : AiResponsePayload) (p : TokenUsageProjection)
    → (usage_entry id p).total < 2 ^ 64
    → Adds id aggregate_id
        (ai_response_received (some payload))
        p
        (handle_response aggregate_id payload p)
unfolding Adds handle_response
handle_response-Adds id aggregate_id payload p small =
    elim (Bool-cases (eqb payload.tokens_used 0)) [
      | inl free ↦ rw free (ground (arith, small, free))
      | inr used ↦
          rw
            (
              used,
              usage_entry-set id aggregate_id (add_usage payload (usage_entry aggregate_id p)) p,
            )
            (elim (Bool-cases (aggregate_id == id)) [
              | inl own ↦ rw own (
                  add_usage-total payload (usage_entry aggregate_id p)
                  ∙ ap (λ x. add64 (usage_entry x p).total payload.tokens_used)
                      ((eq_iff aggregate_id id).0 own))
              | inr other ↦ rw other refl
            ])
    ]

handle-Adds :
    (id : String) (env : Envelope) (p : TokenUsageProjection)
    → (usage_entry id p).total < 2 ^ 64
    → Adds id env.aggregate_id env.body p (handle env p).0
unfolding handle
handle-Adds id env p small = by_body env.body refl
  where
    by_body : (b : Body) → env.body ≡ b → Adds id env.aggregate_id env.body p (handle env p).0
    by_body (ai_response_received none) e = rw e (Adds-nothing id env.aggregate_id _ p small refl)
    by_body (ai_response_received (some payload)) e =
        rw e (handle_response-Adds id env.aggregate_id payload p small)
    by_body _ e = rw e (Adds-nothing id env.aggregate_id _ p small refl)

-- The projection's total of an aggregate is the number of tokens that the aggregate has counted itself,
-- folded over its own events: on any interleaving of events of all aggregates, when the two agree at
-- first in a 64-bit count, whether or not the payloads parse.
pub handle_all-tokens_used :
    (rt : Runtime) (id : String) (envs : List Envelope) (p : TokenUsageProjection)
    (w : WorkflowAggregate)
    → w.tokens_used < 2 ^ 64
    → (usage_entry id p).total ≡ w.tokens_used
    → (usage_entry id (handle_all envs p)).total ≡ (apply_all rt w (events_of id envs)).tokens_used
unfolding handle_all apply_all apply Adds
handle_all-tokens_used rt id [] p w small same = same
handle_all-tokens_used rt id (env ∷ envs) p w small same =
    elim (Bool-cases (env.aggregate_id == id)) [
      | inl own ↦ rw own (
          handle_all-tokens_used rt id envs (handle env p).0 (apply rt w env)
            (ground (arith, counted))
            (ground (arith, own, same, counted, handle-Adds id env p (omega (arith, small, same)))))
      | inr other ↦ rw other (
          handle_all-tokens_used rt id envs (handle env p).0 w small
            (ground (arith, other, same, handle-Adds id env p (omega (arith, small, same)))))
    ]
  where
    counted : (apply rt w env).tokens_used ≡ add64 w.tokens_used (tokens_of env.body)
    counted = apply_body-tokens rt env.body (record w { version = env.version }) small
