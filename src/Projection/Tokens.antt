-- ===== src/Projection/Tokens.antt =====
-- internal/projection/tokens.go: TokenUsageProjection. An `int` sum is kept as its 64 bits.
pub mod Totals
use Prim.Native.String.{◌++◌ as join}
use rick_driven_development.Prelude.{
  ℕ, ◌+◌, ◌%◌, ◌^◌, String, Bool, true, false, ◌||◌, List, [], ◌∷◌, Option, none, some, ◌==◌, eqb,
  if◌then◌else◌,
}
use rick_driven_development.Prelude.Dict.{Dict, lookup, set, get_or}
use rick_driven_development.Event.Payload.{AiResponsePayload}
use rick_driven_development.Event.Envelope.{Envelope, ai_response_received}

pub record TokenUsage : Type 0 where
  pub aggregate_id : String
  pub total : ℕ
  pub by_persona : Dict ℕ
  pub by_backend : Dict ℕ

abbrev pub TokenUsageProjection : Type 0
TokenUsageProjection = Dict TokenUsage

abbrev pub add64 : ℕ → ℕ → ℕ
add64 a b = (a + b) % 2 ^ 64

unfoldable pub blank_usage : String → TokenUsage
blank_usage aggregate_id = record {
  aggregate_id = aggregate_id;
  total = 0;
  by_persona = [];
  by_backend = [];
}

-- p.getOrCreate(aggregateID)
unfoldable pub usage_entry : String → TokenUsageProjection → TokenUsage
usage_entry aggregate_id p = elim (lookup aggregate_id p) [
  | none ↦ blank_usage aggregate_id
  | some tu ↦ tu
]

-- m[key] += n, unless the key is empty
unfoldable pub count_for : String → ℕ → Dict ℕ → Dict ℕ
count_for key n m = if key == "" then m else set key (add64 (get_or 0 key m) n) m

unfoldable pub add_usage : AiResponsePayload → TokenUsage → TokenUsage
add_usage payload tu = record tu {
  total = add64 tu.total payload.tokens_used;
  by_persona = count_for payload.persona payload.tokens_used tu.by_persona;
  by_backend = count_for payload.backend payload.tokens_used tu.by_backend;
}

unfoldable pub handle_response :
    String → AiResponsePayload → TokenUsageProjection → TokenUsageProjection
handle_response aggregate_id payload p =
    if eqb payload.tokens_used 0
    then p
    else set aggregate_id (add_usage payload (usage_entry aggregate_id p)) p

unfoldable pub handle : Envelope → TokenUsageProjection → TokenUsageProjection × Bool
handle env p = elim env.body [
  | ai_response_received none ↦ (p, false)
  | ai_response_received (some payload) ↦ (handle_response env.aggregate_id payload p, true)
  | _ ↦ (p, true)
]

unfoldable pub get : String → TokenUsageProjection → Option TokenUsage
get aggregate_id p = lookup aggregate_id p

unfoldable pub handle_all : List Envelope → TokenUsageProjection → TokenUsageProjection
handle_all [] p = p
handle_all (env ∷ envs) p = handle_all envs (handle env p).0
