-- ===== src/Aggregate/Runtime.antt =====
-- What the aggregate takes from Go's runtime and standard library, and what a call returns.
use rick_driven_development.Prelude.{ℕ, String, List, ◌≡◌, refl, ◌⊎◌, inl, inr}
use rick_driven_development.Prelude.Dict.{Dict}
use rick_driven_development.Event.Payload.{Bytes}

-- `range_order` is the order in which one `range` over a map of counters visits its entries,
-- `rate_limit_autopause` is `os.Getenv("RICK_RATE_LIMIT_AUTOPAUSE")`.
pub record Runtime : Type 0 where
  pub to_lower : Bytes → Bytes
  pub sha256_hex : List ℕ → String
  pub rate_limit_autopause : String
  pub range_order : Dict ℕ → List (String × ℕ)

-- A slice expression out of range panics.
pub data Outcome {ℓ} (A : Type ℓ) : Type ℓ where
  done : A → Outcome A
  panic : Outcome A

pub Outcome-cases {ℓ} : {A : Type ℓ} (o : Outcome A) → (o ≡ panic) ⊎ ((a : A) × (o ≡ done a))
Outcome-cases (done a) = inr (a, refl)
Outcome-cases panic = inl refl
