-- ===== src/Engine/Numbering.antt =====
-- internal/engine/engine.go and internal/eventstore/sqlite.go: the versions under which tryProcessDecision
-- and Append number the events of a workflow.
use Prim.Native.Nat.{max}
use rick_driven_development.Prelude.{ℕ, ◌+◌, ◌≡◌, subst, String, List, [], ◌∷◌, ◌++◌, arith, length}
use rick_driven_development.Event.Envelope.{Envelope, Stamp}
use rick_driven_development.Aggregate.Runtime.{Runtime, done}
use rick_driven_development.Aggregate.State.{WorkflowAggregate}
use rick_driven_development.Aggregate.Apply.{apply_all}
use rick_driven_development.Aggregate.Decide.{decide}
use rick_driven_development.Aggregate.Decide.Resume.{Decided}
use rick_driven_development.Engine.{Step, current_version}

-- The events are tracked on behalf of `env`, and not published.
abbrev pub AreMirrors : Envelope → List Envelope → Type 0
AreMirrors env [] = Unit {0}
AreMirrors env (e ∷ es) =
    (e.source ≡ "engine:tracking") × (e.causation_id ≡ env.id) × AreMirrors env es

-- The published events are those that Decide emits on the aggregate with the events tracked before
-- applied, and the step appends them between the tracked ones.
pub record Publishes (rt : Runtime) (s : Stamp) (w : WorkflowAggregate) (env : Envelope)
    (step : Step) : Type 0 where
  pub before : List Envelope
  pub decided : Decided
  pub after : List Envelope
  pub appends : step.appended ≡ before ++ (step.published ++ after)
  pub decides : decide rt s (apply_all rt w before) env ≡ done decided
  pub emits : step.published ≡ decided.events
  pub tracked_before : AreMirrors env before
  pub tracked_after : AreMirrors env after

-- The events have the versions after `base`, one after the other, and belong to the aggregate.
abbrev pub IsContiguous : String → ℕ → List Envelope → Type 0
IsContiguous id base [] = Unit {0}
IsContiguous id base (e ∷ es) =
    (e.aggregate_id ≡ id) × (e.version ≡ base + 1) × IsContiguous id (base + 1) es

pub append-IsContiguous :
    (id : String) (base : ℕ) (xs ys : List Envelope)
    → IsContiguous id base xs
    → IsContiguous id (base + length xs) ys
    → IsContiguous id base (xs ++ ys)
append-IsContiguous id base [] ys h k = subst (λ n. IsContiguous id n ys) (ground arith) k
append-IsContiguous id base (x ∷ xs) ys (a, v, h) k =
    let shifted : base + length (x ∷ xs) ≡ base + 1 + length xs = omega arith in
    (a, v, append-IsContiguous id (base + 1) xs ys h (subst (λ n. IsContiguous id n ys) shifted k))

pub current_version_contiguous :
    (id : String) (base : ℕ) (es : List Envelope)
    → IsContiguous id base es
    → max base (current_version es) ≡ base + length es
unfolding current_version
current_version_contiguous id base [] h = omega arith
current_version_contiguous id base (e ∷ es) (a, v, h) =
    omega (arith, v, current_version_contiguous id (base + 1) es h)

module _ (rt : Runtime) (s : Stamp) (w : WorkflowAggregate) (env : Envelope) where
  abbrev KeepsIdentity : WorkflowAggregate → List Envelope → Type 0
  KeepsIdentity w' es = (w'.id ≡ w.id) × (w'.version ≡ w.version)
