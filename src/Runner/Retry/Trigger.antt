-- ===== src/Runner/Retry/Trigger.antt =====
-- internal/engine/persona_runner.go: which event a retry replays.
use rick_driven_development.Prelude.{
  ◌≡◌, sym, ap, ◌∙◌, String, Bool, true, false, List, [], ◌∷◌, ◌++◌, Option, none, some, arith, All,
  ◌⊎◌, inl, inr, Bool-cases, if◌then◌else◌,
}
use rick_driven_development.Event.Envelope.{Envelope, is_workflow_started}
use rick_driven_development.Prelude.Dict.{get_or}
use rick_driven_development.Workflow.Def.{WorkflowDef}
use rick_driven_development.Runner.Retry.{
  completes_one_of, last_completed, first_started, find_retry_trigger,
}

-- `e` stands in the list, satisfies the test, and nothing behind it does.
pub record IsLast (holds : Envelope → Bool) (events : List Envelope) (e : Envelope) : Type 0 where
  pub before : List Envelope
  pub after : List Envelope
  pub among : events ≡ before ++ e ∷ after
  pub fits : holds e ≡ true
  pub none_behind : All (λ x. holds x ≡ false) after

-- The same with nothing before it.
pub record IsFirst (holds : Envelope → Bool) (events : List Envelope) (e : Envelope) : Type 0 where
  pub before : List Envelope
  pub after : List Envelope
  pub among : events ≡ before ++ e ∷ after
  pub fits : holds e ≡ true
  pub none_before : All (λ x. holds x ≡ false) before

later-IsLast :
    (holds : Envelope → Bool) (x e : Envelope) (events : List Envelope)
    → IsLast holds events e
    → IsLast holds (x ∷ events) e
later-IsLast holds x e events h = record {
  before = x ∷ h.before;
  after = h.after;
  among = ap (λ l. x ∷ l) h.among;
  fits = h.fits;
  none_behind = h.none_behind;
}

-- Either some event behind the best so far fits, or the best so far is it.
last_completed-IsLast :
    (predecessors : List String) (events : List Envelope) (best : Option Envelope) (e : Envelope)
    → last_completed predecessors events best ≡ some e
    → IsLast (completes_one_of predecessors) events e
      ⊎ ((best ≡ some e) × All (λ x. completes_one_of predecessors x ≡ false) events)
unfolding last_completed
last_completed-IsLast predecessors [] best e found = inr (found, tt)
last_completed-IsLast predecessors (x ∷ events) best e found =
    elim (last_completed-IsLast predecessors events
      (if completes_one_of predecessors x then some x else best) e found) [
        | inl later ↦ inl (later-IsLast (completes_one_of predecessors) x e events later)
        | inr (same, none_later) ↦ elim (Bool-cases (completes_one_of predecessors x)) [
          | inl fits ↦ inl (here fits same none_later)
          | inr misses ↦ inr (ground (arith, same, misses), (misses, none_later))
        ]
      ]
  where
    here :
        completes_one_of predecessors x ≡ true
        → (if completes_one_of predecessors x then some x else best) ≡ some e
        → All (λ x. completes_one_of predecessors x ≡ false) events
        → IsLast (completes_one_of predecessors) (x ∷ events) e
    here fits same none_later =
        let is_it : x ≡ e = ground (arith, fits, same) in
        record {
          before = [];
          after = events;
          among = ap (λ y. y ∷ events) is_it;
          fits = ap (completes_one_of predecessors) (sym is_it) ∙ fits;
          none_behind = none_later;
        }

first_started-IsFirst :
    (events : List Envelope) (e : Envelope)
    → first_started events ≡ some e
    → IsFirst (λ x. is_workflow_started x.body) events e
unfolding first_started
first_started-IsFirst [] e found = absurd (ground (arith, found))
first_started-IsFirst (x ∷ events) e found = elim (Bool-cases (is_workflow_started x.body)) [
  | inl fits ↦
      let is_it : x ≡ e = ground (arith, fits, found) in
      record {
        before = [];
        after = events;
        among = ap (λ y. y ∷ events) is_it;
        fits = ap (λ y. is_workflow_started y.body) (sym is_it) ∙ fits;
        none_before = tt;
      }
  | inr misses ↦
      let h = first_started-IsFirst events e (ground (arith, misses, found)) in
      record {
        before = x ∷ h.before;
        after = h.after;
        among = ap (λ l. x ∷ l) h.among;
        fits = h.fits;
        none_before = (misses, h.none_before);
      }
]

-- The event that a phase with these predecessors waits for: the workflow's start where there are none.
abbrev pub IsTriggerOf : List String → List Envelope → Envelope → Type 0
IsTriggerOf [] events e = IsFirst (λ x. is_workflow_started x.body) events e
IsTriggerOf (p ∷ ps) events e = IsLast (completes_one_of (p ∷ ps)) events e

-- A retry replays the last completion of a predecessor of the phase, or the first start of the workflow
-- where the phase has no predecessor.
pub find_retry_trigger-IsTriggerOf :
    (events : List Envelope) (def : WorkflowDef) (from_phase : String) (e : Envelope)
    → find_retry_trigger events def from_phase ≡ some e
    → IsTriggerOf (get_or [] from_phase def.graph) events e
unfolding find_retry_trigger
find_retry_trigger-IsTriggerOf events def from_phase e =
    by_predecessors (get_or [] from_phase def.graph)
  where
    by_predecessors :
        (ps : List String)
        → elim ps [ [] ↦ first_started events | p ∷ qs ↦ last_completed (p ∷ qs) events none ]
          ≡ some e
        → IsTriggerOf ps events e
    by_predecessors [] found = first_started-IsFirst events e found
    by_predecessors (p ∷ ps) found = elim (last_completed-IsLast (p ∷ ps) events none e found) [
      | inl last ↦ last
      | inr (missing, none_later) ↦ absurd (ground (arith, missing))
    ]
