-- ===== src/Examples/Stream.antt =====
-- The theorems on the numbering of events, applied to a failing verdict and to a stream of two events.
use rick_driven_development.Prelude.{
  ℕ, ◌≡◌, ◌≢◌, ◌≤◌, refl, true, false, List, [], ◌∷◌, some, none, contains,
}
use rick_driven_development.Event.Envelope.{Envelope, verdict_rendered, workflow_requested}
use rick_driven_development.Aggregate.Runtime.{Outcome, done, panic}
use rick_driven_development.Aggregate.Program.{program}
use rick_driven_development.Engine.{
  Step, try_process_decision, rows_in, append, committed, conflict, already_exists,
}
use rick_driven_development.Engine.Storage.{Extends, append_gapless}
use rick_driven_development.Engine.Loop.Capacity.{StartsOnRequest}
use rick_driven_development.Engine.Loop.Starts.{try_process_decision-StartsOnRequest}
use rick_driven_development.Examples.Data.{plain, stamp, arrives, midway, failing_verdict}

abbrev from_reviewer : Envelope
from_reviewer = record (arrives (verdict_rendered (some failing_verdict))) {
  aggregate_id = "wf-1:persona:reviewer";
}

abbrev step_of : Outcome Step → Step
step_of panic = record { appended = []; published = [] }
step_of (done step) = step

abbrev verdict_step : Step
verdict_step = step_of (try_process_decision plain stamp stamp stamp midway "wf-1" from_reviewer)

try_process_decision-StartsOnRequest_example : StartsOnRequest from_reviewer verdict_step.published
unfolding program try_process_decision
try_process_decision-StartsOnRequest_example =
    try_process_decision-StartsOnRequest plain stamp stamp stamp midway "wf-1" from_reviewer
      verdict_step refl

abbrev row : Envelope
row = record (arrives (workflow_requested none)) { version = 1 }

abbrev second : Envelope
second = record row { id = "evt-second"; version = 2 }

abbrev elsewhere : Envelope
elsewhere = record row { id = "evt-elsewhere"; aggregate_id = "wf-2" }

abbrev table : List Envelope
table = row ∷ elsewhere ∷ second ∷ []

abbrev incoming : Envelope
incoming = record from_reviewer { id = "evt-incoming" }

append_gapless_example :
    let n : ℕ = 2 in
    (n ≢ 2 → append "wf-1" 2 (incoming ∷ []) table ≡ conflict 2 2)
    × (n ≡ 2
        → true ≡ true
        → (table' : List Envelope) × (append "wf-1" 2 (incoming ∷ []) table ≡ committed table')
          × Extends "wf-1" (incoming ∷ []) table table')
    × (n ≡ 2
        → true ≡ false
        → (v : ℕ) × (3 ≤ v) × (v ≤ 3) × (append "wf-1" 2 (incoming ∷ []) table ≡ already_exists v))
unfolding rows_in contains
append_gapless_example = append_gapless "wf-1" incoming [] table (refl, refl, (refl, refl, tt)) 2

-- The right expected version, and an id that another aggregate's event has.
repeated_id : append "wf-1" 2 (incoming ∷ elsewhere ∷ []) table ≡ already_exists 4
unfolding append
repeated_id = refl
