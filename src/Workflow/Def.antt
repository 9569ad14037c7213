-- ===== src/Workflow/Def.antt =====
-- internal/engine/workflow_def.go: the definition record and its small accessors.
use rick_driven_development.Prelude.{
  ℕ, ◌+◌, ◌≡◌, String, Bool, false, true, not, ◌&&◌, ◌||◌, List, [], ◌∷◌, ◌==◌, ltb, length,
  contains, if◌then◌else◌,
}
use rick_driven_development.Prelude.Dict.{Dict}
use rick_driven_development.Event.Payload.{Float64}

-- handler → predecessors
abbrev pub Graph : Type 0
Graph = Dict (List String)

-- Event types are written by their names here.
pub record WorkflowDef : Type 0 where
  pub id : String
  pub required : List String
  pub graph : Graph
  pub max_iterations : ℕ
  pub escalate_on_max_iter : Bool
  pub hint_threshold : Float64
  pub retriggered_by : Dict (List String)
  pub max_chain_depth : ℕ
  pub partial_review_on_failure : Bool
  pub synchronous_feedback : Bool
  pub consolidated_reviewers : List String
  pub review_consolidator : String

unfoldable pub is_consolidated_reviewer : WorkflowDef → String → Bool
is_consolidated_reviewer d source_persona =
    if not d.synchronous_feedback || source_persona == ""
    then false
    else contains d.consolidated_reviewers source_persona

unfoldable pub effective_max_chain_depth : WorkflowDef → ℕ
effective_max_chain_depth d =
    if ltb 0 d.max_chain_depth then d.max_chain_depth else length d.required + 5

-- `h` lists `d` among its predecessors.
unfoldable pub depends : Graph → String → String → Bool
unfolding contains
depends [] h d = false
depends ((k, deps) ∷ g) h d = (k == h && contains deps d) || depends g h d

-- `h` depends on `p` through any number of edges, none included.
pub data Downstream (g : Graph) (p : String) : String → Type 0 where
  here : Downstream g p p
  next : {d h : String} → Downstream g p d → depends g h d ≡ true → Downstream g p h
