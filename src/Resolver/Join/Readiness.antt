-- ===== src/Resolver/Join/Readiness.antt =====
-- internal/engine/workflow_resolver.go: what checkJoinCondition says of a required persona that has not
-- completed.
use rick_driven_development.Prelude.{
  ◌≡◌, refl, String, true, List, [], ◌∷◌, Option, none, arith, eq_iff, ◌==◌, contains, ◌∙◌, ap,
}
use rick_driven_development.Prelude.Dict.{lookup}
use rick_driven_development.Workflow.Def.{WorkflowDef}
use rick_driven_development.Resolver.Join.{JoinState, collect, unsatisfied, verdict_of}

pub collect-absent :
    (wf_def : Option WorkflowDef) (requesting_handler p : String) (st : JoinState)
    (required : List String)
    → lookup p st.latest_by_persona ≡ none
    → contains required p ≡ true
    → contains (collect wf_def requesting_handler st required).1 p ≡ true
unfolding contains collect
collect-absent wf_def requesting_handler p st [] absent wanted = ground arith
collect-absent wf_def requesting_handler p st (req ∷ reqs) absent wanted =
    ground (
      arith,
      collect-absent wf_def requesting_handler p st reqs absent,
      absent_also (eq_iff req p).0,
    )
  where
    absent_also :
        (req == p ≡ true → req ≡ p) → req == p ≡ true → lookup req st.latest_by_persona ≡ none
    absent_also same hit = ap (λ x. lookup x st.latest_by_persona) (same hit) ∙ absent

pub verdict_of-contains :
    (r : List String × List String) (p : String)
    → contains r.1 p ≡ true
    → verdict_of r ≡ unsatisfied r.1
unfolding contains
verdict_of-contains (ids, []) p h = ground arith
verdict_of-contains (ids, m ∷ ms) p h = refl
