-- ===== src/MlAgent/Gate.antt =====
-- ai_engineering/agents/ml_agent.py and workflows/model_promotion_workflow.py: what the workflow makes of an evaluation.
use credit_scoring_mlops.Prelude.{String, ◌≡◌, refl, Bool, none, List, [], ◌∷◌, arith, string_eq}
use credit_scoring_mlops.Json
use credit_scoring_mlops.Json.{Value, Fields, says, is_true, is_text}
use credit_scoring_mlops.Exec.{ok}
use credit_scoring_mlops.Mlflow.{Mlflow, ComparedModel}
use credit_scoring_mlops.Reviewer.{QualityGateConfig, Review}
use credit_scoring_mlops.Promotion.{MlflowClient, Alias, execute, execute_gate}
use credit_scoring_mlops.MlAgent.{
  manual_review, reviewed, judged, compared_with, evaluated, evaluate,
}

-- The dict has no entry `approved`.
abbrev Unapproved : Fields → Type 0
Unapproved d = Json.get "approved" d ≡ none

reviewed-Unapproved : (r : Review Value) (a b c d : Fields) → Unapproved (reviewed r a b c d)
unfolding reviewed Json.get string_eq
reviewed-Unapproved r a b c d = refl

module _ (mlflow : Mlflow) (config : QualityGateConfig Value) (at_least : Value → Value → Bool)
    (plus : Value → Value → Value) where
  judged-Unapproved : (a b c d : Fields) → Unapproved (judged mlflow config at_least plus a b c d)
  unfolding judged manual_review Json.get string_eq
  judged-Unapproved a b c d = grind (arith, reviewed-Unapproved)

  compared_with-Unapproved :
      (champion candidate metrics d : Fields)
      → compared_with mlflow config at_least plus champion candidate metrics ≡ ok d
      → Unapproved d
  unfolding compared_with manual_review Json.get string_eq
  compared_with-Unapproved champion candidate metrics d h = grind (arith, h, judged-Unapproved)

  evaluated-Unapproved :
      (champion : Fields) (rows : List ComparedModel) (d : Fields)
      → evaluated mlflow config at_least plus champion rows ≡ ok d
      → Unapproved d
  unfolding evaluated manual_review Json.get string_eq
  evaluated-Unapproved champion [] d h = grind (arith, h)
  evaluated-Unapproved champion (best ∷ rows) d h = grind (arith, h, compared_with-Unapproved)

  evaluate-Unapproved : (d : Fields) → evaluate mlflow config at_least plus ≡ ok d → Unapproved d
  unfolding evaluate
  evaluate-Unapproved d h = grind (arith, h, evaluated-Unapproved)

  -- The promotion workflow moves no alias on what `MLAgent.evaluate` returns, whatever the reviewer decided and even with
  -- a human approval: that dict has the approval only inside its entry `quality_review`, where the workflow does not look.
  pub evaluation_never_promotes :
      (client : MlflowClient) (version : String) (evaluation : Fields) (human_approved : Bool)
      (alias : Alias)
      → evaluate mlflow config at_least plus ≡ ok evaluation
      → (execute client version evaluation human_approved alias).1 ≡ alias
  unfolding is_true
  evaluation_never_promotes client version evaluation human_approved alias h = grind (
    arith,
    evaluate-Unapproved evaluation h,
    execute_gate client version evaluation human_approved alias,
  )
