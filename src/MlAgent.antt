-- ===== src/MlAgent.antt =====
-- ai_engineering/agents/ml_agent.py: the evaluation of the best candidate against the champion. The dicts it
-- returns are JSON values.
pub mod Gate
use credit_scoring_mlops.Prelude.{
  String, Bool, true, false, Option, none, some, List, [], ◌∷◌, if◌then◌else◌, ◌==◌, string_eq,
}
use credit_scoring_mlops.Json
use credit_scoring_mlops.Json.{Value, Fields, end, field, Items, nil, cons, flag, truthy, merge}
use credit_scoring_mlops.Json.Access.{get_default, item, texts}
use credit_scoring_mlops.Exec.{Error, Result, ok, err}
use credit_scoring_mlops.Mlflow.{
  Mlflow, ComparedModel, compared_fields, get_champion_model, get_run_metrics,
  compare_latest_models,
}
use credit_scoring_mlops.Reviewer.{Metrics, QualityGateConfig, Check, Review, review}

-- `metrics.get(k)`: None where it is missing
some_metric : Option Value → Option Value
some_metric (some Value.null) = none
some_metric o = o

metrics_of : Fields → Metrics Value
unfolding Json.get some_metric
metrics_of d = record {
  roc_auc = some_metric (Json.get "roc_auc" d);
  recall = some_metric (Json.get "recall" d);
  precision = some_metric (Json.get "precision" d);
}

optional : Option Value → Value
optional none = Value.null
optional (some v) = v

checks_fields : List Check → Fields
checks_fields [] = end
checks_fields (c ∷ checks) = field c.name (Value.bool c.passed) (checks_fields checks)

review_value : Review Value → Value
unfolding checks_fields texts optional
review_value r = Value.obj (
    field "decision" (Value.str r.decision) (
      field "approved" (Value.bool r.approved) (
        field "checks" (Value.obj (checks_fields r.checks)) (
          field "failed_checks" (Value.arr (texts r.failed_checks)) (
            field "champion_roc_auc" (optional r.champion_roc_auc) (
              field "candidate_roc_auc" (optional r.candidate_roc_auc)
                (field "reason" (Value.str r.reason) end)))))))

-- A dict of `evaluate` that asks for a review by hand, before its last entries
manual_review : String → Value → Fields → Fields
manual_review reason champion rest = field "decision" (Value.str "MANUAL_REVIEW") (
    field "reason" (Value.str reason)
      (field "requires_human_approval" (Value.bool true) (field "champion" champion rest)))

-- The text of a dict's entry, and its dict; the entries are ones of `get_champion_model` and `get_run_metrics`
text_at : String → Fields → String
unfolding Json.get
text_at k d = elim (Json.get k d) [ some v ↦ (elim v [ Value.str s ↦ s | w ↦ "" ]) | none ↦ "" ]

dict_at : String → Fields → Fields
unfolding Json.get
dict_at k d = elim (Json.get k d) [ some v ↦ (elim v [ Value.obj m ↦ m | w ↦ end ]) | none ↦ end ]

missing_champion : Fields
missing_champion =
    field "available" (Value.bool false)
      (field "reason" (Value.str "Champion run metadata is unavailable") end)

-- The last dict of `evaluate`
reviewed : Review Value → Fields → Fields → Fields → Fields → Fields
unfolding review_value merge dict_at
reviewed r champion champion_metrics candidate candidate_metrics =
    field "decision" (Value.str r.decision) (
      field "reason" (Value.str r.reason) (
        field "requires_human_approval" (Value.bool true) (
          field "champion"
            (Value.obj (
              merge champion
                (field "metrics" (Value.obj (dict_at "metrics" champion_metrics)) end)))
            (field "candidate"
              (Value.obj (
                merge candidate
                  (field "metrics" (Value.obj (dict_at "metrics" candidate_metrics)) end)))
              (field "quality_review" (review_value r) end)))))

module _ (mlflow : Mlflow) (config : QualityGateConfig Value) (at_least : Value → Value → Bool)
    (plus : Value → Value → Value) where
  -- `inspect`, an error being an exception of the comparison
  unfoldable pub inspect : Result (Fields × List ComparedModel)
  unfolding get_champion_model compare_latest_models
  inspect = elim (compare_latest_models mlflow) [
    | err e ↦ err e
    | ok rows ↦ ok (get_champion_model mlflow, rows)
  ]

  judged : Fields → Fields → Fields → Fields → Fields
  unfolding flag reviewed review metrics_of dict_at manual_review
  judged champion champion_metrics candidate candidate_metrics =
      if flag "available" champion_metrics
      then reviewed
          (review at_least plus config (metrics_of (dict_at "metrics" champion_metrics))
            (metrics_of (dict_at "metrics" candidate_metrics)))
          champion champion_metrics candidate candidate_metrics
      else manual_review "Champion metrics could not be retrieved from MLflow" (Value.obj champion)
          (field "champion_metrics" (Value.obj champion_metrics) (
            field "candidate" (Value.obj candidate)
              (field "candidate_metrics" (Value.obj candidate_metrics) end)))

  -- the metrics of the champion's run, if its metadata names one
  champion_metrics_of : Fields → Result Fields
  unfolding flag text_at missing_champion get_run_metrics
  champion_metrics_of champion =
      if flag "available" champion
      then (if text_at "run_id" champion == ""
          then ok missing_champion
          else get_run_metrics mlflow (text_at "run_id" champion))
      else ok missing_champion

  compared_with : Fields → Fields → Fields → Result Fields
  unfolding flag champion_metrics_of judged manual_review
  compared_with champion candidate candidate_metrics =
      if flag "available" candidate_metrics
      then elim (champion_metrics_of champion) [
        | err e ↦ err e
        | ok champion_metrics ↦ ok (judged champion champion_metrics candidate candidate_metrics)
      ]
      else ok (
          manual_review "Candidate metrics could not be retrieved from MLflow" (Value.obj champion)
            (field "candidate" (Value.obj candidate)
              (field "candidate_metrics" (Value.obj candidate_metrics) end)))

  evaluated : Fields → List ComparedModel → Result Fields
  unfolding compared_with manual_review compared_fields get_run_metrics
  evaluated champion [] = ok (
      manual_review "No comparable model runs are available" (Value.obj champion)
        (field "candidate" Value.null end))
  evaluated champion (best ∷ rows) = elim (get_run_metrics mlflow best.run_id) [
    | err e ↦ err e
    | ok candidate_metrics ↦ compared_with champion (compared_fields best) candidate_metrics
  ]

  -- `evaluate`, and `recommend`, which is the same
  unfoldable pub evaluate : Result Fields
  unfolding inspect evaluated
  evaluate = elim inspect [ err e ↦ err e | ok state ↦ evaluated state.0 state.1 ]
