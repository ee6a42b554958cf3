-- ===== src/Mlflow.antt =====
-- ai_engineering/tools/mlflow_tools.py: the read-only inspection of models and runs. The MLflow client is a
-- parameter; promote_model is in Promotion.
pub mod Search
pub mod Newest
pub mod Comparison
use credit_scoring_mlops.Prelude.{
  ℕ, String, Bool, true, false, not, ◌||◌, ◌&&◌, Option, none, some, List, [], ◌∷◌, ◌++◌, ltb,
  is_some, contains, ◌==◌, string_eq, if◌then◌else◌, get_or,
}
use credit_scoring_mlops.Prelude.Int.{pos}
use credit_scoring_mlops.Prelude.Sorting.{sort_by}
use credit_scoring_mlops.Prelude.Text.{strip}
use credit_scoring_mlops.Json
use credit_scoring_mlops.Json.{Value, Fields, end, field}
use credit_scoring_mlops.Exec.{Error, value_error, Result, ok, err}

-- A run of the tracking server, with its metrics and parameters as dicts
pub record Run : Type 0 where
  pub run_id : String
  pub run_name : Option String
  pub status : String
  pub start_time : ℕ
  pub metrics : Fields
  pub params : Fields

-- What a call of `search_runs` asks for, with no limit where none is given
pub record Query : Type 0 where
  pub filter_string : String
  pub order_by : List String
  pub max_results : Option ℕ

pub record ChampionVersion : Type 0 where
  pub version : String
  pub run_id : String
  pub status : String

-- The client, the texts of exceptions, and Python's `<` of floats
pub record Mlflow : Type 0 where
  pub model_name : String
  pub model_alias : String
  pub get_model_version_by_alias : Result ChampionVersion
  pub get_run : String → Result Run
  pub get_experiment : Result (Option String)
  -- of an experiment
  pub search_runs : String → Query → Result (List Run)
  pub message : Error → String
  pub less : Value → Value → Bool

abbrev text : String → Value
text s = Value.str s

abbrev optional_text : Option String → Value
optional_text none = Value.null
optional_text (some s) = text s

-- One row of the comparison
pub record ComparedModel : Type 0 where
  pub run_name : String
  pub run_id : String
  pub roc_auc : Value
  pub gini : Value
  pub accuracy : Value
  pub precision : Value
  pub recall : Value
  pub f1 : Value

-- The row as a dict
unfoldable pub compared_fields : ComparedModel → Fields
compared_fields m = field "run_name" (text m.run_name) (
    field "run_id" (text m.run_id) (
      field "roc_auc" m.roc_auc (
        field "gini" m.gini (
          field "accuracy" m.accuracy
            (field "precision" m.precision (field "recall" m.recall (field "f1" m.f1 end)))))))

abbrev pub supported : List String
supported = "catboost_baseline" ∷ "lightgbm_baseline" ∷ "xgboost_baseline" ∷ []

-- `metrics.get(k)`
metric : String → Fields → Value
unfolding Json.get
metric k d = get_or (Json.get k d) Value.null

unfoldable pub compared : String → Run → ComparedModel
unfolding metric
compared name run = record {
  run_name = name;
  run_id = run.run_id;
  roc_auc = metric "roc_auc" run.metrics;
  gini = metric "gini" run.metrics;
  accuracy = metric "accuracy" run.metrics;
  precision = metric "precision" run.metrics;
  recall = metric "recall" run.metrics;
  f1 = metric "f1" run.metrics;
}

-- `name in latest`
unfoldable pub has_name : String → List ComparedModel → Bool
has_name name [] = false
has_name name (m ∷ latest) = m.run_name == name || has_name name latest

-- `latest` after one turn of the loop
unfoldable pub add_run : Option String → Run → List ComparedModel → List ComparedModel
unfolding has_name compared
add_run none run latest = latest
add_run (some name) run latest =
    if not (contains supported name) || has_name name latest
    then latest
    else latest ++ compared name run ∷ []

unfoldable pub latest_models : List Run → List ComparedModel → List ComparedModel
unfolding add_run
latest_models [] latest = latest
latest_models (run ∷ runs) latest = latest_models runs (add_run run.run_name run latest)

-- the key of the sort
abbrev pub sort_key : ComparedModel → Value
sort_key m = elim m.roc_auc [ Value.null ↦ Value.float "-inf" | v ↦ v ]

unfoldable pub finished_query : ℕ → Query
finished_query limit = record {
  filter_string = "attributes.status = 'FINISHED'";
  order_by = "attributes.start_time DESC" ∷ [];
  max_results = some limit;
}

module _ (mlflow : Mlflow) where
  -- `get_champion_model`
  unfoldable pub get_champion_model : Fields
  get_champion_model = elim mlflow.get_model_version_by_alias [
    | err e ↦ field "available" (Value.bool false) (
        field "model_name" (text mlflow.model_name)
          (field "alias" (text mlflow.model_alias) (field "error" (text (mlflow.message e)) end)))
    | ok v ↦ field "available" (Value.bool true) (
        field "model_name" (text mlflow.model_name) (
          field "alias" (text mlflow.model_alias) (
            field "version" (text v.version)
              (field "run_id" (text v.run_id) (field "status" (text v.status) end)))))
  ]

  -- `get_run_metrics`
  unfoldable pub get_run_metrics : String → Result Fields
  unfolding strip
  get_run_metrics run_id =
      if run_id == "" || strip run_id == ""
      then err (value_error "run_id must not be empty")
      else elim (mlflow.get_run run_id) [
        | err e ↦ ok (
            field "available" (Value.bool false)
              (field "run_id" (text run_id) (field "error" (text (mlflow.message e)) end)))
        | ok run ↦ ok (
            field "available" (Value.bool true) (
              field "run_id" (text run.run_id) (
                field "run_name" (optional_text run.run_name) (
                  field "metrics" (Value.obj run.metrics)
                    (field "params" (Value.obj run.params) end)))))
      ]

  unfoldable pub found_runs : ℕ → Option String → Result (List Run)
  unfolding finished_query
  found_runs limit none = ok []
  found_runs limit (some experiment) = mlflow.search_runs experiment (finished_query limit)

  -- `get_latest_model_runs`
  unfoldable pub get_latest_model_runs : ℕ → Result (List Run)
  unfolding found_runs
  get_latest_model_runs limit =
      if ltb limit 1 || ltb 100 limit
      then err (value_error "limit must be between 1 and 100")
      else elim mlflow.get_experiment [
        | err e ↦ err e
        | ok experiment ↦ found_runs limit experiment
      ]

  -- `sorted(.., reverse=True)` keeps the order of equal keys
  unfoldable pub better : ComparedModel → ComparedModel → Bool
  better a b = not (mlflow.less (sort_key a) (sort_key b))

  -- `compare_latest_models`
  unfoldable pub compare_latest_models : Result (List ComparedModel)
  unfolding get_latest_model_runs latest_models better
  compare_latest_models = elim (get_latest_model_runs 100) [
    | err e ↦ err e
    | ok runs ↦ ok (sort_by better (latest_models runs []))
  ]
