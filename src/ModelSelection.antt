-- ===== src/ModelSelection.antt =====
-- src/training/select_best_model.py, which logs the best of the newest runs, and
-- src/training/promote_model.py, which gives the champion alias to the newest CatBoost run. The MLflow
-- client and the data frame are parameters; the state of the second is the version that has the alias.
pub mod Rows
pub mod Firsts
pub mod Best
pub mod Champion
use credit_scoring_mlops.Prelude.{
  ℕ, String, ◌<>◌, Bool, true, false, Option, none, some, List, [], ◌∷◌, contains, ◌==◌, string_eq,
  if◌then◌else◌,
}
use credit_scoring_mlops.Json
use credit_scoring_mlops.Json.{Value}
use credit_scoring_mlops.Exec.{
  Error, key_error, value_error, other, Result, ok, err, Exec, pure, raise, lift, or_raise, gets,
  modify, ◌>>=◌, ◌>>◌,
}
use credit_scoring_mlops.Mlflow.{Run, Query, ComparedModel, supported, compared}
use credit_scoring_mlops.Promotion.{ModelVersion, Alias}

-- A row of the data frame: the start of the run, and the other columns
pub record Row : Type 0 where
  pub start_time : ℕ
  pub model : ComparedModel

-- What the best row is logged with
pub record Logged : Type 0 where
  pub selection_metric : String
  pub selection_strategy : String
  pub best_run_id : String
  pub best_run_name : String
  pub best_roc_auc : Value

-- The operations of the data frame, and `f"{v:.4f}"`
pub record Frames : Type 0 where
  -- `.sort_values(by="start_time", ascending=False)`
  pub by_start_time : List Row → List Row
  -- `.drop_duplicates(subset=["run_name"], keep="first")`
  pub drop_duplicates : List Row → List Row
  -- `.sort_values(by=METRIC_NAME, ascending=False)`
  pub by_metric : List Row → List Row
  pub formatted : Value → Result String

pub record Client : Type 0 where
  pub get_experiment : Result (Option String)
  pub search_runs : String → Query → Result (List Run)
  pub log : Logged → Result (Unit {0})
  pub search_model_versions : Result (List ModelVersion)
  pub set_alias : Alias → ModelVersion → Result (Unit {0})

unfoldable pub row_of : String → Run → Row
unfolding compared
row_of name run = record { start_time = run.start_time; model = compared name run }

unfoldable pub add_row : Option String → Run → List Row → List Row
unfolding row_of
add_row none run rest = rest
add_row (some name) run rest = if contains supported name then row_of name run ∷ rest else rest

-- the loop over the runs
unfoldable pub rows_of : List Run → List Row
unfolding add_row
rows_of [] = []
rows_of (run ∷ runs) = add_row run.run_name run (rows_of runs)

unfoldable pub logged_row : Row → Logged
logged_row best = record {
  selection_metric = "roc_auc";
  selection_strategy = "latest_run_per_model";
  best_run_id = best.model.run_id;
  best_run_name = best.model.run_name;
  best_roc_auc = best.model.roc_auc;
}

unfoldable pub measured_query : Query
measured_query = record {
  filter_string = "attributes.status = 'FINISHED' and metrics.roc_auc > 0";
  order_by = "attributes.start_time DESC" ∷ [];
  max_results = none;
}

module _ (client : Client) (frames : Frames) where
  -- `iloc[0]`, the report and the log
  unfoldable pub log_best : List Row → Result Logged
  unfolding logged_row
  log_best [] = err (other "single positional indexer is out-of-bounds")
  log_best (best ∷ rest) = elim (frames.formatted best.model.roc_auc) [
    | err e ↦ err e
    | ok shown ↦ elim (client.log (logged_row best)) [ err e ↦ err e | ok u ↦ ok (logged_row best) ]
  ]

  unfoldable pub compare_rows : List Row → Result Logged
  unfolding log_best
  compare_rows [] = err (value_error "No model runs found for comparison")
  compare_rows (row ∷ rows) =
      log_best (frames.by_metric (frames.drop_duplicates (frames.by_start_time (row ∷ rows))))

  unfoldable pub select_from : List Run → Result Logged
  unfolding compare_rows rows_of
  select_from [] = err (value_error "No finished model runs found")
  select_from (run ∷ runs) = compare_rows (rows_of (run ∷ runs))

  unfoldable pub select_in : Option String → Result Logged
  unfolding select_from measured_query
  select_in none = err (value_error "Experiment not found: credit-scoring")
  select_in (some experiment) = elim (client.search_runs experiment measured_query) [
    | err e ↦ err e
    | ok runs ↦ select_from runs
  ]

  -- `main` of select_best_model.py
  unfoldable pub select_best_model : Result Logged
  unfolding select_in select_from
  select_best_model = elim client.get_experiment [
    | err e ↦ err e
    | ok experiment ↦ select_in experiment
  ]

-- the loop that looks for the version of the run
unfoldable pub find_version : String → List ModelVersion → Option ModelVersion
find_version run_id [] = none
find_version run_id (v ∷ vs) =
    let rest = find_version run_id vs in if v.run_id == run_id then some v else rest

unfoldable pub catboost_query : Query
catboost_query = record {
  filter_string =
      "attributes.status = 'FINISHED' " <> "and tags.mlflow.runName = 'catboost_baseline' "
      <> "and metrics.roc_auc > 0";
  order_by = "attributes.start_time DESC" ∷ [];
  max_results = none;
}

unfoldable pub first_run : List Run → Option Run
first_run [] = none
first_run (run ∷ runs) = some run

module _ (client : Client) (formatted : Value → Result String) where
  unfoldable pub set_champion : ModelVersion → Exec Alias (Unit {0})
  set_champion v alias = elim (client.set_alias alias v) [
    | err e ↦ (err e, alias)
    | ok u ↦ (ok tt, some v)
  ]

  -- the alias, and the report
  unfoldable pub promote_version : Value → ModelVersion → Exec Alias (Unit {0})
  unfolding set_champion
  promote_version roc_auc matched = do
    set_champion matched
    shown ← lift (formatted roc_auc)
    pure tt

  unfoldable pub promote_run : Run → Exec Alias (Unit {0})
  unfolding find_version promote_version Json.get
  promote_run latest = do
    roc_auc ← or_raise (Json.get "roc_auc" latest.metrics) (key_error "roc_auc")
    versions ← lift client.search_model_versions
    matched ←
        or_raise (find_version latest.run_id versions)
          (value_error ("No registered model version found for run_id=" <> latest.run_id))
    promote_version roc_auc matched

  unfoldable pub promote_in : String → Exec Alias (Unit {0})
  unfolding first_run promote_run catboost_query
  promote_in experiment = do
    runs ← lift (client.search_runs experiment catboost_query)
    latest ← or_raise (first_run runs) (value_error "No finished runs found for catboost_baseline")
    promote_run latest

  -- `main` of promote_model.py
  unfoldable pub promote_newest : Exec Alias (Unit {0})
  unfolding promote_in
  promote_newest = do
    found ← lift client.get_experiment
    experiment ← or_raise found (value_error "Experiment not found: credit-scoring")
    promote_in experiment
