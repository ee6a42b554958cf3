-- ===== src/Tests/Models.antt =====
-- The theorems on model comparison, evaluation, the default registry, the worker's lock and the raw data, applied to
-- concrete inputs.
use credit_scoring_mlops.Prelude.{
  ℕ, ◌+◌, String, ◌≡◌, ◌↔◌, refl, Bool, true, false, none, some, Option, List, [], ◌∷◌, map, ltb,
  string_eq, nat_eq, count_if, ◌==◌, if◌then◌else◌,
}
use credit_scoring_mlops.Prelude.Int.{ℤ, pos}
use credit_scoring_mlops.Prelude.Sorting.{IsSorted, sort_by}
use credit_scoring_mlops.Json
use credit_scoring_mlops.Json.{Value, Fields, end, field, JsonCodec}
use credit_scoring_mlops.Exec.{ok, err, value_error}
use credit_scoring_mlops.Monitoring.{missing}
use credit_scoring_mlops.Mlflow.{
  Run, Mlflow, ComparedModel, compared, latest_models, compare_latest_models, get_latest_model_runs,
}
use credit_scoring_mlops.Mlflow.Newest.{hit, NewestRow}
use credit_scoring_mlops.Mlflow.Search.{IsSearch}
use credit_scoring_mlops.Tests.Searches.{constant-IsSearch}
use credit_scoring_mlops.Mlflow.Comparison.{NotAbove, compare_latest_models-exact}
use credit_scoring_mlops.Reviewer.{QualityGateConfig}
use credit_scoring_mlops.MlAgent.{evaluate}
use credit_scoring_mlops.MlAgent.Gate.{evaluation_never_promotes}
use credit_scoring_mlops.Promotion.{MlflowClient, execute}
use credit_scoring_mlops.ToolCalling.Messages.{Provider}
use credit_scoring_mlops.World.Effects.{IsReading}
use credit_scoring_mlops.DefaultRegistry.{Readings, build_default_registry, run_agent}
use credit_scoring_mlops.Tools.{Registry, RegisteredTool}
use credit_scoring_mlops.DefaultRegistry.Safety.{run_agent-Reading}
use credit_scoring_mlops.DataValidation.{Cells, Frame, expected_columns, validate}
use credit_scoring_mlops.DataValidation.Clean.{IsClean}
use credit_scoring_mlops.DataValidation.Exact.{validate-IsClean}
use credit_scoring_mlops.TrainingPipeline.{commands, run_steps, Runs, run_steps-Runs}
use credit_scoring_mlops.Tests.{outside}

abbrev finished : Run
finished = record {
  run_id = "r1";
  run_name = some "catboost_baseline";
  status = "FINISHED";
  start_time = 7;
  metrics = field "roc_auc" (Value.float "0.8") end;
  params = end;
}

abbrev mlflow : Mlflow
mlflow = record {
  model_name = "CreditScoringCatBoost";
  model_alias = "champion";
  get_model_version_by_alias = ok (record { version = "1"; run_id = "r0"; status = "READY" });
  get_run = λ k. err (value_error "no such run");
  get_experiment = ok (some "1");
  search_runs = λ e n. ok (finished ∷ []);
  message = λ e. "error";
  less = λ a b. false;
}

found : get_latest_model_runs mlflow 100 ≡ ok (finished ∷ [])
unfolding get_latest_model_runs
found = refl

listed : compare_latest_models mlflow ≡ ok (compared "catboost_baseline" finished ∷ [])
unfolding compare_latest_models get_latest_model_runs latest_models sort_by string_eq
listed = refl

mlflow-IsSearch : IsSearch mlflow.search_runs
unfolding Json.get string_eq
mlflow-IsSearch =
    constant-IsSearch (finished ∷ []) (tt, tt) ((refl, refl, (Value.float "0.8", refl)), tt)

compare_latest_models-exact_example :
    (catboost lightgbm xgboost : Option ComparedModel) × NewestRow "catboost_baseline"
      (finished ∷ [])
      catboost
    × NewestRow "lightgbm_baseline" (finished ∷ []) lightgbm
    × NewestRow "xgboost_baseline" (finished ∷ []) xgboost
    × IsSorted (NotAbove mlflow) (compared "catboost_baseline" finished ∷ [])
    × ((q : ComparedModel → Bool)
        → count_if q (compared "catboost_baseline" finished ∷ [])
          ≡ hit q catboost + (hit q lightgbm + hit q xgboost))
compare_latest_models-exact_example =
    compare_latest_models-exact mlflow (finished ∷ []) (compared "catboost_baseline" finished ∷ [])
      found listed mlflow-IsSearch (λ a b c h h'. refl) (λ a b h. refl)

abbrev gates : QualityGateConfig Value
gates = record {
  min_roc_auc = Value.float "0.8";
  min_recall = Value.float "0.6";
  min_precision = Value.float "0.5";
  min_roc_auc_improvement = Value.float "0.0";
}

abbrev evaluation : Fields
evaluation = field "decision" (Value.str "MANUAL_REVIEW") (
    field "reason" (Value.str "No comparable model runs are available") (
      field "requires_human_approval" (Value.bool true) (
        field "champion"
          (Value.obj (
            field "available" (Value.bool true) (
              field "model_name" (Value.str "CreditScoringCatBoost") (
                field "alias" (Value.str "champion") (
                  field "version" (Value.str "1")
                    (field "run_id" (Value.str "r0") (field "status" (Value.str "READY") end)))))))
          (field "candidate" Value.null end))))

abbrev no_runs : Mlflow
no_runs = record mlflow { get_experiment = ok none }

evaluated : evaluate no_runs gates (λ a b. true) (λ a b. a) ≡ ok evaluation
unfolding evaluate compare_latest_models get_latest_model_runs latest_models sort_by
evaluated = refl

abbrev client : MlflowClient
client = record {
  model_name = "CreditScoringCatBoost";
  model_alias = "champion";
  get_model_version = λ k. ok (record { version = k; run_id = "r1" });
  get_by_alias = λ a. err (value_error "no champion");
  set_alias = λ a v. ok tt;
  message = λ e. "error";
  quoted = λ s. s;
}

evaluation_never_promotes_example : (execute client "2" evaluation true none).1 ≡ none
evaluation_never_promotes_example =
    evaluation_never_promotes no_runs gates (λ a b. true) (λ a b. a) client "2" evaluation true none
      evaluated

abbrev json : JsonCodec
json = record { dumps = λ v. "{}"; loads = λ s. none; decode_message = λ s. "Expecting value" }

abbrev readings : Readings
readings = record {
  json = json;
  signal = λ w. missing;
  mlflow = λ w. mlflow;
  kubernetes = λ w. record {
    manifest_path = "k8s/jobs/model-training-job.yaml";
    namespace = "ai-engineering";
    job_name = "credit-model-training";
    manifest_exists = true;
  };
}

abbrev chatty : Provider
chatty = record {
  is_installed = true;
  complete = λ w messages tools. ok (record {
    content = none;
    tool_calls =
        record { id = "c1"; name = "kubernetes_get_training_job_plan"; arguments = none } ∷ [];
  });
  dumps = λ v. "{}";
  decode_message = λ s. "Expecting value";
  type_name = λ e. "Exception";
  text_contains = λ a b. false;
}

run_agent-Reading_example :
    (registry : Registry) × (build_default_registry readings ≡ ok registry)
    × (map (λ (tool : RegisteredTool). tool.name) registry
        ≡ "monitoring_get_retrain_signal" ∷ "mlflow_get_champion_model"
          ∷ "mlflow_compare_latest_models" ∷ "kubernetes_get_training_job_plan" ∷ [])
    × IsReading outside (run_agent readings outside chatty "Plan a retraining")
run_agent-Reading_example = run_agent-Reading readings outside chatty "Plan a retraining"

abbrev numbers : Cells
numbers = record {
  Cell = ℕ;
  is_null = λ c. false;
  less = λ a b. ltb a b;
  same = λ a b. a == b;
  number = λ n. n;
}

abbrev frame : Frame numbers
frame = record { columns = expected_columns; rows = (λ c. if c == "alter" then 18 else 1) ∷ [] }

validate-IsClean_example : (validate numbers frame ≡ ok tt) ↔ IsClean numbers frame
validate-IsClean_example = validate-IsClean numbers frame

abbrev shell : List String → String → ℤ
shell ran command = if command == "python -m src.training.train_catboost" then pos 1 else pos 0

run_steps-Runs_example : Runs shell commands [] (run_steps shell commands [])
run_steps-Runs_example = run_steps-Runs shell commands []
