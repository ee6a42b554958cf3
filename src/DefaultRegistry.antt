-- ===== src/DefaultRegistry.antt =====
-- ai_engineering/tools/default_registry.py and kubernetes_tools.py: the tools that the agent of
-- ai_engineering/api/agent_service.py may call, and `run_agent`, which runs it.
pub mod Safety
use credit_scoring_mlops.Prelude.{
  ℕ, String, ◌<>◌, Bool, true, false, not, ◌&&◌, ◌||◌, Option, none, some, List, [], ◌∷◌, ◌==◌,
  string_eq, contains, if◌then◌else◌, map,
}
use credit_scoring_mlops.Json
use credit_scoring_mlops.Json.{Value, Fields, end, field, Items, nil, cons, truthy, JsonCodec}
use credit_scoring_mlops.Json.Access.{get_default, iterate, texts}
use credit_scoring_mlops.Exec.{
  Error, type_error, http, Result, ok, err, pure, raise, lift, catch, ◌>>=◌,
}
use credit_scoring_mlops.World.{External, World, App}
use credit_scoring_mlops.Tools.{RegisteredTool, Registry, register_all}
use credit_scoring_mlops.Monitoring.{SignalFile, get_retrain_signal, signal_value}
use credit_scoring_mlops.Mlflow.{
  Mlflow, ComparedModel, get_champion_model, compare_latest_models, compared_fields,
}
use credit_scoring_mlops.ToolCalling
use credit_scoring_mlops.ToolCalling.Messages.{Provider, Answer}

-- class KubernetesTools, and whether its manifest exists
pub record KubernetesTools : Type 0 where
  pub manifest_path : String
  pub namespace : String
  pub job_name : String
  pub manifest_exists : Bool

-- What the tools read: the signal's file, MLflow, and the file system for the plan
pub record Readings : Type 0 where
  pub json : JsonCodec
  pub signal : World → SignalFile
  pub mlflow : World → Mlflow
  pub kubernetes : World → KubernetesTools

-- `list(v or [])`
listed : Value → Result Items
unfolding truthy iterate
listed v = if truthy v then iterate v else ok nil

plan_fields : KubernetesTools → Value → Items → Fields
plan_fields k reason drifted = field "available" (Value.bool true) (
    field "action" (Value.str "create_training_job") (
      field "namespace" (Value.str k.namespace) (
        field "job_name" (Value.str k.job_name) (
          field "manifest_path" (Value.str k.manifest_path) (
            field "reason" reason (
              field "drifted_features" (Value.arr drifted) (
                field "requires_human_approval" (Value.bool true)
                  (field "execution" (Value.str "approval_gated") end))))))))

no_manifest : KubernetesTools → Fields
no_manifest k = field "available" (Value.bool false) (
    field "action" (Value.str "manual_review") (
      field "reason" (Value.str ("Training manifest not found: " <> k.manifest_path))
        (field "requires_human_approval" (Value.bool true) end)))

-- `build_training_job_plan`
unfoldable pub build_training_job_plan : KubernetesTools → Value → Value → Result Fields
unfolding plan_fields no_manifest listed
build_training_job_plan k reason drifted_features =
    if not k.manifest_exists then ok (no_manifest k) else elim (listed drifted_features) [
      | err e ↦ err e
      | ok drifted ↦ ok (plan_fields k reason drifted)
    ]

-- `get_training_job_plan`, with the defaults of `build_training_job_plan`
unfoldable pub get_training_job_plan : KubernetesTools → Result Fields
unfolding build_training_job_plan
get_training_job_plan k =
    build_training_job_plan k (Value.str "Retraining requested by the monitoring workflow")
      Value.null

as_value : Result Fields → Result Value
as_value (ok d) = ok (Value.obj d)
as_value (err e) = err e

compared_items : List ComparedModel → Items
unfolding compared_fields
compared_items [] = nil
compared_items (m ∷ ms) = cons (Value.obj (compared_fields m)) (compared_items ms)

comparison_value : Result (List ComparedModel) → Result Value
unfolding compared_items
comparison_value (ok ms) = ok (Value.arr (compared_items ms))
comparison_value (err e) = err e

-- a call `handler(**arguments)` of a method that takes none
without_arguments : Fields → Result Value → Result Value
without_arguments end r = r
without_arguments (field k v d) r = err (type_error "got an unexpected keyword argument")

only_known : List String → Fields → Bool
only_known known end = true
only_known known (field k v d) = contains known k && only_known known d

plan_with : KubernetesTools → Fields → Result Value
unfolding only_known build_training_job_plan as_value Json.get
plan_with k d =
    if only_known ("reason" ∷ "drifted_features" ∷ []) d
    then as_value (
        build_training_job_plan k
          (get_default "reason" (Value.str "Retraining requested by the monitoring workflow") d)
          (get_default "drifted_features" Value.null d))
    else err (type_error "got an unexpected keyword argument")

signal_result : JsonCodec → SignalFile → Result Value
unfolding get_retrain_signal signal_value
signal_result json file = elim (get_retrain_signal json file) [
  | err e ↦ err e
  | ok s ↦ ok (signal_value s)
]

-- `{"type": "object", "properties": properties, "additionalProperties": False}`
schema : Fields → Fields
schema properties = field "type" (Value.str "object") (
    field "properties" (Value.obj properties) (field "additionalProperties" (Value.bool false) end))

plan_properties : Fields
plan_properties = field "reason" (Value.obj (field "type" (Value.str "string") end)) (
    field "drifted_features"
      (Value.obj (
        field "type" (Value.str "array")
          (field "items" (Value.obj (field "type" (Value.str "string") end)) end)))
      end)

module _ (readings : Readings) where
  default_tools : List RegisteredTool
  unfolding schema plan_properties signal_result without_arguments comparison_value plan_with
      get_champion_model
  default_tools =
      record {
        name = "monitoring_get_retrain_signal";
        description = "Read the current Evidently retraining signal. Read-only.";
        parameters = schema end;
        handler = λ d w. (without_arguments d (signal_result readings.json (readings.signal w)), w);
        requires_human_approval = false;
      }
      ∷ record {
        name = "mlflow_get_champion_model";
        description = "Read the current champion model metadata from MLflow. Read-only.";
        parameters = schema end;
        handler = λ d w.
            (without_arguments d (ok (Value.obj (get_champion_model (readings.mlflow w)))), w);
        requires_human_approval = false;
      }
      ∷ record {
        name = "mlflow_compare_latest_models";
        description =
            "Compare the latest CatBoost, LightGBM and XGBoost runs in MLflow. Read-only.";
        parameters = schema end;
        handler = λ d w.
            (without_arguments d (comparison_value (compare_latest_models (readings.mlflow w))), w);
        requires_human_approval = false;
      }
      ∷ record {
        name = "kubernetes_get_training_job_plan";
        description =
            "Generate a Kubernetes training-job plan for human review. "
            <> "This tool does not execute Kubernetes actions.";
        parameters = schema plan_properties;
        handler = λ d w. (plan_with (readings.kubernetes w) d, w);
        requires_human_approval = false;
      }
      ∷ []

  -- `build_default_registry`
  unfoldable pub build_default_registry : Result Registry
  unfolding default_tools register_all
  build_default_registry = register_all default_tools []

  -- `run_agent`, with the agent of `build_agent`
  unfoldable pub run_agent : External → Provider → String → App Answer
  unfolding build_default_registry
  run_agent ext p task =
      catch (lift build_default_registry >>= λ tools. ToolCalling.run_agent ext p tools 4 task)
        (λ e. raise (http 500 "Agent execution failed"))
