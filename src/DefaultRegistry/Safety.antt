-- ===== src/DefaultRegistry/Safety.antt =====
-- ai_engineering/tools/default_registry.py: the default registry is well formed, and its tools only read.
use credit_scoring_mlops.Prelude.{String, ◌≡◌, refl, [], ◌∷◌, map, sym, subst, string_eq, nat_eq}
use credit_scoring_mlops.Prelude.Text.{strip}
use credit_scoring_mlops.Exec.{http, Result, ok, lift, ◌>>=◌}
use credit_scoring_mlops.World.{External, App}
use credit_scoring_mlops.World.Effects.{
  IsReading, IsReading-quiet, IsReading-raise, IsReading-catch,
}
use credit_scoring_mlops.Tools.{Registry, RegisteredTool, register_all, register}
use credit_scoring_mlops.ToolCalling
use credit_scoring_mlops.ToolCalling.Messages.{Provider, Answer}
use credit_scoring_mlops.ToolCalling.Safety.{OnlyReads, run_agent-IsReading}
use credit_scoring_mlops.DefaultRegistry.{
  Readings, default_tools, build_default_registry, run_agent,
}

module _ (readings : Readings) where
  build_default_registry-tools : build_default_registry readings ≡ ok (default_tools readings)
  unfolding build_default_registry default_tools register_all register string_eq strip nat_eq
  build_default_registry-tools = refl

  default_tools-OnlyReads : (ext : External) → OnlyReads ext (default_tools readings)
  unfolding default_tools
  default_tools-OnlyReads ext = (
    λ free d. IsReading-quiet ext _ (λ w. refl),
    (
      λ free d. IsReading-quiet ext _ (λ w. refl),
      (
        λ free d. IsReading-quiet ext _ (λ w. refl),
        (λ free d. IsReading-quiet ext _ (λ w. refl), tt),
      ),
    ),
  )

  abbrev converse : (ext : External) (p : Provider) (task : String) → Result Registry → App Answer
  converse ext p task r = lift r >>= λ tools. ToolCalling.run_agent ext p tools 4 task

  converse-IsReading :
      (ext : External) (p : Provider) (task : String)
      → IsReading ext (converse ext p task (build_default_registry readings))
  converse-IsReading ext p task =
      subst (λ r. IsReading ext (converse ext p task r)) (sym build_default_registry-tools)
        (record {
          at =
              (run_agent-IsReading ext p (default_tools readings) 4 task
                (default_tools-OnlyReads ext)).at;
        })

  default_agent-IsReading :
      (ext : External) (p : Provider) (task : String)
      → IsReading ext (run_agent readings ext p task)
  unfolding run_agent
  default_agent-IsReading ext p task =
      IsReading-catch ext _ _ (converse-IsReading ext p task)
        (λ e. IsReading-raise ext (http 500 "Agent execution failed"))

  -- The default registry can be built and has four tools, under four different names; and whatever a language model answers
  -- in whatever task, `run_agent` with them runs no command but ones that read the cluster.
  pub run_agent-Reading :
      (ext : External) (p : Provider) (task : String)
      → (registry : Registry) × (build_default_registry readings ≡ ok registry)
        × (map (λ (tool : RegisteredTool). tool.name) registry
            ≡ "monitoring_get_retrain_signal" ∷ "mlflow_get_champion_model"
              ∷ "mlflow_compare_latest_models" ∷ "kubernetes_get_training_job_plan" ∷ [])
        × IsReading ext (run_agent readings ext p task)
  unfolding default_tools
  run_agent-Reading ext p task = (
    default_tools readings,
    build_default_registry-tools,
    refl,
    default_agent-IsReading ext p task,
  )
