-- ===== src/Lib.antt =====
-- A model of the parts of Credit-scoring-mlops that decide: the approval-gated control plane of
-- ai_engineering/ (approvals, audit log, Kubernetes executor, reconciliation, HTTP handlers, tools and
-- the tool-calling loop, the agents), the scoring API and the Kafka consumer and producer of services/,
-- and the parts of src/ (validation, features, drift report, training pipeline) that decide something.
--
-- How the parts interact. A decision of the agent or a request creates an approval, which is pending.
-- A human decides it. `execute_approval` claims it, so that one caller owns the execution, and lets the
-- executor create one Kubernetes Job named after the approval. If the outcome is unknown, the
-- reconciliation service looks the Job up, and creates it again if it is absent. All of them write to
-- one audit log.
--
-- The drift report writes a signal file, which the monitoring agent, the tools of the language model and
-- the gauge of the scoring API read. The API and the Kafka consumer score an application with the same
-- features, model and rules, and write one table of scoring logs.
--
-- Files and code:
--   Json, Exec        dicts and JSON values; exceptions as values and methods as functions on a state
--                     (Json/Access: Python's access to values of any kind)
--   Schemas           ai_engineering/schemas/ (approvals, audit, decisions, events)
--   ApprovalStore     ai_engineering/storage/approval_store.py: each method is a function on the table,
--                     a list of rows, that commits or raises. Rows is the table, Lifecycle the states and
--                     the interleavings of calls, Steps, Evolution, Invariant, Claims and Queries prove
--   AuditStore        ai_engineering/storage/audit_store.py
--   AuditService      ai_engineering/services/audit_service.py
--   ApprovalService   ai_engineering/services/approval_service.py
--   World             what all these share, with the outside as a parameter; Effects and Rules say what an
--                     action may do to the approvals and to the cluster
--   KubernetesExecutor   ai_engineering/tools/kubernetes_executor.py; Names and Manifest are its two
--                     patterns and its rewriting of the manifest
--   Reconciliation    ai_engineering/services/reconciliation_service.py
--   ReconciliationWorker   ai_engineering/workers/reconciliation_worker.py, one batch, with the database's
--                     answer to its query as a parameter; Lock is the advisory lock, the whole cycle and
--                     the loop, Server what PostgreSQL and the pool of connections document
--   Security          ai_engineering/api/security.py
--   AgentApi          ai_engineering/api/agent_service.py
--   ControlApi        ai_engineering/api/main.py, the endpoints on approvals
--   Monitoring        ai_engineering/tools/monitoring_tools.py, agents/monitoring_agent.py,
--                     `save_retrain_signal` of src/monitoring/drift_report.py, and the gauge of
--                     services/api/main.py; Report is a drift report as data of its own
--   Orchestrator      ai_engineering/agents/orchestrator.py
--   DefaultRegistry   ai_engineering/tools/default_registry.py and kubernetes_tools.py, and `run_agent`
--                     of ai_engineering/api/agent_service.py
--   Mlflow            ai_engineering/tools/mlflow_tools.py, the part that reads; Search is what
--                     MLflow documents of a search of runs
--   MlAgent           ai_engineering/agents/ml_agent.py
--   Tools             ai_engineering/tools/registry.py
--   ToolCalling       ai_engineering/llm/tool_calling.py; Messages is what goes to and from the model
--   ExecutionTrace    ai_engineering/services/execution_trace.py
--   Promotion         ai_engineering/workflows/model_promotion_workflow.py, and promote_model of
--                     ai_engineering/tools/mlflow_tools.py
--   Reviewer          ai_engineering/agents/reviewer_agent.py
--   Scoring           services/api/scoring.py, less the features
--   Features          `build_features` of services/api/scoring.py, `add_features` of
--                     src/features/build_features.py, and src/utils/config.py
--   CreditApplication CreditApplication of services/api/schemas.py
--   ScoringLog        services/api/db/models.py and repository.py
--   ScoringApi        services/api/main.py and explainability.py
--   ScoringConsumer   services/kafka_consumer/scoring_consumer.py
--   Producer          services/kafka_producer/application_producer.py and scripts/kafka_producer.py
--   DataValidation    src/data/validate_data.py and schema.py
--   TrainingPipeline  src/training/run_training_pipeline.py
--   ModelSelection    src/training/select_best_model.py and promote_model.py; Rows has the rows of the runs, Firsts the first of a
--                     sorted data frame, Best and Champion what the scripts choose
--   Tests             concrete inputs for the theorems
--
-- How state and time are modelled. A method of a store runs under the row lock of its transaction, so it
-- is one step on the committed table; callers in several processes are interleavings of such steps, and
-- `Lifecycle.run` runs any of them. A request handler is a sequence of such steps on one `World`;
-- theorems on requests let them run one after the other. The workers' calls of
-- the advisory lock are steps too, in any order, and no session of the database ends by itself.
-- kubectl may answer anything, depending on all
-- commands before; the clock and uuid4 may give anything, also one value twice. Times are microseconds
-- since the epoch. Loops are structural recursion, the loop of the tool-calling agent on the number of
-- rounds that are left, so no fuel can run out.
--
-- Outside the model: SQL, pydantic, FastAPI, Prometheus, kubectl, MLflow, the language model, floats,
-- pandas, SHAP, the trained model, PostgreSQL's advisory locks and Kafka, which are parameters where the
-- code's decisions depend on them; the training scripts, the DAGs, the migrations and the dashboards,
-- which are glue around such libraries. `RetrainingWorkflow.build_plan` is left out: it calls methods
-- that its agents do not have, so it raises AttributeError on its first line.
pub mod Prelude
pub mod Json
pub mod Exec
pub mod Schemas
pub mod ApprovalStore
pub mod AuditStore
pub mod World
pub mod KubernetesExecutor
pub mod AuditService
pub mod ApprovalService
pub mod Reconciliation
pub mod Security
pub mod ControlApi
pub mod AgentApi
pub mod Tools
pub mod ToolCalling
pub mod DefaultRegistry
pub mod Scoring
pub mod CreditApplication
pub mod Features
pub mod ScoringLog
pub mod ScoringConsumer
pub mod ScoringApi
pub mod Producer
pub mod DataValidation
pub mod TrainingPipeline
pub mod ReconciliationWorker
pub mod ExecutionTrace
pub mod ModelSelection
pub mod Monitoring
pub mod Orchestrator
pub mod Mlflow
pub mod Promotion
pub mod Reviewer
pub mod MlAgent
mod Tests
