-- ===== src/ControlApi/Effects.antt =====
-- ai_engineering/api/main.py: what the endpoints may do to the approvals.
use credit_scoring_mlops.Prelude.{String}
use credit_scoring_mlops.Schemas.{ApprovalDecision}
use credit_scoring_mlops.World.{External}
use credit_scoring_mlops.World.Effects.{IsRun}
use credit_scoring_mlops.ApprovalService.Effects.{service_rules, decide-IsRun, execute-IsRun}
use credit_scoring_mlops.KubernetesExecutor.{Executor}
use credit_scoring_mlops.ControlApi.{decide_approval, execute_approval}

module _ (ext : External) (x : Executor) where
  pub decide_approval-IsRun :
      (k : String) (d : ApprovalDecision) → IsRun ext (decide_approval ext x k d)
  unfolding decide_approval
  decide_approval-IsRun k d = search (service_rules, decide-IsRun) depth 9

  pub execute_approval-IsRun : (k : String) → IsRun ext (execute_approval ext x k)
  unfolding execute_approval
  execute_approval-IsRun k = search (service_rules, execute-IsRun) depth 9
