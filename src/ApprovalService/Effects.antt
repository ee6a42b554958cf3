-- ===== src/ApprovalService/Effects.antt =====
-- ai_engineering/services/approval_service.py: what `ApprovalService` may do to the approvals.
use credit_scoring_mlops.Prelude.{String}
use credit_scoring_mlops.Json.{Fields}
use credit_scoring_mlops.Exec.{execution_unknown, Result, ok, err}
use credit_scoring_mlops.Schemas.{ApprovalDecision}
use credit_scoring_mlops.World.{External}
use credit_scoring_mlops.World.Effects.{
  IsRun, IsRun-pure, IsRun-raise, IsRun-or_raise, IsRun-if, IsRun-bind, IsRun-quiet, IsRun-attempt,
  IsRun-catch, IsRun-raise_if,
}
use credit_scoring_mlops.World.Rules.{
  IsRun-clock, IsRun-claim, IsRun-unknown, IsRun-completed, IsRun-failed, IsRun-decide,
  IsRun-apply_job,
}
use credit_scoring_mlops.ApprovalService.{decide, execute, settle}
use credit_scoring_mlops.KubernetesExecutor.{Executor}

pub ruleset service_rules = (
  IsRun-pure, IsRun-raise, IsRun-or_raise, IsRun-if, IsRun-bind, IsRun-clock, IsRun-claim,
  IsRun-unknown, IsRun-completed, IsRun-failed, IsRun-decide, IsRun-apply_job, IsRun-attempt,
  IsRun-catch, IsRun-raise_if, IsRun-quiet,
)

module _ (ext : External) (x : Executor) where
  settle-IsRun : (k action : String) (r : Result Fields) → IsRun ext (settle ext x k action r)
  unfolding settle
  settle-IsRun k action (ok r) = search service_rules
  settle-IsRun k action (err (execution_unknown m)) = search service_rules
  settle-IsRun k action (err _) = search service_rules

  pub execute-IsRun : (k : String) → IsRun ext (execute ext x k)
  unfolding execute
  execute-IsRun k = search (service_rules, settle-IsRun) depth 12

  pub decide-IsRun : (d : ApprovalDecision) → IsRun ext (decide ext x d)
  unfolding decide
  decide-IsRun d = search service_rules
