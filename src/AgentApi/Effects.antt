-- ===== src/AgentApi/Effects.antt =====
-- ai_engineering/api/agent_service.py: what any sequence of requests may do to the approvals.
use credit_scoring_mlops.Prelude.{ℕ, String, refl, Option, [], ◌∷◌}
use credit_scoring_mlops.Json.{Fields}
use credit_scoring_mlops.Exec.{Error, Result, ok, err}
use credit_scoring_mlops.Schemas.{ApprovalRequest, ApprovalDecision, AuditEventType}
use credit_scoring_mlops.ApprovalStore.Lifecycle.{Op, apply, run}
use credit_scoring_mlops.World.{External, App}
use credit_scoring_mlops.World.Effects.{
  IsRun, IsRun-pure, IsRun-raise, IsRun-or_raise, IsRun-if, IsRun-bind, IsRun-quiet, IsRun-attempt,
  IsRun-catch, IsRun-raise_if,
}
use credit_scoring_mlops.World.Rules.{
  IsRun-record, IsRun-clock, IsRun-uuid, IsRun-inc, IsRun-claim, IsRun-unknown, IsRun-completed,
  IsRun-failed, IsRun-decide, IsRun-apply_job,
}
use credit_scoring_mlops.ApprovalService.{store_approval}
use credit_scoring_mlops.KubernetesExecutor.{Executor}
use credit_scoring_mlops.Reconciliation.Safety.{reconcile-IsRun, retry_if_absent-IsRun}
use credit_scoring_mlops.AgentApi.{
  ApprovalCreateRequest, log, submit, create_approval, get_approval, decide_approval, settle,
  settle_completed, settle_failed, run_claimed, launch, timed, execute_approval, reconcile_approval,
  retry_approval,
}

ruleset api_rules = (
  IsRun-pure, IsRun-raise, IsRun-or_raise, IsRun-if, IsRun-bind, IsRun-record, IsRun-clock,
  IsRun-uuid, IsRun-inc, IsRun-claim, IsRun-unknown, IsRun-completed, IsRun-failed, IsRun-decide,
  IsRun-apply_job, IsRun-attempt, IsRun-catch, IsRun-raise_if,
)

module _ (ext : External) (x : Executor) where
  log-IsRun :
      (a : ApprovalRequest) (kind : AuditEventType) (s : String) (e : Option String) (d : Fields)
      → IsRun ext (log ext x a kind s e d)
  unfolding log
  log-IsRun a kind s e d = search api_rules

  store_approval-IsRun : (a : ApprovalRequest) → IsRun ext (store_approval ext x a)
  unfolding store_approval run apply
  store_approval-IsRun a = record { at = λ w. (Op.create w.next_approval a ∷ [], refl) }

  submit-IsRun : (a : ApprovalRequest) → IsRun ext (submit ext x a)
  unfolding submit
  submit-IsRun a = search (api_rules, log-IsRun, store_approval-IsRun)

  pub create_approval-IsRun : (r : ApprovalCreateRequest) → IsRun ext (create_approval ext x r)
  unfolding create_approval
  create_approval-IsRun r = search (api_rules, submit-IsRun) depth 9

  settle_completed-IsRun :
      (k : String) (a : ApprovalRequest) (r : Fields) → IsRun ext (settle_completed ext x k a r)
  unfolding settle_completed
  settle_completed-IsRun k a r = search (api_rules, log-IsRun) depth 9

  settle_failed-IsRun :
      (k : String) (a : ApprovalRequest) (r : Fields) → IsRun ext (settle_failed ext x k a r)
  unfolding settle_failed
  settle_failed-IsRun k a r = search (api_rules, log-IsRun) depth 9

  settle-IsRun :
      (k : String) (a : ApprovalRequest) (r : Result Fields) → IsRun ext (settle ext x k a r)
  unfolding settle
  settle-IsRun k a (ok r) =
      search (api_rules, log-IsRun, settle_completed-IsRun, settle_failed-IsRun) depth 9
  settle-IsRun k a (err (Error.execution_unknown m)) = search (api_rules, log-IsRun) depth 12
  settle-IsRun k a (err e) = search (api_rules, log-IsRun) depth 12

  pub decide_approval-IsRun :
      (k : String) (d : ApprovalDecision) → IsRun ext (decide_approval ext x k d)
  unfolding decide_approval
  decide_approval-IsRun k d = search api_rules depth 9

  get_approval-IsRun : (k : String) → IsRun ext (get_approval ext x k)
  unfolding get_approval
  get_approval-IsRun k = search (api_rules, IsRun-quiet) depth 9

  pub reconcile_approval-IsRun :
      (lease : ℕ) (k : String) → IsRun ext (reconcile_approval ext x lease k)
  unfolding reconcile_approval
  reconcile_approval-IsRun lease k = search (api_rules, reconcile-IsRun) depth 9

  pub retry_approval-IsRun : (k : String) → IsRun ext (retry_approval ext x k)
  unfolding retry_approval
  retry_approval-IsRun k = search (api_rules, retry_if_absent-IsRun) depth 9

  timed-IsRun :
      {A : Type 0} (action : String) (m : App A) → IsRun ext m → IsRun ext (timed ext x action m)
  timed-IsRun action m k = record { at = k.at }

  launch-IsRun : (k : String) (a : ApprovalRequest) → IsRun ext (launch ext x k a)
  unfolding launch
  launch-IsRun k a = search (api_rules, settle-IsRun, timed-IsRun) depth 9

  run_claimed-IsRun : (k : String) (a : ApprovalRequest) → IsRun ext (run_claimed ext x k a)
  unfolding run_claimed
  run_claimed-IsRun k a = search (api_rules, log-IsRun, launch-IsRun) depth 9

  pub execute_approval-IsRun : (k : String) → IsRun ext (execute_approval ext x k)
  unfolding execute_approval
  execute_approval-IsRun k = search (api_rules, get_approval-IsRun, run_claimed-IsRun) depth 12
