-- ===== src/Reconciliation/Safety.antt =====
-- ai_engineering/services/reconciliation_service.py: what reconciling and retrying may change.
use credit_scoring_mlops.Prelude.{ℕ, String, refl, arith}
use credit_scoring_mlops.Json.{Fields}
use credit_scoring_mlops.Exec.{Result, ok, err}
use credit_scoring_mlops.Schemas.{ApprovalRequest, AuditEventType}
use credit_scoring_mlops.World.{External}
use credit_scoring_mlops.World.Effects.{
  IsRun, IsReading, IsRun-pure, IsRun-raise, IsRun-or_raise, IsRun-if, IsRun-bind, IsReading-pure,
  IsReading-raise, IsReading-or_raise, IsReading-if, IsReading-bind, IsRun-quiet, IsReading-quiet,
  IsRun-attempt,
}
use credit_scoring_mlops.World.Rules.{
  IsRun-record, IsReading-record, IsRun-clock, IsReading-clock, IsRun-inc, IsReading-inc,
  IsReading-store, IsRun-claim_retry, IsRun-unknown, IsRun-completed, IsRun-failed, IsRun-recover,
  IsRun-apply_job, IsRun-job_status,
}
use credit_scoring_mlops.KubernetesExecutor.{Executor}
use credit_scoring_mlops.KubernetesExecutor.Safety.{get_training_job_status-IsReading}
use credit_scoring_mlops.Reconciliation.{
  read_approval, log_of, mark_completed, mark_failed, mark_unknown, reread, recover, resolve,
  reconcile, settle_retry, recreate, retry_with, adopt, retry_on, retry_if_absent,
}

ruleset reading_rules = (
  IsReading-pure, IsReading-raise, IsReading-or_raise, IsReading-if, IsReading-bind,
  IsReading-record, IsReading-clock, IsReading-inc, IsReading-store,
  get_training_job_status-IsReading,
)

module _ (ext : External) (x : Executor) where
  log_of-IsReading :
      (a : ApprovalRequest) (kind : AuditEventType) (s : String) (d : Fields)
      → IsReading ext (log_of ext x a kind s d)
  unfolding log_of
  log_of-IsReading a kind s d = search reading_rules

  reread-IsReading : (k : String) (a : ApprovalRequest) → IsReading ext (reread ext x k a)
  unfolding reread
  reread-IsReading k a = IsReading-quiet ext (reread ext x k a) (λ w. refl)

  read_approval-IsReading : (k : String) → IsReading ext (read_approval ext x k)
  unfolding read_approval
  read_approval-IsReading k = IsReading-quiet ext (read_approval ext x k) (λ w. ground arith)

  recover-IsReading :
      (lease : ℕ) (k : String) (a : ApprovalRequest) → IsReading ext (recover ext x lease k a)
  unfolding recover
  recover-IsReading lease k a = search reading_rules depth 9

  resolve-IsReading :
      (lease : ℕ) (k : String) (a : ApprovalRequest) (d : Fields)
      → IsReading ext (resolve ext x lease k a d)
  unfolding resolve mark_completed mark_failed
  resolve-IsReading lease k a d =
      search (reading_rules, recover-IsReading, reread-IsReading) depth 9

  -- Reconciling only reads the cluster, whatever it finds: all commands that it runs are `kubectl get`.
  pub reconcile-IsReading : (lease : ℕ) (k : String) → IsReading ext (reconcile ext x lease k)
  unfolding reconcile
  reconcile-IsReading lease k =
      search (reading_rules, log_of-IsReading, resolve-IsReading, read_approval-IsReading) depth 9

ruleset run_rules = (
  IsRun-pure, IsRun-raise, IsRun-or_raise, IsRun-if, IsRun-bind, IsRun-record, IsRun-clock,
  IsRun-inc, IsRun-claim_retry, IsRun-unknown, IsRun-completed, IsRun-failed, IsRun-recover,
  IsRun-apply_job, IsRun-job_status, IsRun-attempt,
)

module _ (ext : External) (x : Executor) where
  log_of-IsRun :
      (a : ApprovalRequest) (kind : AuditEventType) (s : String) (d : Fields)
      → IsRun ext (log_of ext x a kind s d)
  unfolding log_of
  log_of-IsRun a kind s d = search run_rules

  reread-IsRun : (k : String) (a : ApprovalRequest) → IsRun ext (reread ext x k a)
  unfolding reread
  reread-IsRun k a = IsRun-quiet ext (reread ext x k a) (λ w. refl)

  read_approval-IsRun : (k : String) → IsRun ext (read_approval ext x k)
  unfolding read_approval
  read_approval-IsRun k = IsRun-quiet ext (read_approval ext x k) (λ w. ground arith)

  recover-IsRun :
      (lease : ℕ) (k : String) (a : ApprovalRequest) → IsRun ext (recover ext x lease k a)
  unfolding recover
  recover-IsRun lease k a = search run_rules depth 9

  mark_unknown-IsRun : (k : String) (d : Fields) → IsRun ext (mark_unknown ext x k d)
  unfolding mark_unknown
  mark_unknown-IsRun k d = search run_rules

  resolve-IsRun :
      (lease : ℕ) (k : String) (a : ApprovalRequest) (d : Fields)
      → IsRun ext (resolve ext x lease k a d)
  unfolding resolve
  resolve-IsRun lease k a d = search (run_rules, recover-IsRun, reread-IsRun) depth 9

  -- To the approvals `reconcile` is a run of calls of the store, whether it returns or raises: what holds
  -- of every run holds of it.
  pub reconcile-IsRun : (lease : ℕ) (k : String) → IsRun ext (reconcile ext x lease k)
  unfolding reconcile
  reconcile-IsRun lease k =
      search (run_rules, log_of-IsRun, resolve-IsRun, read_approval-IsRun) depth 9

  settle_retry-IsRun : (k : String) (r : Result Fields) → IsRun ext (settle_retry ext x k r)
  unfolding settle_retry
  settle_retry-IsRun k (ok d) = search run_rules
  settle_retry-IsRun k (err e) = mark_unknown-IsRun k _

  recreate-IsRun : (k : String) → IsRun ext (recreate ext x k)
  unfolding recreate
  recreate-IsRun k = search (run_rules, settle_retry-IsRun)

  retry_on-IsRun :
      (k : String) (a c : ApprovalRequest) (d : Fields) → IsRun ext (retry_on ext x k a c d)
  unfolding retry_on adopt
  retry_on-IsRun k a c d = search (run_rules, log_of-IsRun, reread-IsRun, recreate-IsRun) depth 12

  retry_with-IsRun :
      (k : String) (a c : ApprovalRequest) (r : Result Fields)
      → IsRun ext (retry_with ext x k a c r)
  unfolding retry_with
  retry_with-IsRun k a c (ok d) = retry_on-IsRun k a c d
  retry_with-IsRun k a c (err e) = mark_unknown-IsRun k _

  -- To the approvals `retry_if_absent` is a run of calls of the store too.
  pub retry_if_absent-IsRun : (k : String) → IsRun ext (retry_if_absent ext x k)
  unfolding retry_if_absent
  retry_if_absent-IsRun k =
      search (run_rules, log_of-IsRun, read_approval-IsRun, retry_with-IsRun) depth 12
