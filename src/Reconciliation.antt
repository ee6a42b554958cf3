-- ===== src/Reconciliation.antt =====
-- ai_engineering/services/reconciliation_service.py: `ReconciliationService`, which settles executions
-- whose outcome is uncertain.
pub mod Safety
pub mod Retry
use credit_scoring_mlops.Prelude.{
  ℕ, suc, String, ◌<>◌, Bool, true, false, not, ◌&&◌, ◌||◌, Option, none, some, List, [], ◌∷◌, ltb,
  ◌==◌, string_eq, if◌then◌else◌, get_or,
}
use credit_scoring_mlops.Prelude.Int.{ℤ, pos}
use credit_scoring_mlops.Json
use credit_scoring_mlops.Json.{Value, Fields, end, field, flag, says, merge, insert, is_true}
use credit_scoring_mlops.Exec.{
  Error, key_error, value_error, Result, ok, err, Exec, pure, raise, gets, or_raise, raise_if,
  ◌>>=◌, ◌>>◌,
}
use credit_scoring_mlops.Schemas.{
  ApprovalRequest, ApprovalStatus, unknown, executing, status_eq, status_value, AuditEventType,
  execution_reconciliation_started, execution_reconciliation_completed, execution_unknown,
  execution_retry,
}
use credit_scoring_mlops.ApprovalStore
use credit_scoring_mlops.World.{External, World, App, attempt, on_approvals, read_clock, inc}
use credit_scoring_mlops.AuditService.{record_event, entry}
use credit_scoring_mlops.ApprovalService.{unknown_result}
use credit_scoring_mlops.KubernetesExecutor.{Executor, apply_training_job, get_training_job_status}

abbrev text : String → Value
text s = Value.str s

-- f"credit-training-{approval_id}"
abbrev pub job_of : String → String
job_of k = "credit-training-" <> k

-- `{"executed": b, "reconciled": True, **result}`
unfoldable pub reconciled : Bool → Fields → Fields
unfolding merge
reconciled b result =
    merge (field "executed" (Value.bool b) (field "reconciled" (Value.bool true) end)) result

-- `{"lease_seconds": .., "job_name": ..}`
lease_payload : ℕ → String → Fields
lease_payload lease name =
    field "lease_seconds" (Value.int (pos lease)) (field "job_name" (text name) end)

-- `result.get("exists") and result.get("status") == state`
unfoldable pub exists_as : String → Fields → Bool
unfolding flag says
exists_as state result = flag "exists" result && says "status" state result

-- `__init__`: the lease must be positive
unfoldable pub check_lease : ℕ → Result ℕ
check_lease lease =
    if ltb lease 1 then err (value_error "execution_lease_seconds must be positive") else ok lease

module _ (ext : External) (x : Executor) where
  -- the approval, or KeyError
  read_approval : String → App ApprovalRequest
  read_approval k = do
    approval ← gets (λ w. ApprovalStore.get k w.approvals)
    or_raise approval (key_error ("Approval not found: " <> k))

  -- `record` with the approval's trace and action
  log_of : ApprovalRequest → AuditEventType → String → Fields → App (Unit {0})
  log_of approval kind status payload = do
    record_event ext kind approval.trace_id
        (record entry { action = some approval.action; status = some status; payload = payload })
    pure tt

  mark_completed : String → Fields → App ApprovalRequest
  mark_completed k result = on_approvals (ApprovalStore.mark_completed ext.normalise k result none)

  mark_failed : String → Fields → App ApprovalRequest
  mark_failed k result = on_approvals (ApprovalStore.mark_failed ext.normalise k result none)

  mark_unknown : String → Fields → App ApprovalRequest
  mark_unknown k result = on_approvals (ApprovalStore.mark_unknown ext.normalise k result none)

  -- `self.store.get(k) or approval`
  reread : String → ApprovalRequest → App ApprovalRequest
  reread k approval w = (ok (get_or (ApprovalStore.get k w.approvals) approval), w)

  -- The branch of an executing approval whose Job is absent
  recover : ℕ → String → ApprovalRequest → App ApprovalRequest
  unfolding lease_payload
  recover lease k approval = do
    now ← read_clock ext
    (recovered, stale) ←
        on_approvals (ApprovalStore.recover_stale_execution ext.isoformat now k lease none)
    if not stale then pure recovered else do
      record_event ext execution_unknown approval.trace_id (record entry {
        action = some approval.action;
        status = some (status_value unknown);
        error = some "execution lease expired while Kubernetes Job was absent";
        payload = lease_payload lease (job_of k);
      })
      pure recovered

  -- The four branches of `reconcile` on the Job's status
  resolve : ℕ → String → ApprovalRequest → Fields → App ApprovalRequest
  unfolding mark_completed mark_failed recover reread reconciled exists_as says
  resolve lease k approval result =
      if exists_as "completed" result
      then mark_completed k (reconciled true result)
      else if exists_as "failed" result
      then mark_failed k (reconciled false result)
      else if approval.status == executing && says "status" "absent" result
      then recover lease k approval
      else reread k approval

  -- `reconcile`, with the lease of the object
  unfoldable pub reconcile : ℕ → String → App ApprovalRequest
  unfolding read_approval log_of resolve
  reconcile lease k = do
    approval ← read_approval k
    if not (approval.status == unknown || approval.status == executing) then pure approval else do
      log_of approval execution_reconciliation_started (status_value approval.status) end
      result ← get_training_job_status ext x (job_of k)
      recovered ← resolve lease k approval result
      log_of approval execution_reconciliation_completed (status_value recovered.status) result
      pure recovered

  -- What `retry_if_absent` makes of the end of `apply_training_job`
  settle_retry : String → Result Fields → App ApprovalRequest
  unfolding mark_completed mark_failed mark_unknown unknown_result Json.get is_true insert
  settle_retry k (err e) = mark_unknown k (unknown_result (ext.message e))
  settle_retry k (ok execution) =
      if is_true (Json.get "executed" execution)
      then mark_completed k (insert "reconciled_retry" (Value.bool true) execution)
      else mark_failed k execution

  -- The last step of `retry_if_absent`: the Job is created again
  recreate : String → App ApprovalRequest
  unfolding settle_retry
  recreate k = do
    execution ← attempt (apply_training_job ext x true (some k))
    settle_retry k execution

  -- A Job that has ended: its outcome is written and recorded
  adopt : ApprovalRequest → Fields → App ApprovalRequest → App ApprovalRequest
  unfolding log_of
  adopt approval result mark = do
    recovered ← mark
    log_of approval execution_reconciliation_completed (status_value recovered.status) result
    pure recovered

  -- `retry_if_absent` from the Job's status on
  retry_on : String → ApprovalRequest → ApprovalRequest → Fields → App ApprovalRequest
  unfolding log_of adopt recreate mark_completed mark_failed mark_unknown reread reconciled
      exists_as flag says
  retry_on k approval claimed result =
      if exists_as "completed" result
      then adopt approval result (mark_completed k (reconciled true result))
      else if exists_as "failed" result
      then adopt approval result (mark_failed k (reconciled false result))
      else if flag "exists" result
      then (log_of approval execution_reconciliation_completed (status_value executing) result
          >> reread k claimed)
      else if not (says "status" "absent" result)
      then mark_unknown k (
          field "executed" (Value.bool false)
            (field "unknown" (Value.bool true) (field "reconciliation" (Value.obj result) end)))
      else do
        log_of approval execution_retry "retrying" result
        inc "execution_retry_total" (approval.action ∷ [])
        recreate k

  -- What `retry_if_absent` makes of the end of `get_training_job_status`
  retry_with : String → ApprovalRequest → ApprovalRequest → Result Fields → App ApprovalRequest
  unfolding mark_unknown retry_on unknown_result
  retry_with k approval claimed (err e) = mark_unknown k (unknown_result (ext.message e))
  retry_with k approval claimed (ok result) = retry_on k approval claimed result

  -- `retry_if_absent`
  unfoldable pub retry_if_absent : String → App ApprovalRequest
  unfolding read_approval log_of retry_with
  retry_if_absent k = do
    approval ← read_approval k
    if not (approval.status == unknown) then pure approval else do
      now ← read_clock ext
      (claimed, owns) ← on_approvals (ApprovalStore.claim_retry_execution now k none)
      if not owns then pure claimed else do
        log_of claimed execution_reconciliation_started (status_value claimed.status) end
        status ← attempt (get_training_job_status ext x (job_of k))
        retry_with k approval claimed status
