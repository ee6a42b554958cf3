-- ===== src/ApprovalService.antt =====
-- ai_engineering/services/approval_service.py: `ApprovalService`, used by api/main.py.
pub mod Effects
use credit_scoring_mlops.Prelude.{ℕ, suc, String, true, false, not, none, some, if◌then◌else◌}
use credit_scoring_mlops.Json.{Value, Fields, end, field, flag}
use credit_scoring_mlops.Exec.{execution_unknown, Result, ok, err, pure, ◌>>=◌}
use credit_scoring_mlops.Schemas.{aware, pending, ApprovalRequest, ApprovalDecision}
use credit_scoring_mlops.ApprovalStore
use credit_scoring_mlops.World.{External, App, attempt, on_approvals, read_clock, new_uuid}
use credit_scoring_mlops.KubernetesExecutor.{Executor, apply_training_job}

abbrev text : String → Value
text s = Value.str s

-- `{"executed": False, "unknown": True, "error": str(exc)}`
unfoldable pub unknown_result : String → Fields
unknown_result message =
    field "executed" (Value.bool false)
      (field "unknown" (Value.bool true) (field "error" (text message) end))

failed_result : String → String → Fields
failed_result action message = field "executed" (Value.bool false) (
    field "action" (text action)
      (field "reason" (text "Training job execution failed") (field "error" (text message) end)))

abbrev pub new_request : String → String → String → String → Fields → ℕ → ApprovalRequest
new_request approval_id trace_id action reason plan now = record {
  approval_id = approval_id;
  trace_id = trace_id;
  action = action;
  reason = reason;
  requested_at = aware now;
  status = pending;
  execution_plan = plan;
  decided_at = none;
  decided_by = none;
  decision_comment = none;
  execution_started_at = none;
  execution_result = none;
}

module _ (ext : External) (x : Executor) where
  -- `store.create`, with the next id of the table
  unfoldable pub store_approval : ApprovalRequest → App ApprovalRequest
  store_approval request w =
      let (r, t) = ApprovalStore.create ext.normalise w.next_approval request w.approvals in
      (r, record w { approvals = t; next_approval = suc w.next_approval })

  -- `create_training_approval`
  unfoldable pub create_training_approval : String → Fields → App ApprovalRequest
  unfolding store_approval
  create_training_approval reason plan = do
    approval_id ← new_uuid ext
    trace_id ← new_uuid ext
    now ← read_clock ext
    store_approval (new_request approval_id trace_id "create_training_job" reason plan now)

  -- `decide`
  unfoldable pub decide : ApprovalDecision → App ApprovalRequest
  decide decision = on_approvals (ApprovalStore.decide decision none)

  -- The end of `execute`, by how `apply_training_job` ended
  settle : String → String → Result Fields → App ApprovalRequest
  unfolding unknown_result failed_result
  settle k action (ok result) =
      if not (flag "executed" result)
      then on_approvals (ApprovalStore.mark_failed ext.normalise k result none)
      else on_approvals (ApprovalStore.mark_completed ext.normalise k result none)
  settle k action (err (execution_unknown m)) = on_approvals (
      ApprovalStore.mark_unknown ext.normalise k
        (unknown_result (ext.message (execution_unknown m))) none)
  settle k action (err e) =
      on_approvals
        (ApprovalStore.mark_failed ext.normalise k (failed_result action (ext.message e)) none)

  -- `execute`
  unfoldable pub execute : String → App ApprovalRequest
  unfolding settle
  execute k = do
    now ← read_clock ext
    (request, owns) ← on_approvals (ApprovalStore.claim_execution now k none)
    if not owns then pure request else do
      result ← attempt (apply_training_job ext x true (some k))
      settle k request.action result
