-- ===== src/AgentApi.antt =====
-- ai_engineering/api/agent_service.py: the handlers of the agent's HTTP service that read and change
-- approvals and executions. An HTTPException is the error `http` with its status code. The length limits
-- of the request models are checked by FastAPI before a handler runs.
use credit_scoring_mlops.Prelude.{
  ℕ, suc, ◌+◌, String, ◌<>◌, Bool, true, false, not, ◌&&◌, ◌||◌, Option, none, some, List, [], ◌∷◌,
  ltb, ◌==◌, contains, string_eq, if◌then◌else◌, get_or, take,
}
use credit_scoring_mlops.Prelude.Counts.{Counts}
use credit_scoring_mlops.Prelude.Text.{codes}
use credit_scoring_mlops.Json
use credit_scoring_mlops.Json.{Value, Fields, end, field, is_true, truthy}
use credit_scoring_mlops.Exec.{
  Error, key_error, value_error, invalid_transition, execution_unknown, http, Result, ok, err, Exec,
  pure, raise, gets, or_raise, raise_if, lift, catch, ◌>>=◌, ◌>>◌,
}
use credit_scoring_mlops.Schemas.{
  ApprovalRequest, ApprovalDecision, ApprovalStatus, status_value, AuditEvent, AuditEventType,
  AgentDecision, DecisionStatus, decision_created, approval_requested, approval_decided,
  execution_started, execution_unknown, execution_completed, execution_failed,
}
use credit_scoring_mlops.ApprovalStore
use credit_scoring_mlops.ApprovalStore.Rows.{Row}
pub mod Decision
pub mod Effects
pub mod Execution
pub mod Requests
use credit_scoring_mlops.ApprovalStore.Queries.{
  list_pending, list_reconcilable, list_recent, status_counts,
}
use credit_scoring_mlops.AuditStore
use credit_scoring_mlops.AuditStore.Queries.{list_events, event_counts}
use credit_scoring_mlops.World.{
  External, World, App, attempt, on_approvals, read_clock, new_uuid, inc,
}
use credit_scoring_mlops.AuditService.{record_event, entry}
use credit_scoring_mlops.ApprovalService.{unknown_result, new_request, store_approval}
use credit_scoring_mlops.KubernetesExecutor.{Executor, apply_training_job}
use credit_scoring_mlops.Reconciliation

abbrev text : String → Value
text s = Value.str s

-- ALLOWED_MUTATING_ACTIONS
abbrev pub allowed_mutating_actions : List String
allowed_mutating_actions = "create_training_job" ∷ []

unfoldable pub is_allowed : String → Bool
is_allowed action = contains allowed_mutating_actions action

-- class ApprovalCreateRequest
pub record ApprovalCreateRequest : Type 0 where
  pub action : String
  pub reason : String
  pub execution_plan : Fields
  pub trace_id : Option String

-- `except KeyError` and `except ValueError` around `approval_store.decide`; InvalidApprovalTransition is
-- a ValueError
decide_error : (Error → String) → Error → Error
decide_error message (key_error m) = http 404 (message (key_error m))
decide_error message (value_error m) = http 409 m
decide_error message (invalid_transition m) = http 409 m
decide_error message e = e

-- `except ValueError` around `claim_execution`
claim_error : Error → Error
claim_error (value_error m) = http 409 m
claim_error (invalid_transition m) = http 409 m
claim_error e = e

-- `except KeyError` and `except KubernetesExecutionUnknown` around the reconciliation service
service_error : String → Error → Error
service_error outcome (key_error m) = http 404 "Approval not found"
service_error outcome (Error.execution_unknown m) = http 503 outcome
service_error outcome e = e

-- `{"result": result}`
result_payload : Fields → Fields
result_payload result = field "result" (Value.obj result) end

-- `{"reason": .., "execution_plan": ..}`
plan_payload : ApprovalRequest → Fields
plan_payload a =
    field "reason" (text a.reason) (field "execution_plan" (Value.obj a.execution_plan) end)

comment_value : Option String → Value
comment_value none = Value.null
comment_value (some c) = text c

failure_result : String → Fields
failure_result message = field "executed" (Value.bool false) (field "error" (text message) end)

module _ (ext : External) (x : Executor) where
  log : ApprovalRequest → AuditEventType → String → Option String → Fields → App (Unit {0})
  log a kind status error payload = do
    record_event ext kind a.trace_id (record entry {
      action = some a.action;
      status = some status;
      error = error;
      payload = payload;
    })
    pure tt

  -- the new approval, its metric and its event
  submit : ApprovalRequest → App ApprovalRequest
  unfolding log plan_payload
  submit a = do
    store_approval ext x a
    inc "approval_requests_total" (a.action ∷ [])
    log a approval_requested (status_value a.status) none (plan_payload a)
    pure a

  -- `create_approval`
  unfoldable pub create_approval : ApprovalCreateRequest → App ApprovalRequest
  unfolding submit is_allowed
  create_approval request = do
    raise_if (not (is_allowed request.action)) (http 400 "Unsupported approval action")
    approval_id ← new_uuid ext
    now ← read_clock ext
    submit (
        new_request approval_id (get_or request.trace_id approval_id) request.action request.reason
          request.execution_plan now)

  -- `get_approval`
  unfoldable pub get_approval : String → App ApprovalRequest
  get_approval k = do
    approval ← gets (λ w. ApprovalStore.get k w.approvals)
    or_raise approval (http 404 "Approval not found")

  -- `decide_approval`
  unfoldable pub decide_approval : String → ApprovalDecision → App ApprovalRequest
  unfolding decide_error comment_value
  decide_approval k decision = do
    raise_if (not (decision.approval_id == k)) (http 400 "Approval ID in path and body must match")
    approval ←
        catch (on_approvals (ApprovalStore.decide decision none))
          (λ e. raise (decide_error ext.message e))
    record_event ext approval_decided approval.trace_id (record entry {
      actor = decision.decided_by;
      action = some approval.action;
      status = some (status_value approval.status);
      payload =
          field "approved" (Value.bool decision.approved)
            (field "comment" (comment_value decision.comment) end);
    })
    pure approval

  settle_completed : String → ApprovalRequest → Fields → App ApprovalRequest
  unfolding log result_payload
  settle_completed k a result = do
    inc "execution_total" (a.action ∷ "completed" ∷ [])
    completed ← on_approvals (ApprovalStore.mark_completed ext.normalise k result none)
    log a execution_completed "completed" none (result_payload result)
    pure completed

  settle_failed : String → ApprovalRequest → Fields → App ApprovalRequest
  unfolding log result_payload
  settle_failed k a result = do
    inc "execution_total" (a.action ∷ "failed" ∷ [])
    failed ← on_approvals (ApprovalStore.mark_failed ext.normalise k result none)
    log a execution_failed "failed" none (result_payload result)
    pure failed

  -- How `execute_approval` settles the end of `apply_training_job`
  settle : String → ApprovalRequest → Result Fields → App ApprovalRequest
  unfolding log settle_completed settle_failed result_payload failure_result unknown_result is_true
      Json.get
  settle k a (err (Error.execution_unknown m)) = do
    inc "execution_total" (a.action ∷ "unknown" ∷ [])
    inc "execution_unknown_total" (a.action ∷ [])
    unknown ← on_approvals (
        ApprovalStore.mark_unknown ext.normalise k
          (unknown_result (ext.message (Error.execution_unknown m))) none)
    log a execution_unknown "unknown" (some "execution outcome unknown") end
    pure unknown
  settle k a (err e) = do
    inc "execution_total" (a.action ∷ "failed" ∷ [])
    on_approvals (ApprovalStore.mark_failed ext.normalise k (failure_result (ext.message e)) none)
    log a execution_failed "failed" (some "execution failed")
        (result_payload (failure_result (ext.message e)))
    raise (http 500 "Execution failed")
  settle k a (ok result) =
      if is_true (Json.get "executed" result)
      then settle_completed k a result
      else settle_failed k a result

  -- `with EXECUTION_DURATION_SECONDS.labels(..).time()`: observed on every way out
  abbrev timed : {A : Type 0} → String → App A → App A
  timed action m w = let (r, w') = m w in (r, (inc "execution_duration_seconds" (action ∷ []) w').1)

  -- `apply_training_job` and what follows it
  launch : String → ApprovalRequest → App ApprovalRequest
  unfolding settle
  launch k a =
      timed a.action
        (do result ← attempt (apply_training_job ext x true (some k)); settle k a result)

  run_claimed : String → ApprovalRequest → App ApprovalRequest
  unfolding log launch
  run_claimed k a = do log a execution_started "started" none end; launch k a

  -- `execute_approval`
  unfoldable pub execute_approval : String → App ApprovalRequest
  unfolding run_claimed claim_error is_allowed get_approval
  execute_approval k = do
    approval ← get_approval k
    raise_if (not (is_allowed approval.action)) (http 400 "Unsupported approval action")
    now ← read_clock ext
    (claimed, owns) ←
        catch (on_approvals (ApprovalStore.claim_execution now k none)) (λ e. raise (claim_error e))
    if not owns then pure claimed else run_claimed k claimed

  -- `reconcile_approval`, with the lease of the service
  unfoldable pub reconcile_approval : ℕ → String → App ApprovalRequest
  unfolding service_error
  reconcile_approval lease k =
      catch (Reconciliation.reconcile ext x lease k)
        (λ e. raise (service_error "Reconciliation outcome is unknown" e))

  -- `retry_approval`
  unfoldable pub retry_approval : String → App ApprovalRequest
  unfolding service_error
  retry_approval k =
      catch (Reconciliation.retry_if_absent ext x k)
        (λ e. raise (service_error "Retry outcome is unknown" e))

  -- `context.get(k)` if it counts as true; `text_of` is `str`
  truthy_text : (Value → String) → Option Value → Option String
  unfolding truthy
  truthy_text text_of none = none
  truthy_text text_of (some v) = if truthy v then some (text_of v) else none

  or_uuid : Option String → App String
  or_uuid none = new_uuid ext
  or_uuid (some s) = pure s

  first_of_two : Option String → Option String → Option String
  first_of_two none t = t
  first_of_two (some s) t = some s

  -- `str(context.get("trace_id") or context.get("event_id") or uuid4())`
  decision_trace : (Value → String) → Fields → App String
  unfolding Json.get truthy_text or_uuid first_of_two
  decision_trace text_of context = or_uuid (
      first_of_two (truthy_text text_of (Json.get "trace_id" context))
        (truthy_text text_of (Json.get "event_id" context)))
