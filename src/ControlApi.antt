-- ===== src/ControlApi.antt =====
-- ai_engineering/api/main.py: the approval endpoints of the first command-center API, which works through
-- `ApprovalService`. An HTTPException is the error `http` with its status code.
pub mod Effects
use credit_scoring_mlops.Prelude.{
  String, Bool, ◌<>◌, not, ◌==◌, string_eq, is_some, Option, none, some, List,
}
use credit_scoring_mlops.Exec.{
  Error, key_error, value_error, invalid_transition, http, Exec, pure, raise, gets, or_raise,
  raise_if, catch, ◌>>=◌, ◌>>◌,
}
use credit_scoring_mlops.Schemas.{ApprovalRequest, ApprovalDecision}
use credit_scoring_mlops.ApprovalStore
use credit_scoring_mlops.ApprovalStore.Rows.{Row}
use credit_scoring_mlops.ApprovalStore.Queries.{list_pending}
use credit_scoring_mlops.World.{External, World, App}
use credit_scoring_mlops.ApprovalService
use credit_scoring_mlops.KubernetesExecutor.{Executor}

-- `list_approvals`
unfoldable pub list_approvals : (Row → Row → Bool) → World → List ApprovalRequest
list_approvals tie w = list_pending tie w.approvals

-- `except KeyError` and `except ValueError` around the service; InvalidApprovalTransition is a ValueError
decide_error : (Error → String) → Error → Error
decide_error message (key_error m) = http 404 (message (key_error m))
decide_error message (value_error m) = http 409 m
decide_error message (invalid_transition m) = http 409 m
decide_error message e = e

execute_error : Error → Error
execute_error (value_error m) = http 409 m
execute_error (invalid_transition m) = http 409 m
execute_error e = e

module _ (ext : External) (x : Executor) where
  -- `decide_approval`
  unfoldable pub decide_approval : String → ApprovalDecision → App ApprovalRequest
  unfolding decide_error
  decide_approval k decision = do
    raise_if (not (decision.approval_id == k)) (http 400 "approval_id does not match path")
    catch (ApprovalService.decide ext x decision) (λ e. raise (decide_error ext.message e))

  -- `execute_approval`
  unfoldable pub execute_approval : String → App ApprovalRequest
  unfolding execute_error
  execute_approval k = do
    request ← gets (λ w. ApprovalStore.get k w.approvals)
    or_raise request (http 404 ("Approval not found: " <> k))
    catch (ApprovalService.execute ext x k) (λ e. raise (execute_error e))
