-- ===== src/ApprovalStore.antt =====
-- ai_engineering/storage/approval_store.py: the rows of the table `ai_engineering_approvals` and the
-- methods of `ApprovalStore`. A method is one transaction under the row's lock (`with_for_update`),
-- so it is one atomic step on the table; what a raised exception leaves uncommitted is not written.
-- The status column holds the status itself: the code writes no other text there.
pub mod Rows
pub mod Lifecycle
pub mod Steps
pub mod Evolution
pub mod Invariant
pub mod Claims
pub mod Queries
use credit_scoring_mlops.Prelude.{
  ℕ, ◌+◌, ◌-◌, ◌*◌, String, ◌<>◌, Bool, true, false, not, ◌||◌, Option, none, some, List, [], ◌∷◌,
  ◌++◌, ltb, ◌==◌, contains, if◌then◌else◌, is_some,
}
use credit_scoring_mlops.Json.{Value, Fields, end, field}
use credit_scoring_mlops.Exec.{
  Error, key_error, value_error, invalid_transition, overflow_error, integrity_error, Result, ok,
  err, Exec, pure, raise, gets, or_raise, lift, modify, raise_if, ◌>>=◌, ◌>>◌,
}
use credit_scoring_mlops.Schemas.{
  DateTime, aware, utc, ApprovalStatus, pending, approved, rejected, executing, unknown, completed,
  failed, status_eq, status_value, ApprovalRequest, ApprovalDecision,
}
use Rows.{Row, Table, find, put}

-- `to_schema`
unfoldable pub to_schema : Row → ApprovalRequest
to_schema row = record {
  approval_id = row.approval_id;
  trace_id = row.trace_id;
  action = row.action;
  reason = row.reason;
  requested_at = row.requested_at;
  status = row.status;
  execution_plan = row.execution_plan;
  decided_at = row.decided_at;
  decided_by = row.decided_by;
  decision_comment = row.decision_comment;
  execution_started_at = row.execution_started_at;
  execution_result = row.execution_result;
}

-- `_TRANSITIONS`
unfoldable pub transitions : ApprovalStatus → List ApprovalStatus
transitions pending = approved ∷ rejected ∷ []
transitions approved = executing ∷ []
transitions rejected = []
transitions executing = unknown ∷ completed ∷ failed ∷ []
transitions unknown = completed ∷ failed ∷ []
transitions completed = []
transitions failed = []

-- `_transition`
unfoldable pub transition : Row → ApprovalStatus → Result Row
unfolding transitions
transition row target =
    if contains (transitions row.status) target
    then ok (record row { status = target })
    else err (
        invalid_transition (
          "Invalid approval transition: "
          <> status_value row.status
          <> " -> "
          <> status_value target))

not_found : String → Error
not_found k = key_error ("Approval not found: " <> k)

-- `_get_locked`
unfoldable pub get_locked : String → Exec Table Row
unfolding not_found
get_locked k t = or_raise (find k t) (not_found k) t

-- `session.commit()` for the one row that the transaction changed
abbrev commit : Row → Exec Table (Unit {0})
commit r = modify (put r)

-- `_sync_request`: the caller's object takes these fields of the row. `reason` and the fields of the
-- request that no method changes stay as the caller has them.
unfoldable pub sync_request : ApprovalRequest → ApprovalRequest → ApprovalRequest
sync_request request updated = record request {
  trace_id = updated.trace_id;
  status = updated.status;
  decided_at = updated.decided_at;
  decided_by = updated.decided_by;
  decision_comment = updated.decision_comment;
  execution_started_at = updated.execution_started_at;
  execution_result = updated.execution_result;
}

-- `self._sync_request(request, updated) if request is not None else updated`
unfoldable pub synced : Option ApprovalRequest → Row → ApprovalRequest
unfolding sync_request
synced none row = to_schema row
synced (some request) row = sync_request request (to_schema row)

-- The row of a new approval, with the next id; `normalise` is `json.loads(json.dumps(.., default=str))`.
unfoldable pub new_row : (Fields → Fields) → ℕ → ApprovalRequest → Row
new_row normalise id request = record {
  id = id;
  approval_id = request.approval_id;
  trace_id = request.trace_id;
  action = request.action;
  reason = request.reason;
  requested_at = request.requested_at;
  status = request.status;
  execution_plan = normalise request.execution_plan;
  decided_at = none;
  decided_by = none;
  decision_comment = none;
  execution_started_at = none;
  execution_result = none;
}

-- `create`. The commit fails on a second row of one `approval_id`.
unfoldable pub create : (Fields → Fields) → ℕ → ApprovalRequest → Exec Table ApprovalRequest
unfolding new_row
create normalise id request t =
    if not (request.status == pending)
    then raise (invalid_transition "New approvals must start in pending state") t
    else if is_some (find request.approval_id t)
    then raise integrity_error t
    else (ok request, t ++ new_row normalise id request ∷ [])

-- `get`
unfoldable pub get : String → Table → Option ApprovalRequest
get k t = elim (find k t) [ none ↦ none | some row ↦ some (to_schema row) ]

-- `decide`
unfoldable pub decide : ApprovalDecision → Option ApprovalRequest → Exec Table ApprovalRequest
unfolding get_locked transition
decide decision request = do
  row ← get_locked decision.approval_id
  moved ← lift (transition row (if decision.approved then approved else rejected))
  let row' = record moved {
    decided_at = some decision.decided_at;
    decided_by = some decision.decided_by;
    decision_comment = decision.comment;
  }
  commit row'
  pure (synced request row')

-- `mark_executing`; `now` is `datetime.now(timezone.utc)`, here and below.
unfoldable pub mark_executing : ℕ → String → Option ApprovalRequest → Exec Table ApprovalRequest
unfolding get_locked transition
mark_executing now k request = do
  row ← get_locked k
  moved ← lift (transition row executing)
  let row' = record moved { execution_started_at = some (aware now) }
  commit row'
  pure (synced request row')

-- `claim_execution`: the Boolean says whether the caller now owns the execution.
unfoldable pub claim_execution :
    ℕ → String → Option ApprovalRequest → Exec Table (ApprovalRequest × Bool)
unfolding get_locked transition
claim_execution now k request = do
  row ← get_locked k
  if row.status == executing then pure (to_schema row, false) else do
    moved ← lift (transition row executing)
    let row' = record moved { execution_started_at = some (aware now) }
    commit row'
    pure (synced request row', true)

-- `mark_unknown`
unfoldable pub mark_unknown :
    (Fields → Fields) → String → Fields → Option ApprovalRequest → Exec Table ApprovalRequest
unfolding get_locked transition
mark_unknown normalise k result request = do
  row ← get_locked k
  moved ← lift (transition row unknown)
  let row' = record moved { execution_result = some (normalise result) }
  commit row'
  pure (synced request row')

-- The shared body of `mark_completed` and `mark_failed`: a row that is there already stays as it is.
finish_as :
    ApprovalStatus
    → (Fields → Fields)
    → String
    → Fields
    → Option ApprovalRequest
    → Exec Table ApprovalRequest
unfolding get_locked transition
finish_as target normalise k result request = do
  row ← get_locked k
  if row.status == target then pure (synced request row) else do
    moved ← lift (transition row target)
    let row' = record moved { execution_result = some (normalise result) }
    commit row'
    pure (synced request row')

-- `mark_completed`
unfoldable pub mark_completed :
    (Fields → Fields) → String → Fields → Option ApprovalRequest → Exec Table ApprovalRequest
unfolding finish_as
mark_completed = finish_as completed

-- `mark_failed`
unfoldable pub mark_failed :
    (Fields → Fields) → String → Fields → Option ApprovalRequest → Exec Table ApprovalRequest
unfolding finish_as
mark_failed = finish_as failed

-- The retry's return to `executing`, written past `_TRANSITIONS`.
reopened : ℕ → Row → Row
reopened now row = record row { status = executing; execution_started_at = some (aware now) }

-- `mark_retry_executing`
unfoldable pub mark_retry_executing :
    ℕ → String → Option ApprovalRequest → Exec Table ApprovalRequest
unfolding get_locked reopened
mark_retry_executing now k request = do
  row ← get_locked k
  raise_if (not (row.status == unknown)) (
      invalid_transition
        ("Retry execution requires unknown state, got " <> status_value row.status))
  commit (reopened now row)
  pure (synced request (reopened now row))

-- `claim_retry_execution`
unfoldable pub claim_retry_execution :
    ℕ → String → Option ApprovalRequest → Exec Table (ApprovalRequest × Bool)
unfolding get_locked reopened
claim_retry_execution now k request = do
  row ← get_locked k
  if not (row.status == unknown)
      then pure (to_schema row, false)
      else do commit (reopened now row); pure (synced request (reopened now row), true)

-- The text of `started_at.isoformat()` is the parameter `isoformat`.
stale_result : (DateTime → String) → DateTime → Fields
stale_result isoformat started_at = field "executed" (Value.bool false) (
    field "unknown" (Value.bool true) (
      field "recovered_stale_execution" (Value.bool true)
        (field "execution_started_at" (Value.str (isoformat (aware (utc started_at)))) end)))

-- `timedelta(seconds=n)`, in microseconds
abbrev pub seconds : ℕ → ℕ
seconds n = n * 1000000

-- The lease test of `recover_stale_execution`. `now - timedelta` raises when it falls before
-- `datetime.min`.
recover_if_stale :
    (DateTime → String)
    → ℕ
    → ℕ
    → Option ApprovalRequest
    → Row
    → DateTime
    → Exec Table (ApprovalRequest × Bool)
unfolding stale_result
recover_if_stale isoformat now stale_after request row started_at = do
  raise_if (ltb now (seconds stale_after)) overflow_error
  if ltb (now - seconds stale_after) (utc started_at) then pure (to_schema row, false) else do
    let row' = record row {
      status = unknown;
      execution_result = some (stale_result isoformat started_at);
    }
    commit row'
    pure (synced request row', true)

-- `recover_stale_execution`
unfoldable pub recover_stale_execution :
    (DateTime → String)
    → ℕ
    → String
    → ℕ
    → Option ApprovalRequest
    → Exec Table (ApprovalRequest × Bool)
unfolding get_locked recover_if_stale
recover_stale_execution isoformat now k stale_after request = do
  raise_if (ltb stale_after 1) (value_error "stale_after_seconds must be positive")
  row ← get_locked k
  if not (row.status == executing)
      then pure (to_schema row, false)
      else elim row.execution_started_at [
        | none ↦ pure (to_schema row, false)
        | some started_at ↦ recover_if_stale isoformat now stale_after request row started_at
      ]
