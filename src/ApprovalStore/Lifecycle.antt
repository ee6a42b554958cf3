-- ===== src/ApprovalStore/Lifecycle.antt =====
-- ai_engineering/storage/approval_store.py: the lifecycle that the methods of `ApprovalStore` give an
-- approval, as a relation, and the methods as steps on the table, for interleavings of any callers.
use credit_scoring_mlops.Prelude.{ℕ, String, ◌≡◌, none, some, List, [], ◌∷◌, ◌++◌, string_eq}
use credit_scoring_mlops.Json.{Fields}
use credit_scoring_mlops.Schemas.{
  DateTime, ApprovalStatus, pending, approved, rejected, executing, unknown, completed, failed,
  ApprovalRequest, ApprovalDecision,
}
use credit_scoring_mlops.ApprovalStore
use credit_scoring_mlops.ApprovalStore.Rows.{Row, Table, find, put}

-- The moves between states that some method makes: `_TRANSITIONS`, and the retry and the stale lease.
infix 40 ◌⟶◌
pub data ◌⟶◌ : ApprovalStatus → ApprovalStatus → Type 0 where
  approve : pending ⟶ approved
  reject : pending ⟶ rejected
  start : approved ⟶ executing
  lose : executing ⟶ unknown
  complete : executing ⟶ completed
  fail : executing ⟶ failed
  resolve_completed : unknown ⟶ completed
  resolve_failed : unknown ⟶ failed
  retry : unknown ⟶ executing

pub ruleset moves =
    (approve, reject, start, lose, complete, fail, resolve_completed, resolve_failed, retry)

-- What was requested is never rewritten.
pub record SameRequest (r r' : Row) : Type 0 where
  pub id : r'.id ≡ r.id
  pub approval_id : r'.approval_id ≡ r.approval_id
  pub trace_id : r'.trace_id ≡ r.trace_id
  pub action : r'.action ≡ r.action
  pub reason : r'.reason ≡ r.reason
  pub requested_at : r'.requested_at ≡ r.requested_at
  pub execution_plan : r'.execution_plan ≡ r.execution_plan

-- One atomic step on the table: nothing, one row moved along the lifecycle, or one pending row added.
pub data Step (t : Table) : Table → Type 0 where
  same : Step t t
  moved :
      (k : String) (r r' : Row)
      → find k t ≡ some r
      → SameRequest r r'
      → r.status ⟶ r'.status
      → Step t (put r' t)
  added : (r : Row) → find r.approval_id t ≡ none → r.status ≡ pending → Step t (t ++ r ∷ [])

-- The calls that other modules make of the store. `clear`, which only tests call, is left out.
pub data Op : Type 0 where
  create : ℕ → ApprovalRequest → Op
  decide : ApprovalDecision → Op
  mark_executing : ℕ → String → Op
  claim_execution : ℕ → String → Op
  mark_unknown : String → Fields → Op
  mark_completed : String → Fields → Op
  mark_failed : String → Fields → Op
  mark_retry_executing : ℕ → String → Op
  claim_retry_execution : ℕ → String → Op
  recover_stale_execution : ℕ → String → ℕ → Op

module _ (normalise : Fields → Fields) (isoformat : DateTime → String) where
  -- The table after one call, by whichever process.
  unfoldable pub apply : Op → Table → Table
  apply (create id q) t = (ApprovalStore.create normalise id q t).1
  apply (decide d) t = (ApprovalStore.decide d none t).1
  apply (mark_executing now k) t = (ApprovalStore.mark_executing now k none t).1
  apply (claim_execution now k) t = (ApprovalStore.claim_execution now k none t).1
  apply (mark_unknown k f) t = (ApprovalStore.mark_unknown normalise k f none t).1
  apply (mark_completed k f) t = (ApprovalStore.mark_completed normalise k f none t).1
  apply (mark_failed k f) t = (ApprovalStore.mark_failed normalise k f none t).1
  apply (mark_retry_executing now k) t = (ApprovalStore.mark_retry_executing now k none t).1
  apply (claim_retry_execution now k) t = (ApprovalStore.claim_retry_execution now k none t).1
  apply (recover_stale_execution now k n) t =
      (ApprovalStore.recover_stale_execution isoformat now k n none t).1

  -- The table after the calls of any processes, in the order in which they took the lock.
  unfoldable pub run : List Op → Table → Table
  unfolding apply
  run [] t = t
  run (op ∷ ops) t = run ops (apply op t)
