-- ===== src/ApprovalStore/Steps.antt =====
-- ai_engineering/storage/approval_store.py: the methods of `ApprovalStore` as steps of the lifecycle.
use credit_scoring_mlops.Prelude.{ℕ, String, Option, none, arith, string_eq}
use credit_scoring_mlops.Json.{Fields}
use credit_scoring_mlops.Schemas.{DateTime, ApprovalRequest, ApprovalDecision}
use credit_scoring_mlops.ApprovalStore.{
  create, decide, mark_executing, claim_execution, mark_unknown, mark_completed, mark_failed,
  mark_retry_executing, claim_retry_execution, recover_stale_execution,
}
use credit_scoring_mlops.ApprovalStore.Rows.{Table}
use credit_scoring_mlops.ApprovalStore.Lifecycle.{Step, Op, same, moved, added, moves, apply}

module _ (q : Option ApprovalRequest) (t : Table) where
  pub decide-Step : (d : ApprovalDecision) → Step t (decide d q t).1
  unfolding decide
  decide-Step d = grind (arith, same, moved, moves)

  pub mark_executing-Step : (now : ℕ) (k : String) → Step t (mark_executing now k q t).1
  unfolding mark_executing
  mark_executing-Step now k = grind (arith, same, moved, moves)

  pub claim_execution-Step : (now : ℕ) (k : String) → Step t (claim_execution now k q t).1
  unfolding claim_execution
  claim_execution-Step now k = grind (arith, same, moved, moves)

  pub mark_retry_executing-Step : (now : ℕ) (k : String) → Step t (mark_retry_executing now k q t).1
  unfolding mark_retry_executing
  mark_retry_executing-Step now k = grind (arith, same, moved, moves)

  pub claim_retry_execution-Step :
      (now : ℕ) (k : String) → Step t (claim_retry_execution now k q t).1
  unfolding claim_retry_execution
  claim_retry_execution-Step now k = grind (arith, same, moved, moves)

module _ (normalise : Fields → Fields) (isoformat : DateTime → String) where
  pub create-Step : (id : ℕ) (q : ApprovalRequest) (t : Table) → Step t (create normalise id q t).1
  unfolding create
  create-Step id q t = grind (arith, same, added)

  module _ (q : Option ApprovalRequest) (t : Table) (k : String) where
    pub mark_unknown-Step : (f : Fields) → Step t (mark_unknown normalise k f q t).1
    unfolding mark_unknown
    mark_unknown-Step f = grind (arith, same, moved, moves)

    pub mark_completed-Step : (f : Fields) → Step t (mark_completed normalise k f q t).1
    unfolding mark_completed
    mark_completed-Step f = grind (arith, same, moved, moves)

    pub mark_failed-Step : (f : Fields) → Step t (mark_failed normalise k f q t).1
    unfolding mark_failed
    mark_failed-Step f = grind (arith, same, moved, moves)

    pub recover_stale_execution-Step :
        (now n : ℕ) → Step t (recover_stale_execution isoformat now k n q t).1
    unfolding recover_stale_execution
    recover_stale_execution-Step now n = grind (arith, same, moved, moves)

  -- Whatever the call, the table makes one step of the lifecycle: nothing changes, one row moves along
  -- an edge with its request kept, or one pending row is added.
  pub apply-Step : (op : Op) (t : Table) → Step t (apply normalise isoformat op t)
  unfolding apply
  apply-Step (Op.create id q) t = create-Step id q t
  apply-Step (Op.decide d) t = decide-Step none t d
  apply-Step (Op.mark_executing now k) t = mark_executing-Step none t now k
  apply-Step (Op.claim_execution now k) t = claim_execution-Step none t now k
  apply-Step (Op.mark_unknown k f) t = mark_unknown-Step none t k f
  apply-Step (Op.mark_completed k f) t = mark_completed-Step none t k f
  apply-Step (Op.mark_failed k f) t = mark_failed-Step none t k f
  apply-Step (Op.mark_retry_executing now k) t = mark_retry_executing-Step none t now k
  apply-Step (Op.claim_retry_execution now k) t = claim_retry_execution-Step none t now k
  apply-Step (Op.recover_stale_execution now k n) t = recover_stale_execution-Step none t k now n
