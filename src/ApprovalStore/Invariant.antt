-- ===== src/ApprovalStore/Invariant.antt =====
-- ai_engineering/storage/approval_store.py: the well-formedness of the stored approvals.
use credit_scoring_mlops.Prelude.{
  ℕ, String, ◌≡◌, Bool, true, false, Option, none, some, List, [], ◌∷◌, ◌++◌, arith, string_eq,
  is_some, All, All-append,
}
use credit_scoring_mlops.Json.{Fields}
use credit_scoring_mlops.Schemas.{
  DateTime, ApprovalStatus, pending, executing, unknown, completed, failed, ApprovalRequest,
  ApprovalDecision,
}
use credit_scoring_mlops.ApprovalStore.{
  new_row, create, decide, mark_executing, claim_execution, mark_unknown, mark_completed,
  mark_failed, mark_retry_executing, claim_retry_execution, recover_stale_execution,
}
use credit_scoring_mlops.ApprovalStore.Rows.{Row, Table, find, put}
use credit_scoring_mlops.ApprovalStore.Lifecycle.{Op, apply, run}

-- The states in which a decision has been taken, the Job has been started, and it has a result.
abbrev pub was_decided : ApprovalStatus → Bool
was_decided pending = false
was_decided _ = true

abbrev pub was_started : ApprovalStatus → Bool
was_started executing = true
was_started unknown = true
was_started completed = true
was_started failed = true
was_started _ = false

abbrev pub has_result : ApprovalStatus → Bool
has_result unknown = true
has_result completed = true
has_result failed = true
has_result _ = false

-- The columns of a row agree with its status.
pub record IsWellFormed (r : Row) : Type 0 where
  pub decided_at_set : is_some r.decided_at ≡ was_decided r.status
  pub decided_by_set : is_some r.decided_by ≡ was_decided r.status
  pub started_set : is_some r.execution_started_at ≡ was_started r.status
  pub result_set : has_result r.status ≡ true → is_some r.execution_result ≡ true
  pub result_needs_start : is_some r.execution_result ≡ true → was_started r.status ≡ true

abbrev pub IsValid : Table → Type 0
IsValid t = All IsWellFormed t

pub find-IsWellFormed :
    (k : String) (t : Table) (r : Row) → find k t ≡ some r → IsValid t → IsWellFormed r
unfolding find
find-IsWellFormed k [] r found h = absurd (ground arith)
find-IsWellFormed k (q ∷ t) r found h = ground (arith, find-IsWellFormed k t r)

put-IsValid : (r : Row) (t : Table) → IsWellFormed r → IsValid t → IsValid (put r t)
unfolding put
put-IsValid r [] w h = tt
put-IsValid r (q ∷ t) w h = ground (arith, put-IsValid r t w)

add-IsValid : (r : Row) (t : Table) → IsWellFormed r → IsValid t → IsValid (t ++ r ∷ [])
add-IsValid r t w h = All-append IsWellFormed t (r ∷ []) h (w, tt)

module _ (q : Option ApprovalRequest) (t : Table) (valid : IsValid t) where
  decide-IsValid : (d : ApprovalDecision) → IsValid (decide d q t).1
  unfolding decide
  decide-IsValid d = grind (arith, put-IsValid, find-IsWellFormed d.approval_id t)

  mark_executing-IsValid : (now : ℕ) (k : String) → IsValid (mark_executing now k q t).1
  unfolding mark_executing
  mark_executing-IsValid now k = grind (arith, put-IsValid, find-IsWellFormed k t)

  claim_execution-IsValid : (now : ℕ) (k : String) → IsValid (claim_execution now k q t).1
  unfolding claim_execution
  claim_execution-IsValid now k = grind (arith, put-IsValid, find-IsWellFormed k t)

  mark_retry_executing-IsValid : (now : ℕ) (k : String) → IsValid (mark_retry_executing now k q t).1
  unfolding mark_retry_executing
  mark_retry_executing-IsValid now k = grind (arith, put-IsValid, find-IsWellFormed k t)

  claim_retry_execution-IsValid :
      (now : ℕ) (k : String) → IsValid (claim_retry_execution now k q t).1
  unfolding claim_retry_execution
  claim_retry_execution-IsValid now k = grind (arith, put-IsValid, find-IsWellFormed k t)

module _ (normalise : Fields → Fields) (isoformat : DateTime → String) where
  create-IsValid :
      (id : ℕ) (q : ApprovalRequest) (t : Table) → IsValid t → IsValid (create normalise id q t).1
  unfolding create
  create-IsValid id q t valid = ground (arith, add-IsValid (new_row normalise id q) t)

  module _ (q : Option ApprovalRequest) (t : Table) (valid : IsValid t) (k : String) where
    mark_unknown-IsValid : (f : Fields) → IsValid (mark_unknown normalise k f q t).1
    unfolding mark_unknown
    mark_unknown-IsValid f = grind (arith, put-IsValid, find-IsWellFormed k t)

    mark_completed-IsValid : (f : Fields) → IsValid (mark_completed normalise k f q t).1
    unfolding mark_completed
    mark_completed-IsValid f = grind (arith, put-IsValid, find-IsWellFormed k t)

    mark_failed-IsValid : (f : Fields) → IsValid (mark_failed normalise k f q t).1
    unfolding mark_failed
    mark_failed-IsValid f = grind (arith, put-IsValid, find-IsWellFormed k t)

    recover_stale_execution-IsValid :
        (now n : ℕ) → IsValid (recover_stale_execution isoformat now k n q t).1
    unfolding recover_stale_execution
    recover_stale_execution-IsValid now n = grind (arith, put-IsValid, find-IsWellFormed k t)

  -- Every call keeps the table well formed.
  pub apply-IsValid : (op : Op) (t : Table) → IsValid t → IsValid (apply normalise isoformat op t)
  unfolding apply
  apply-IsValid (Op.create id q) t v = create-IsValid id q t v
  apply-IsValid (Op.decide d) t v = decide-IsValid none t v d
  apply-IsValid (Op.mark_executing now k) t v = mark_executing-IsValid none t v now k
  apply-IsValid (Op.claim_execution now k) t v = claim_execution-IsValid none t v now k
  apply-IsValid (Op.mark_unknown k f) t v = mark_unknown-IsValid none t v k f
  apply-IsValid (Op.mark_completed k f) t v = mark_completed-IsValid none t v k f
  apply-IsValid (Op.mark_failed k f) t v = mark_failed-IsValid none t v k f
  apply-IsValid (Op.mark_retry_executing now k) t v = mark_retry_executing-IsValid none t v now k
  apply-IsValid (Op.claim_retry_execution now k) t v = claim_retry_execution-IsValid none t v now k
  apply-IsValid (Op.recover_stale_execution now k n) t v =
      recover_stale_execution-IsValid none t v k now n

  -- In any run of calls from a well-formed table, every row's columns agree with its status: decided
  -- exactly when a decision was recorded, started exactly when a start was recorded, and with a result
  -- in every state that follows a Job's outcome.
  pub run-IsValid :
      (ops : List Op) (t : Table) → IsValid t → IsValid (run normalise isoformat ops t)
  unfolding run
  run-IsValid [] t v = v
  run-IsValid (op ∷ ops) t v =
      run-IsValid ops (apply normalise isoformat op t) (apply-IsValid op t v)

  -- Started from the empty table, an approval that is executing or was executed has a recorded decision,
  -- its decider and its start.
  pub run-started_was_decided :
      (ops : List Op) (k : String) (r : Row)
      → find k (run normalise isoformat ops []) ≡ some r
      → was_started r.status ≡ true
      → (is_some r.decided_at ≡ true)
        × (is_some r.decided_by ≡ true)
        × (is_some r.execution_started_at ≡ true)
  run-started_was_decided ops k r found started =
      ground (
        arith,
        find-IsWellFormed k (run normalise isoformat ops []) r found (run-IsValid ops [] tt),
      )
