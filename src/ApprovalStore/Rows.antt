-- ===== src/ApprovalStore/Rows.antt =====
-- The rows of `ai_engineering_approvals` (ai_engineering/storage/approval_store.py,
-- ApprovalRequestRow), found by their unique `approval_id`, and the laws of find and put.
use credit_scoring_mlops.Prelude.{
  ℕ, String, ◌≡◌, refl, ◌≢◌, Option, none, some, List, [], ◌∷◌, ◌++◌, arith, ◌==◌, string_eq,
  if◌then◌else◌,
}
use credit_scoring_mlops.Json.{Fields}
use credit_scoring_mlops.Schemas.{DateTime, ApprovalStatus}

-- class ApprovalRequestRow
pub record Row : Type 0 where
  pub id : ℕ
  pub approval_id : String
  pub trace_id : String
  pub action : String
  pub reason : String
  pub requested_at : DateTime
  pub status : ApprovalStatus
  pub execution_plan : Fields
  pub decided_at : Option DateTime
  pub decided_by : Option String
  pub decision_comment : Option String
  pub execution_started_at : Option DateTime
  pub execution_result : Option Fields

-- The committed rows, in the order of their ids.
abbrev pub Table : Type 0
Table = List Row

-- `select(...).where(approval_id == k)`
unfoldable pub find : String → Table → Option Row
find k [] = none
find k (r ∷ t) = if r.approval_id == k then some r else find k t

-- The commit of a changed row.
unfoldable pub put : Row → Table → Table
put r [] = []
put r (q ∷ t) = if q.approval_id == r.approval_id then r ∷ t else q ∷ put r t

pub find-approval_id : (k : String) (t : Table) {r : Row} → find k t ≡ some r → r.approval_id ≡ k
unfolding find
find-approval_id k [] {r} h = absurd (ground arith)
find-approval_id k (q ∷ t) {r} h = ground (arith, find-approval_id k t {r = r})

pub find-put_self :
    (r q : Row) (t : Table) → find r.approval_id t ≡ some q → find r.approval_id (put r t) ≡ some r
unfolding find put
find-put_self r q [] h = absurd (ground arith)
find-put_self r q (p ∷ t) h = ground (arith, find-put_self r q t)

pub find-put_ne :
    (k : String) (r : Row) (t : Table) → k ≢ r.approval_id → find k (put r t) ≡ find k t
unfolding find put
find-put_ne k r [] h = refl
find-put_ne k r (p ∷ t) h = ground (arith, find-put_ne k r t h)

pub find-append :
    (k : String) (t : Table) (r : Row)
    → find k t ≡ none
    → find k (t ++ r ∷ []) ≡ (if r.approval_id == k then some r else none)
unfolding find
find-append k [] r h = refl
find-append k (q ∷ t) r h = ground (arith, find-append k t r)

pub find-append_old :
    (k : String) (t : Table) (r q : Row) → find k t ≡ some q → find k (t ++ r ∷ []) ≡ some q
unfolding find
find-append_old k [] r q h = absurd (ground arith)
find-append_old k (p ∷ t) r q h = ground (arith, find-append_old k t r q)
