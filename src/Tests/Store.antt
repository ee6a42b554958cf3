-- ===== src/Tests/Store.antt =====
-- The theorems on the approvals, applied to concrete tables.
use credit_scoring_mlops.Prelude.{
  ◌+◌, ◌≤◌, String, ◌≡◌, refl, Bool, true, ◌&&◌, some, List, [], ◌∷◌, arith, All, count_if, leb,
  string_eq,
}
use credit_scoring_mlops.Prelude.Sorting.{IsSorted}
use credit_scoring_mlops.Json.{Fields, end}
use credit_scoring_mlops.Schemas.{
  DateTime, pending, approved, executing, status_eq, ApprovalStatus-discrete,
}
use credit_scoring_mlops.ApprovalStore.{claim_execution, mark_unknown, claim_retry_execution}
use credit_scoring_mlops.ApprovalStore.Rows.{Row, Table, find, put}
use credit_scoring_mlops.ApprovalStore.Lifecycle.{Op, apply, run, Step}
use credit_scoring_mlops.ApprovalStore.Steps.{apply-Step}
use credit_scoring_mlops.ApprovalStore.Invariant.{IsValid, run-IsValid}
use credit_scoring_mlops.ApprovalStore.Claims.{
  grants_execution, grants_retry, executions_granted, owners, releases, status_at,
  execution_granted_once, owners_alternate,
}
use credit_scoring_mlops.ApprovalStore.Queries.{
  pending_rows, is_pending, pending_rows-exact, Before,
}
use credit_scoring_mlops.Tests.{row, running, lost, done, table}

abbrev same : Fields → Fields
same d = d

abbrev shown : DateTime → String
shown t = "2026"

abbrev two_claims : List Op
two_claims = Op.claim_execution 300 "a1" ∷ Op.claim_execution 301 "a1" ∷ []

abbrev claim_and_retry : List Op
claim_and_retry =
    Op.claim_execution 300 "a1" ∷ Op.mark_unknown "a1" end ∷ Op.claim_retry_execution 400 "a1" ∷ []

abbrev older : Row → Row → Bool
older a b = leb a.id b.id

execution_granted_once_example : executions_granted same shown "a1" two_claims table ≤ 1
execution_granted_once_example = execution_granted_once same shown "a1" two_claims table

granted_test : executions_granted same shown "a1" two_claims table ≡ 1
unfolding executions_granted grants_execution apply claim_execution string_eq find put
    ApprovalStatus-discrete
granted_test = refl

owners_alternate_example :
    owners same shown "a1" claim_and_retry table
    ≤ 1 + releases same shown "a1" claim_and_retry table
owners_alternate_example = owners_alternate same shown "a1" claim_and_retry table

owners_test : owners same shown "a1" claim_and_retry table ≡ 2
unfolding owners grants_execution grants_retry apply claim_execution mark_unknown
    claim_retry_execution string_eq find put ApprovalStatus-discrete
owners_test = refl

running_executes : status_at "a1" (running ∷ []) ≡ some executing
unfolding find string_eq
running_executes = refl

nothing_released : releases same shown "a1" two_claims (running ∷ []) ≡ 0
unfolding releases apply claim_execution string_eq find put ApprovalStatus-discrete
nothing_released = refl

apply-Step_example : Step table (apply same shown (Op.claim_execution 300 "a1") table)
apply-Step_example = apply-Step same shown (Op.claim_execution 300 "a1") table

found_done : find "a1" (done ∷ []) ≡ some done
unfolding find string_eq
found_done = refl

found_row : find "a1" table ≡ some (row "a1" approved)
unfolding find string_eq
found_row = refl

table-IsValid : IsValid table
table-IsValid = (
  record {
    decided_at_set = refl;
    decided_by_set = refl;
    started_set = refl;
    result_set = λ h. absurd (ground arith);
    result_needs_start = λ h. absurd (ground arith);
  },
  tt,
)

run-IsValid_example : IsValid (run same shown claim_and_retry table)
run-IsValid_example = run-IsValid same shown claim_and_retry table table-IsValid

abbrev mixed : Table
mixed = row "a1" pending ∷ lost ∷ row "a3" pending ∷ []

pending_rows-exact_example :
    All (λ r. is_pending r ≡ true) (pending_rows older mixed)
    × IsSorted Before (pending_rows older mixed)
    × ((q : Row → Bool)
        → count_if q (pending_rows older mixed) ≡ count_if (λ r. q r && is_pending r) mixed)
pending_rows-exact_example = pending_rows-exact older mixed
