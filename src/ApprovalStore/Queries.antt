-- ===== src/ApprovalStore/Queries.antt =====
-- ai_engineering/storage/approval_store.py: the read-only methods `list_pending`, `list_recent`,
-- `list_reconcilable` and `status_counts`. Rows that were requested at one instant come in an order
-- that SQL leaves open: the parameter `tie` decides between two of them.
use credit_scoring_mlops.Prelude.{
  ℕ, ◌+◌, ◌≤◌, ◌≡◌, refl, ◌∙◌, Bool, true, false, ◌||◌, ◌&&◌, List, [], ◌∷◌, inl, inr, Bool-cases,
  arith, ◌==◌, nat_eq, if◌then◌else◌, ltb, take, select, count_if, length, All, All-take,
  length-take-le, map,
}
use credit_scoring_mlops.Prelude.Sorting.{
  sort_by, IsSorted, All-sort_by, count_if-sort_by, sort_by-IsSorted,
}
use credit_scoring_mlops.Prelude.Counts.{
  Counts, count_at, group_by, zeros, update, count_at-update-group_by,
}
use credit_scoring_mlops.Exec.{Result, ok, err, value_error}
use credit_scoring_mlops.Schemas.{
  utc, ApprovalStatus, pending, approved, rejected, executing, unknown, completed, failed,
  status_eq, ApprovalRequest,
}
use credit_scoring_mlops.ApprovalStore.{to_schema}
use credit_scoring_mlops.ApprovalStore.Rows.{Row, Table}

abbrev pub requested : Row → ℕ
requested r = utc r.requested_at

abbrev pub is_pending : Row → Bool
is_pending r = r.status == pending

-- `status.in_([UNKNOWN, EXECUTING])`
abbrev pub is_uncertain : Row → Bool
is_uncertain r = r.status == unknown || r.status == executing

module _ (tie : Row → Row → Bool) where
  -- ORDER BY requested_at ASC, and DESC
  unfoldable pub earlier : Row → Row → Bool
  earlier r q = ltb (requested r) (requested q) || (requested r == requested q && tie r q)

  unfoldable pub later : Row → Row → Bool
  later r q = ltb (requested q) (requested r) || (requested r == requested q && tie r q)

  -- The rows of `list_pending`, and the method
  unfoldable pub pending_rows : Table → List Row
  unfolding earlier
  pending_rows t = sort_by earlier (select is_pending t)

  unfoldable pub list_pending : Table → List ApprovalRequest
  unfolding pending_rows
  list_pending t = map to_schema (pending_rows t)

  unfoldable pub recent_rows : ℕ → Table → List Row
  unfolding later
  recent_rows limit t = take limit (sort_by later t)

  -- `list_recent`
  unfoldable pub list_recent : ℕ → Table → Result (List ApprovalRequest)
  unfolding recent_rows
  list_recent limit t =
      if ltb limit 1
      then err (value_error "limit must be positive")
      else ok (map to_schema (recent_rows limit t))

  unfoldable pub reconcilable_rows : ℕ → Table → List Row
  unfolding earlier
  reconcilable_rows limit t = take limit (sort_by earlier (select is_uncertain t))

  -- `list_reconcilable`
  unfoldable pub list_reconcilable : ℕ → Table → Result (List ApprovalRequest)
  unfolding reconcilable_rows
  list_reconcilable limit t =
      if ltb limit 1
      then err (value_error "limit must be positive")
      else ok (map to_schema (reconcilable_rows limit t))

-- `[status for status in ApprovalStatus]`
abbrev pub statuses : List ApprovalStatus
statuses = pending ∷ approved ∷ rejected ∷ executing ∷ unknown ∷ completed ∷ failed ∷ []

-- `status_counts`; a key stands for its `.value`
unfoldable pub status_counts : Table → Counts ApprovalStatus
status_counts t = update (zeros statuses) (group_by (map (λ r. r.status) t))

abbrev pub Before : Row → Row → Type 0
Before r q = requested r ≤ requested q

module _ (tie : Row → Row → Bool) where
  earlier-Before : (r q : Row) → earlier tie r q ≡ true → Before r q
  unfolding earlier
  earlier-Before r q h = ground arith

  earlier-not : (r q : Row) → earlier tie r q ≡ false → Before q r
  unfolding earlier
  earlier-not r q h = ground arith

  select-All : (p : Row → Bool) (t : Table) → All (λ r. p r ≡ true) (select p t)
  select-All p [] = tt
  select-All p (r ∷ t) = elim (Bool-cases (p r)) [
    | inl e ↦ rw e (e, select-All p t)
    | inr e ↦ rw e (select-All p t)
  ]

  count_if-select :
      (p q : Row → Bool) (t : Table) → count_if q (select p t) ≡ count_if (λ r. q r && p r) t
  count_if-select p q [] = refl
  count_if-select p q (r ∷ t) = ground (arith, count_if-select p q t)

  -- `list_pending` reads exactly the pending rows, each as often as it is stored, the earliest request
  -- first, whatever order the database gives to equal times.
  pub pending_rows-exact :
      (t : Table)
      → All (λ r. is_pending r ≡ true) (pending_rows tie t)
        × IsSorted Before (pending_rows tie t)
        × ((q : Row → Bool)
            → count_if q (pending_rows tie t) ≡ count_if (λ r. q r && is_pending r) t)
  unfolding pending_rows
  pending_rows-exact t = (
    All-sort_by (earlier tie) (λ r. is_pending r ≡ true) (select is_pending t)
        (select-All is_pending t),
    sort_by-IsSorted (earlier tie) Before (λ x y z a b. omega arith) earlier-Before earlier-not
        (select is_pending t),
    λ q. count_if-sort_by (earlier tie) q (select is_pending t) ∙ count_if-select is_pending q t,
  )

  -- `list_reconcilable` reads at most `limit` rows, all of them executing or unknown.
  pub reconcilable_rows-uncertain :
      (limit : ℕ) (t : Table)
      → (length (reconcilable_rows tie limit t) ≤ limit)
        × All (λ r. is_uncertain r ≡ true) (reconcilable_rows tie limit t)
  unfolding reconcilable_rows
  reconcilable_rows-uncertain limit t = (
    length-take-le limit (sort_by (earlier tie) (select is_uncertain t)),
    All-take (λ r. is_uncertain r ≡ true) limit (sort_by (earlier tie) (select is_uncertain t))
        (All-sort_by (earlier tie) (λ r. is_uncertain r ≡ true) (select is_uncertain t)
          (select-All is_uncertain t)),
  )

count_if-statuses :
    (s : ApprovalStatus) (t : Table)
    → count_if (λ j. j == s) (map (λ r. r.status) t) ≡ count_if (λ r. r.status == s) t
count_if-statuses s [] = refl
count_if-statuses s (r ∷ t) = ground (arith, count_if-statuses s t)

-- The count that `status_counts` reports of a status is the number of rows in it, also if it is 0.
pub count_at-status_counts :
    (s : ApprovalStatus) (t : Table)
    → count_at s (status_counts t) ≡ count_if (λ r. r.status == s) t
unfolding status_counts
count_at-status_counts s t =
    count_at-update-group_by s statuses (map (λ r. r.status) t) ∙ count_if-statuses s t

abbrev with_status : ApprovalStatus → Table → ℕ
with_status s t = count_if (λ r. r.status == s) t

status_partition :
    (t : Table)
    → with_status pending t
        + with_status approved t
        + with_status rejected t
        + with_status executing t
        + with_status unknown t
        + with_status completed t
        + with_status failed t
      ≡ length t
status_partition [] = refl
status_partition (r ∷ t) = ground (arith, status_partition t)

-- The seven counts of `status_counts` add up to the number of stored approvals.
pub status_counts_total :
    (t : Table)
    → count_at pending (status_counts t)
        + count_at approved (status_counts t)
        + count_at rejected (status_counts t)
        + count_at executing (status_counts t)
        + count_at unknown (status_counts t)
        + count_at completed (status_counts t)
        + count_at failed (status_counts t)
      ≡ length t
status_counts_total t =
    rw
      (
        count_at-status_counts pending t,
        count_at-status_counts approved t,
        count_at-status_counts rejected t,
        count_at-status_counts executing t,
        count_at-status_counts unknown t,
        count_at-status_counts completed t,
        count_at-status_counts failed t,
      )
      (status_partition t)
