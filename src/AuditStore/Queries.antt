-- ===== src/AuditStore/Queries.antt =====
-- ai_engineering/storage/audit_store.py: `list` and `event_counts`.
use credit_scoring_mlops.Prelude.{
  ℕ, ◌≤◌, String, ◌≡◌, refl, ◌∙◌, inl, inr, Bool, true, false, not, ◌||◌, ◌&&◌, Option, none, some,
  List, [], ◌∷◌, arith, ◌==◌, string_eq, nat_eq, Bool-cases, if◌then◌else◌, ltb, take, select,
  count_if, All, is_some, map,
}
use credit_scoring_mlops.Prelude.Sorting.{
  sort_by, IsSorted, All-sort_by, count_if-sort_by, sort_by-IsSorted,
}
use credit_scoring_mlops.Prelude.Counts.{Counts, group_by, zeros, update}
use credit_scoring_mlops.Exec.{Result, ok, err, value_error}
use credit_scoring_mlops.Schemas.{
  utc, AuditEvent, AuditEventType, event_type_eq, agent_requested, tool_called, tool_result,
  decision_created, approval_requested, approval_decided, execution_started, execution_unknown,
  execution_reconciliation_started, execution_reconciliation_completed, execution_retry,
  execution_completed, execution_failed,
}
use credit_scoring_mlops.AuditStore.{AuditRow, AuditLog, to_schema}

abbrev pub occurred : AuditRow → ℕ
occurred r = utc r.event.occurred_at

-- ORDER BY occurred_at ASC or DESC, then id ASC
unfoldable pub oldest_first : AuditRow → AuditRow → Bool
oldest_first r q =
    ltb (occurred r) (occurred q) || (occurred r == occurred q && not (ltb q.id r.id))

unfoldable pub newest_first : AuditRow → AuditRow → Bool
newest_first r q =
    ltb (occurred q) (occurred r) || (occurred r == occurred q && not (ltb q.id r.id))

-- the WHERE clauses; an argument that is None filters nothing
unfoldable pub has_trace : Option String → AuditRow → Bool
has_trace none r = true
has_trace (some k) r = r.event.trace_id == k

unfoldable pub has_type : Option AuditEventType → AuditRow → Bool
has_type none r = true
has_type (some e) r = r.event.event_type == e

limit_to : Option ℕ → List AuditRow → List AuditRow
limit_to none rows = rows
limit_to (some n) rows = take n rows

bad_limit : Option ℕ → Bool
bad_limit none = false
bad_limit (some n) = ltb n 1 || ltb 1000 n

-- the rows that the statement of `list` selects
unfoldable pub select_rows :
    Option String → Option AuditEventType → Option ℕ → AuditLog → List AuditRow
unfolding limit_to has_trace has_type oldest_first newest_first
select_rows trace kind limit log = limit_to limit (
    sort_by (if is_some trace then oldest_first else newest_first)
      (select (λ r. has_trace trace r && has_type kind r) log))

-- `list`
unfoldable pub list_events :
    Option String → Option AuditEventType → Option ℕ → AuditLog → Result (List AuditEvent)
unfolding bad_limit select_rows
list_events trace kind limit log =
    if bad_limit limit
    then err (value_error "limit must be between 1 and 1000")
    else ok (map to_schema (select_rows trace kind limit log))

abbrev pub event_types : List AuditEventType
event_types =
    agent_requested ∷ tool_called ∷ tool_result ∷ decision_created ∷ approval_requested
    ∷ approval_decided ∷ execution_started ∷ execution_unknown ∷ execution_reconciliation_started
    ∷ execution_reconciliation_completed ∷ execution_retry ∷ execution_completed ∷ execution_failed
    ∷ []

-- `event_counts`; a key stands for its `.value`
unfoldable pub event_counts : AuditLog → Counts AuditEventType
event_counts log = update (zeros event_types) (group_by (map (λ r. r.event.event_type) log))

-- In the order of the log: by time, and by id at one time.
abbrev pub Earlier : AuditRow → AuditRow → Type 0
Earlier r q = (occurred r ≤ occurred q) × (occurred r ≡ occurred q → r.id ≤ q.id)

oldest_first-Earlier : (r q : AuditRow) → oldest_first r q ≡ true → Earlier r q
unfolding oldest_first
oldest_first-Earlier r q h = ground arith

oldest_first-not : (r q : AuditRow) → oldest_first r q ≡ false → Earlier q r
unfolding oldest_first
oldest_first-not r q h = ground arith

Earlier-trans : (r q p : AuditRow) → Earlier r q → Earlier q p → Earlier r p
Earlier-trans r q p a b = ground arith

select-All : (p : AuditRow → Bool) (log : AuditLog) → All (λ r. p r ≡ true) (select p log)
select-All p [] = tt
select-All p (r ∷ log) = elim (Bool-cases (p r)) [
  | inl e ↦ rw e (e, select-All p log)
  | inr e ↦ rw e (select-All p log)
]

count_if-select :
    (p q : AuditRow → Bool) (log : AuditLog)
    → count_if q (select p log) ≡ count_if (λ r. q r && p r) log
count_if-select p q [] = refl
count_if-select p q (r ∷ log) = ground (arith, count_if-select p q log)

-- `list` of a trace without a limit, for one event type or all, returns exactly the events of the trace
-- and the type, each as often as it is stored, in the order of their time and then their id.
pub trace-exact :
    (k : String) (kind : Option AuditEventType) (log : AuditLog)
    → let rows = select_rows (some k) kind none log in
      let wanted = λ (r : AuditRow). has_trace (some k) r && has_type kind r in
      All (λ r. wanted r ≡ true) rows
      × IsSorted Earlier rows
      × ((q : AuditRow → Bool) → count_if q rows ≡ count_if (λ r. q r && wanted r) log)
unfolding select_rows
trace-exact k kind log =
    let wanted = λ (r : AuditRow). has_trace (some k) r && has_type kind r in
    (
      All-sort_by oldest_first (λ r. wanted r ≡ true) (select wanted log) (select-All wanted log),
      sort_by-IsSorted oldest_first Earlier Earlier-trans oldest_first-Earlier oldest_first-not
          (select wanted log),
      λ q. count_if-sort_by oldest_first q (select wanted log) ∙ count_if-select wanted q log,
    )
