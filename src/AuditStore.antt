-- ===== src/AuditStore.antt =====
-- ai_engineering/storage/audit_store.py: the append-only table `ai_engineering_audit_events`.
pub mod Queries
use credit_scoring_mlops.Prelude.{
  ℕ, suc, ◌+◌, ◌≤◌, String, ◌≡◌, refl, Bool, true, false, not, ◌||◌, ◌&&◌, Option, none, some, List,
  [], ◌∷◌, ◌++◌, arith, ◌==◌, string_eq, if◌then◌else◌, ltb, length,
}
use credit_scoring_mlops.Json.{Fields}
use credit_scoring_mlops.Exec.{Exec, ok, err, raise, integrity_error}
use credit_scoring_mlops.Schemas.{AuditEvent}

-- class AuditEventRow: the columns of an event, and the id
pub record AuditRow : Type 0 where
  pub id : ℕ
  pub event : AuditEvent

abbrev pub AuditLog : Type 0
AuditLog = List AuditRow

-- `to_schema`
abbrev pub to_schema : AuditRow → AuditEvent
to_schema row = row.event

unfoldable pub has_event : String → AuditLog → Bool
has_event k [] = false
has_event k (r ∷ log) = r.event.event_id == k || has_event k log

unfoldable pub new_row : (Fields → Fields) → ℕ → AuditEvent → AuditRow
new_row normalise id event = record {
  id = id;
  event = record event { payload = normalise event.payload };
}

-- `append`. The commit fails on a second event of one `event_id`.
unfoldable pub append : (Fields → Fields) → ℕ → AuditEvent → Exec AuditLog AuditEvent
unfolding has_event new_row
append normalise id event log =
    if has_event event.event_id log
    then raise integrity_error log
    else (ok event, log ++ new_row normalise id event ∷ [])

-- `count`
unfoldable pub count : AuditLog → ℕ
count log = length log

-- `clear`
unfoldable pub clear : Exec AuditLog (Unit {0})
clear log = (ok tt, [])
