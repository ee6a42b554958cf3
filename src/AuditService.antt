-- ===== src/AuditService.antt =====
-- ai_engineering/services/audit_service.py: `AuditService` over the audit table.
use credit_scoring_mlops.Prelude.{
  ℕ, suc, String, ◌≡◌, ◌⊎◌, false, Option, none, some, List, [], ◌∷◌, ◌++◌, arith,
}
use credit_scoring_mlops.Json.{Fields, end}
use credit_scoring_mlops.Exec.{err, integrity_error, ◌>>=◌}
use credit_scoring_mlops.Schemas.{aware, AuditEvent, AuditEventType}
use credit_scoring_mlops.AuditStore.{AuditRow, append, has_event, new_row}
use credit_scoring_mlops.AuditStore.Queries.{list_events}
use credit_scoring_mlops.World.{External, World, App, read_clock, new_uuid}

-- The keyword arguments of `record`.
pub record Entry : Type 0 where
  pub actor : String
  pub action : Option String
  pub tool_name : Option String
  pub status : Option String
  pub payload : Fields
  pub error : Option String

-- Their defaults
abbrev pub entry : Entry
entry = record {
  actor = "ai-engineering-agent";
  action = none;
  tool_name = none;
  status = none;
  payload = end;
  error = none;
}

abbrev new_event : AuditEventType → String → Entry → String → ℕ → AuditEvent
new_event kind trace_id e event_id now = record {
  event_id = event_id;
  event_type = kind;
  occurred_at = aware now;
  trace_id = trace_id;
  actor = e.actor;
  action = e.action;
  tool_name = e.tool_name;
  status = e.status;
  payload = e.payload;
  error = e.error;
}

module _ (ext : External) where
  -- `new_trace_id`
  unfoldable pub new_trace_id : App String
  new_trace_id = new_uuid ext

  store_event : AuditEvent → App AuditEvent
  store_event event w =
      let (r, log) = append ext.normalise w.next_event event w.audit in
      (r, record w { audit = log; next_event = suc w.next_event })

  -- `record`
  unfoldable pub record_event : AuditEventType → String → Entry → App AuditEvent
  unfolding store_event
  record_event kind trace_id e = do
    event_id ← new_uuid ext
    now ← read_clock ext
    store_event (new_event kind trace_id e event_id now)

-- `trace`
unfoldable pub trace : String → App (List AuditEvent)
trace k w = (list_events (some k) none none w.audit, w)

-- What recording leaves alone.
pub record OnlyAudits (w w' : World) : Type 0 where
  pub approvals : w'.approvals ≡ w.approvals
  pub next_approval : w'.next_approval ≡ w.next_approval
  pub commands : w'.commands ≡ w.commands
  pub metrics : w'.metrics ≡ w.metrics

pub record_event-OnlyAudits :
    (ext : External) (kind : AuditEventType) (k : String) (e : Entry) (w : World)
    → OnlyAudits w (record_event ext kind k e w).1
unfolding record_event
record_event-OnlyAudits ext kind k e w = ground arith

-- Recording an event adds one row at the end of the log, with the trace and the type that were given and
-- an event id that no row had, or it leaves the log as it was and raises the database's error.
pub record_event-Appends :
    (ext : External) (kind : AuditEventType) (k : String) (e : Entry) (w : World)
    → let (r, w') = record_event ext kind k e w in
      ((r ≡ err integrity_error) × (w'.audit ≡ w.audit))
      ⊎ ((row : AuditRow) × (w'.audit ≡ w.audit ++ row ∷ [])
          × (row.event.trace_id ≡ k)
          × (row.event.event_type ≡ kind)
          × (has_event row.event.event_id w.audit ≡ false))
unfolding record_event append new_row
record_event-Appends ext kind k e w = grind arith
