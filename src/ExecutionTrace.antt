-- ===== src/ExecutionTrace.antt =====
-- ai_engineering/services/execution_trace.py: the trace of one agent request, which closes with the end of
-- the execution.
use credit_scoring_mlops.Prelude.{
  String, ◌≡◌, refl, Bool, true, false, Option, some, List, [], ◌∷◌, arith, get_or, ap,
  if◌then◌else◌,
}
use credit_scoring_mlops.Json.{Value, Fields, end, field}
use credit_scoring_mlops.Exec.{runtime_error, Result, ok, err}
use credit_scoring_mlops.Schemas.{
  AuditEventType, agent_requested, tool_called, tool_result, approval_requested, execution_started,
  execution_completed, execution_failed,
}
use credit_scoring_mlops.World.{External, World}
use credit_scoring_mlops.AuditService.{Entry, entry, record_event}

-- The object: its trace id, and `_closed`
pub record Trace : Type 0 where
  pub trace_id : String
  pub closed : Bool

-- The calls that record
pub data Call : Type 0 where
  request : String → Call
  tool_call : String → Fields → Call
  tool_ended : String → Value → String → Call
  approval : String → String → Fields → Call
  started : String → Call
  completed : String → Fields → Call
  failed : String → String → Option Fields → Call

unfoldable pub event_of : Call → AuditEventType × Entry
event_of (request task) = (
  agent_requested,
  record entry { status = some "started"; payload = field "task" (Value.str task) end },
)
event_of (tool_call tool arguments) = (
  tool_called,
  record entry {
    tool_name = some tool;
    status = some "started";
    payload = field "arguments" (Value.obj arguments) end;
  },
)
event_of (tool_ended tool result status) = (
  tool_result,
  record entry { tool_name = some tool; status = some status; payload = field "result" result end },
)
event_of (approval action reason plan) = (
  approval_requested,
  record entry {
    action = some action;
    status = some "pending";
    payload = field "reason" (Value.str reason) (field "execution_plan" (Value.obj plan) end);
  },
)
event_of (started action) =
    (execution_started, record entry { action = some action; status = some "started" })
event_of (completed action result) = (
  execution_completed,
  record entry {
    action = some action;
    status = some "completed";
    payload = field "result" (Value.obj result) end;
  },
)
event_of (failed action error result) = (
  execution_failed,
  record entry {
    action = some action;
    status = some "failed";
    payload = field "result" (Value.obj (get_or result end)) end;
    error = some error;
  },
)

-- `self._closed = True` at the end of `execution_completed` and `execution_failed`
unfoldable pub closes : Call → Bool
closes (completed action result) = true
closes (failed action error result) = true
closes _ = false

module _ (ext : External) where
  -- The end of the recording: an exception leaves the object as it was
  recorded : Call → Trace → Result (Unit {0}) → Result (Unit {0}) × Trace
  unfolding closes
  recorded c t (err e) = (err e, t)
  recorded c t (ok u) = (ok u, (if closes c then record t { closed = true } else t))

  plain : {A : Type 0} → Result A → Result (Unit {0})
  plain (ok a) = ok tt
  plain (err e) = err e

  -- A call, after `_ensure_open`
  unfoldable pub call : Call → Trace → World → (Result (Unit {0}) × Trace) × World
  unfolding event_of recorded plain closes
  call c t w =
      if t.closed
      then ((err (runtime_error "Execution trace is already closed"), t), w)
      else (let (r, w') = record_event ext (event_of c).0 t.trace_id (event_of c).1 w in
          (recorded c t (plain r), w'))

  -- Any calls one after the other, whatever exceptions they raise
  unfoldable pub calls : List Call → Trace → World → Trace × World
  unfolding call
  calls [] t w = (t, w)
  calls (c ∷ cs) t w = let ((r, t'), w') = call c t w in calls cs t' w'

  -- A closed trace stays closed and records nothing more, whatever is called.
  pub closed_calls :
      (cs : List Call) (t : Trace) (w : World) → t.closed ≡ true → calls cs t w ≡ (t, w)
  unfolding calls call
  closed_calls [] t w h = refl
  closed_calls (c ∷ cs) t w h = ground (arith, closed_calls cs t w h)

  closing-closed :
      (c : Call) (t : Trace) (w : World)
      → closes c ≡ true
      → (call c t w).0.0 ≡ ok tt
      → (call c t w).0.1.closed ≡ true
  unfolding call recorded plain
  closing-closed c t w h returned = ground arith

  -- A call that closes the trace and returns is the last one that records: after it no call changes the
  -- audit log.
  pub closing_is_last :
      (c : Call) (cs : List Call) (t : Trace) (w : World)
      → closes c ≡ true
      → (call c t w).0.0 ≡ ok tt
      → (calls cs (call c t w).0.1 (call c t w).1).1 ≡ (call c t w).1
  closing_is_last c cs t w h returned =
      ap (λ p. p.1)
        (closed_calls cs (call c t w).0.1 (call c t w).1 (closing-closed c t w h returned))
