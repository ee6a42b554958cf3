-- ===== src/Schemas.antt =====
-- ai_engineering/schemas/approvals.py, audit.py, agent.py and decisions.py: the data that the
-- control plane stores and passes on.
use credit_scoring_mlops.Prelude.{ℕ, String, Bool, Option, Eq}
use credit_scoring_mlops.Json.{Value, Fields}

-- A `datetime`, in microseconds since `datetime.min`; a naive one has no `tzinfo`.
pub data DateTime : Type 0 where
  aware : ℕ → DateTime
  naive : ℕ → DateTime

-- The instant, a naive time being read as UTC: `started_at.replace(tzinfo=timezone.utc)`.
abbrev pub utc : DateTime → ℕ
utc (aware t) = t
utc (naive t) = t

-- class ApprovalStatus
pub data ApprovalStatus : Type 0 where
  pending approved rejected executing unknown completed failed : ApprovalStatus

unfoldable pub ApprovalStatus-discrete : Discrete ApprovalStatus
ApprovalStatus-discrete = hlevel

instance abbrev pub status_eq : Eq ApprovalStatus
status_eq = record { dec = ApprovalStatus-discrete }

-- `status.value`
unfoldable pub status_value : ApprovalStatus → String
status_value pending = "pending"
status_value approved = "approved"
status_value rejected = "rejected"
status_value executing = "executing"
status_value unknown = "unknown"
status_value completed = "completed"
status_value failed = "failed"

-- class ApprovalRequest
pub record ApprovalRequest : Type 0 where
  pub approval_id : String
  pub trace_id : String
  pub action : String
  pub reason : String
  pub requested_at : DateTime
  pub status : ApprovalStatus
  pub execution_plan : Fields
  pub decided_at : Option DateTime
  pub decided_by : Option String
  pub decision_comment : Option String
  pub execution_started_at : Option DateTime
  pub execution_result : Option Fields

-- class ApprovalDecision
pub record ApprovalDecision : Type 0 where
  pub approval_id : String
  pub approved : Bool
  pub decided_at : DateTime
  pub decided_by : String
  pub comment : Option String

-- class AuditEventType
pub data AuditEventType : Type 0 where
  agent_requested tool_called tool_result decision_created approval_requested : AuditEventType
  approval_decided execution_started execution_unknown : AuditEventType
  execution_reconciliation_started execution_reconciliation_completed : AuditEventType
  execution_retry execution_completed execution_failed : AuditEventType

unfoldable pub AuditEventType-discrete : Discrete AuditEventType
AuditEventType-discrete = hlevel

instance abbrev pub event_type_eq : Eq AuditEventType
event_type_eq = record { dec = AuditEventType-discrete }

-- class AuditEvent
pub record AuditEvent : Type 0 where
  pub event_id : String
  pub event_type : AuditEventType
  pub occurred_at : DateTime
  pub trace_id : String
  pub actor : String
  pub action : Option String
  pub tool_name : Option String
  pub status : Option String
  pub payload : Fields
  pub error : Option String

-- schemas/decisions.py: class DecisionStatus
pub data DecisionStatus : Type 0 where
  proposed approved rejected needs_human_approval : DecisionStatus

-- schemas/decisions.py: class AgentDecision, a dataclass, which does not check that its
-- reason is a text
pub record AgentDecision : Type 0 where
  pub action : String
  pub status : DecisionStatus
  pub reason : Value
  pub parameters : Fields
  pub requires_human_approval : Bool

-- schemas/events.py: class EngineeringEvent, less its source and creation time, which nothing reads
pub record EngineeringEvent : Type 0 where
  pub event_type : String
  pub payload : Fields
  pub event_id : String
