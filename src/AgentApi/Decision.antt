-- ===== src/AgentApi/Decision.antt =====
-- ai_engineering/api/agent_service.py: `create_agent_decision`, which turns a recommendation of the
-- orchestrator into an approval request, and the read-only handlers of the dashboard.
pub mod Proposals
use credit_scoring_mlops.Prelude.{
  ℕ, String, Bool, false, not, Option, none, some, List, [], ◌∷◌, ltb, ◌==◌, string_eq,
  if◌then◌else◌, length, take, contains,
}
use credit_scoring_mlops.Prelude.Counts.{Counts}
use credit_scoring_mlops.Prelude.Text.{codes}
use credit_scoring_mlops.Json.{Value, Fields, end, field}
use credit_scoring_mlops.Exec.{
  value_error, http, Result, ok, err, pure, raise, raise_if, lift, catch, ◌>>=◌, ◌>>◌,
}
use credit_scoring_mlops.Schemas.{
  ApprovalRequest, ApprovalStatus, AuditEvent, AuditEventType, AgentDecision, DecisionStatus,
  decision_created,
}
use credit_scoring_mlops.ApprovalStore
use credit_scoring_mlops.ApprovalStore.Rows.{Row}
use credit_scoring_mlops.ApprovalStore.Queries.{
  list_pending, list_reconcilable, list_recent, status_counts,
}
use credit_scoring_mlops.AuditStore.{count}
use credit_scoring_mlops.AuditStore.Queries.{list_events, event_counts}
use credit_scoring_mlops.World.{External, World, App, read_clock, new_uuid}
use credit_scoring_mlops.AuditService.{record_event, entry}
use credit_scoring_mlops.ApprovalService.{new_request}
use credit_scoring_mlops.KubernetesExecutor.{Executor}
use credit_scoring_mlops.Orchestrator.{Llm, reason, str_of}
use credit_scoring_mlops.AgentApi.{decision_trace, submit}

-- class AgentDecisionRequest
pub record AgentDecisionRequest : Type 0 where
  pub task : String
  pub context : Fields

-- class AgentDecisionResponse
pub record AgentDecisionResponse : Type 0 where
  pub decision : String
  pub reason : String
  pub requires_human_approval : Bool
  pub parameters : Fields
  pub trace_id : String
  pub approval_id : Option String

-- `decision.status.value`
decision_status_value : DecisionStatus → String
decision_status_value DecisionStatus.proposed = "proposed"
decision_status_value DecisionStatus.approved = "approved"
decision_status_value DecisionStatus.rejected = "rejected"
decision_status_value DecisionStatus.needs_human_approval = "needs_human_approval"

decision_payload : AgentDecision → Fields
decision_payload d = field "reason" d.reason (
    field "parameters" (Value.obj d.parameters)
      (field "requires_human_approval" (Value.bool d.requires_human_approval) end))

decision_plan : AgentDecision → Fields → Fields
decision_plan d context = field "source" (Value.str "agent_decision") (
    field "decision" (Value.str d.action)
      (field "parameters" (Value.obj d.parameters) (field "context" (Value.obj context) end)))

-- `ScriptDirectory.get_heads()` against the revision that the database answers; `none` is a failed query,
-- `some none` an empty table
unfoldable pub database_is_ready : List String → Option (Option String) → Bool
database_is_ready [] revision = false
database_is_ready (h ∷ heads) none = false
database_is_ready (h ∷ heads) (some none) = false
database_is_ready (h ∷ heads) (some (some r)) = contains (h ∷ heads) r

-- `ready`
unfoldable pub ready : List String → Option (Option String) → Result (Unit {0})
unfolding database_is_ready
ready heads revision =
    if database_is_ready heads revision
    then ok tt
    else err (http 503 "AI Engineering database is not ready")

-- pydantic's check of a field of type `str`
as_text : Value → Result String
as_text (Value.str s) = ok s
as_text _ = err (value_error "Input should be a valid string")

module _ (ext : External) (x : Executor) where
  -- the approval of a proposed retraining, and its id
  propose : String → AgentDecision → Fields → App (Option String)
  unfolding decision_plan as_text
  propose trace_id d context = do
    approval_id ← new_uuid ext
    now ← read_clock ext
    text ← lift (as_text d.reason)
    approval ←
        submit ext x (
          new_request approval_id trace_id "create_training_job" text (decision_plan d context) now)
    pure (some approval.approval_id)

  -- `create_agent_decision`, with the model that `build_orchestrator()` is connected to
  unfoldable pub create_agent_decision : Llm → AgentDecisionRequest → App AgentDecisionResponse
  unfolding decision_payload propose decision_status_value decision_plan decision_trace submit
      as_text reason str_of
  create_agent_decision llm request = do
    trace_id ← decision_trace ext x (str_of llm) request.context
    raise_if (ltb 36 (length (codes trace_id))) (http 400 "trace_id must be at most 36 characters")
    decision ←
        catch (lift (reason llm [] request.task request.context))
          (λ e. raise (http 500 "Agent decision failed"))
    record_event ext decision_created trace_id (record entry {
      action = some decision.action;
      status = some (decision_status_value decision.status);
      payload = decision_payload decision;
    })
    approval_id ←
        if decision.action == "propose_retraining"
        then propose trace_id decision request.context
        else pure none
    reason_text ← lift (as_text decision.reason)
    pure record {
      decision = decision.action;
      reason = reason_text;
      requires_human_approval = decision.requires_human_approval;
      parameters = decision.parameters;
      trace_id = trace_id;
      approval_id = approval_id;
    }

-- `list_audit_events`
unfoldable pub list_audit_events :
    Option String → Option AuditEventType → ℕ → World → Result (List AuditEvent)
list_audit_events trace kind limit w = elim (list_events trace kind (some limit) w.audit) [
  | ok events ↦ ok events
  | err (value_error m) ↦ err (http 400 m)
  | err e ↦ err e
]

-- `get_trace`: the events of the trace, or those of the approval that has the given id
unfoldable pub get_trace : String → World → Result (List AuditEvent)
unfolding ApprovalStore.get
get_trace k w = elim (list_events (some k) none none w.audit) [
  | err e ↦ err e
  | ok (e ∷ events) ↦ ok (e ∷ events)
  | ok [] ↦ elim (ApprovalStore.get k w.approvals) [
    | none ↦ ok []
    | some approval ↦
        if not (approval.trace_id == k)
        then list_events (some approval.trace_id) none none w.audit
        else ok []
  ]
]

-- `audit_stats`
unfoldable pub audit_stats : World → ℕ × Counts AuditEventType
audit_stats w = (count w.audit, event_counts w.audit)

-- class CommandCenterOverview
pub record CommandCenterOverview : Type 0 where
  pub approval_counts : Counts ApprovalStatus
  pub audit_event_counts : Counts AuditEventType
  pub pending_approvals : List ApprovalRequest
  pub reconcilable_approvals : List ApprovalRequest
  pub recent_approvals : List ApprovalRequest
  pub recent_audit_events : List AuditEvent

-- `command_center_overview`
unfoldable pub command_center_overview :
    (Row → Row → Bool) → ℕ → ℕ → World → Result CommandCenterOverview
command_center_overview tie approval_limit audit_limit w =
    elim (list_reconcilable tie approval_limit w.approvals) [
      | err e ↦ err e
      | ok uncertain ↦ elim (list_recent tie approval_limit w.approvals) [
        | err e ↦ err e
        | ok recent ↦ elim (list_events none none (some audit_limit) w.audit) [
          | err e ↦ err e
          | ok events ↦ ok (record {
            approval_counts = status_counts w.approvals;
            audit_event_counts = event_counts w.audit;
            pending_approvals = take approval_limit (list_pending tie w.approvals);
            reconcilable_approvals = uncertain;
            recent_approvals = recent;
            recent_audit_events = events;
          })
        ]
      ]
    ]
