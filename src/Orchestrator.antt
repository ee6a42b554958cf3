-- ===== src/Orchestrator.antt =====
-- ai_engineering/agents/orchestrator.py: the agent that routes events to workflows and asks a language
-- model for recommendations. The model, the JSON library and Python's float type are parameters.
pub mod Bounds
use credit_scoring_mlops.Prelude.{
  String, ◌<>◌, Bool, true, false, not, Option, none, some, List, [], ◌∷◌, ◌==◌, string_eq,
  contains, if◌then◌else◌,
}
use credit_scoring_mlops.Json
use credit_scoring_mlops.Json.{Value, Fields, end, field, Items, nil, cons, truthy, JsonCodec}
use credit_scoring_mlops.Json.Access.{get_default, texts}
use credit_scoring_mlops.Exec.{Error, type_error, value_error, Result, ok, err}
use credit_scoring_mlops.Schemas.{AgentDecision, DecisionStatus, EngineeringEvent}
use credit_scoring_mlops.Monitoring.{SignalFile, investigate}

-- What comes from outside: `generate` of the model's provider with the system's and the user's prompt, an error
-- being any exception; the JSON library; and Python's `float(v)`, `<` of floats and `str(v)`.
pub record Llm : Type 0 where
  pub generate : String → String → Result String
  pub json : JsonCodec
  pub to_float : Value → Result String
  pub less : String → String → Bool
  pub show : Value → String

-- `handle`
unfoldable pub handle : JsonCodec → SignalFile → EngineeringEvent → Result AgentDecision
unfolding investigate
handle json file event =
    if event.event_type == "model_drift_detected"
    then investigate json file event
    else ok (record {
      action = "manual_review";
      status = DecisionStatus.proposed;
      reason = Value.str ("No workflow registered for event type: " <> event.event_type);
      parameters = field "event_id" (Value.str event.event_id) end;
      requires_human_approval = true;
    })

abbrev pub allowed_actions : List String
allowed_actions = "no_action" ∷ "investigate" ∷ "propose_retraining" ∷ "request_human_approval" ∷ []

unfoldable pub is_allowed_action : String → Bool
is_allowed_action action = contains allowed_actions action

reasoning_prompt : String
reasoning_prompt =
    "You are the reasoning layer of an ML engineering command center. "
    <> "Never execute infrastructure actions. Return JSON only with keys: "
    <> "action, reason, confidence, requires_human_approval, tools_used. "
    <> "Allowed actions: no_action, investigate, propose_retraining, "
    <> "request_human_approval. Confidence must be a number from 0 to 1. "
    <> "Dangerous or mutating actions always require human approval."

-- A review by hand, with what led to it
abbrev manual_review : String → Fields → AgentDecision
manual_review reason parameters = record {
  action = "manual_review";
  status = DecisionStatus.proposed;
  reason = Value.str reason;
  parameters = parameters;
  requires_human_approval = true;
}

-- `action in allowed_actions`, which hashes the action: lists and dicts have no hash
unfoldable pub allowed_action : Value → Result (Option String)
unfolding is_allowed_action
allowed_action (Value.str s) = ok (if is_allowed_action s then some s else none)
allowed_action (Value.arr r) = err (type_error "unhashable type: 'list'")
allowed_action (Value.obj d) = err (type_error "unhashable type: 'dict'")
allowed_action v = ok none

module _ (llm : Llm) where
  prompt_payload : List String → String → Fields → Value
  unfolding texts
  prompt_payload tools task context = Value.obj (
      field "task" (Value.str task) (
        field "context" (Value.obj context)
          (field "available_tools" (Value.arr (texts tools)) end)))

  -- `max(0.0, min(1.0, x))`: the first argument wins a tie and whatever does not compare
  unfoldable pub clamp : String → String
  clamp x =
      let below = if llm.less x "1.0" then x else "1.0" in
      if llm.less "0.0" below then below else "0.0"

  clamped : Result String → Result String
  unfolding clamp
  clamped (ok x) = ok (clamp x)
  clamped (err (type_error m)) = ok "0.0"
  clamped (err (value_error m)) = ok "0.0"
  clamped (err e) = err e

  -- the confidence, which is not what the model wrote if that is no number from 0 to 1
  unfoldable pub confidence_of : Value → Result String
  unfolding clamped
  confidence_of v = clamped (llm.to_float v)

  -- `str(v)`
  unfoldable pub str_of : Value → String
  str_of (Value.str s) = s
  str_of v = llm.show v

  recommendation : String → Fields → String → AgentDecision
  unfolding str_of truthy
  recommendation action payload confidence = record {
    action = action;
    status = DecisionStatus.proposed;
    reason = Value.str (str_of (get_default "reason" (Value.str "No reason provided") payload));
    parameters =
        field "confidence" (Value.float confidence)
          (field "tools_used" (get_default "tools_used" (Value.arr nil) payload) end);
    requires_human_approval =
        truthy (get_default "requires_human_approval" (Value.bool true) payload);
  }

  recommended : String → Fields → Result String → Result AgentDecision
  unfolding recommendation
  recommended action payload (err e) = err e
  recommended action payload (ok confidence) = ok (recommendation action payload confidence)

  judged : Fields → Result (Option String) → Result AgentDecision
  unfolding recommended confidence_of
  judged payload (err e) = err e
  judged payload (ok none) = ok (
      manual_review "LLM returned an action outside the allowlist."
        (field "llm_response" (Value.obj payload) end))
  judged payload (ok (some action)) =
      recommended action payload
        (confidence_of (get_default "confidence" (Value.float "0.0") payload))

  -- what follows `json.loads(raw)`; what is no dict has no `get`
  unfoldable pub read_answer : String → Option Value → Result AgentDecision
  unfolding judged allowed_action
  read_answer raw none = ok (
      manual_review ("LLM returned invalid JSON: " <> llm.json.decode_message raw)
        (field "raw_response" (Value.str raw) end))
  read_answer raw (some (Value.obj payload)) =
      judged payload (allowed_action (get_default "action" Value.null payload))
  read_answer raw (some v) = err (Error.other "no attribute 'get'")

  -- `reason`, with the names of the agent's tools
  unfoldable pub reason : List String → String → Fields → Result AgentDecision
  unfolding reasoning_prompt prompt_payload read_answer
  reason tools task context =
      elim (llm.generate reasoning_prompt (llm.json.dumps (prompt_payload tools task context))) [
        | err e ↦ err e
        | ok raw ↦ read_answer raw (llm.json.loads raw)
      ]
