-- ===== src/Tests/Agents.antt =====
-- The theorems on the drift signal and on the agents, applied to concrete inputs.
use credit_scoring_mlops.Prelude.{◌≡◌, refl, ◌↔◌, true, false, none, some, List, [], ◌∷◌, string_eq}
use credit_scoring_mlops.Json
use credit_scoring_mlops.Json.{
  Value, Fields, Items, nil, cons, end, field, JsonCodec, truthy, is_true,
}
use credit_scoring_mlops.Json.Access.{texts}
use credit_scoring_mlops.Exec.{ok}
use credit_scoring_mlops.Schemas.{AgentDecision, DecisionStatus, EngineeringEvent}
use credit_scoring_mlops.Monitoring.{
  SignalFile, content, retrain_required_metric, get_retrain_signal, RetrainSignal, investigate,
  save_retrain_signal, written_signal,
}
use credit_scoring_mlops.Monitoring.Report.{Metric, report_json, has_drifted, drifted_names}
use credit_scoring_mlops.Monitoring.Signal.{metric_agrees, saved_drift_investigated}
use credit_scoring_mlops.Orchestrator.{
  Llm, reason, read_answer, allowed_action, is_allowed_action, confidence_of, str_of,
}
use credit_scoring_mlops.Orchestrator.Bounds.{IsSafe, reason-IsSafe}
use credit_scoring_mlops.AgentApi.Decision.{create_agent_decision}
use credit_scoring_mlops.AgentApi.Decision.Proposals.{Proposed, create_agent_decision-Proposed}
use credit_scoring_mlops.Tests.{outside, executor, world}

abbrev drifted : Fields
drifted = written_signal (true, "age" ∷ [])

abbrev json : JsonCodec
json = record {
  dumps = λ v. "{}";
  loads = λ s. some (Value.obj (written_signal (true, "age" ∷ [])));
  decode_message = λ s. "Expecting value";
}

metric_agrees_example : (retrain_required_metric json (content "{}") ≡ 1) ↔ (
    (s : RetrainSignal) × ((get_retrain_signal json (content "{}") ≡ ok s)
      × ((s.available ≡ true) × (s.retrain_required ≡ true))))
metric_agrees_example = metric_agrees json (content "{}")

abbrev report : List Metric
report =
    record { dataset = some false; columns = none }
    ∷ record { dataset = some true; columns = some (("age", true) ∷ ("job", false) ∷ []) }
    ∷ []

abbrev event : EngineeringEvent
event = record { event_type = "model_drift_detected"; payload = end; event_id = "e1" }

saved_drift_investigated_example :
    (file : SignalFile) × ((save_retrain_signal json (report_json report) ≡ ok file)
      × ((decision : AgentDecision) × ((investigate json file event ≡ ok decision)
            × ((decision.action ≡ "propose_retraining")
                × ((decision.requires_human_approval ≡ true)
                    × (Json.get "drifted_features" decision.parameters
                        ≡ some (Value.arr (texts ("age" ∷ [])))))))))
unfolding has_drifted drifted_names
saved_drift_investigated_example = saved_drift_investigated json report event refl

abbrev advice : Fields
advice =
    field "action" (Value.str "propose_retraining") (field "confidence" (Value.float "0.9") end)

abbrev llm : Llm
llm = record {
  generate = λ system user. ok "{}";
  json = record json { loads = λ s. some (Value.obj advice) };
  to_float = λ v. ok "0.9";
  less = λ a b. true;
  show = λ v. "value";
}

abbrev advised : AgentDecision
advised = record {
  action = "propose_retraining";
  status = DecisionStatus.proposed;
  reason = Value.str "No reason provided";
  parameters = field "confidence" (Value.float "0.9") (field "tools_used" (Value.arr nil) end);
  requires_human_approval = true;
}

llm_advises : reason llm [] "Check the drift" end ≡ ok advised
unfolding reason read_answer allowed_action is_allowed_action confidence_of str_of Json.get
    string_eq truthy
llm_advises = refl

reason-IsSafe_example : IsSafe llm advised
reason-IsSafe_example = reason-IsSafe llm [] "Check the drift" end advised llm_advises

create_agent_decision-Proposed_example :
    Proposed outside
      (world [])
      (create_agent_decision outside executor llm
        (record { task = "Check the drift"; context = end })
        (world [])).1
create_agent_decision-Proposed_example =
    create_agent_decision-Proposed outside executor llm
      (record { task = "Check the drift"; context = end }) (world [])
