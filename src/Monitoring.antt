-- ===== src/Monitoring.antt =====
-- The drift signal: src/monitoring/drift_report.py (`save_retrain_signal`) writes it, and
-- ai_engineering/tools/monitoring_tools.py, ai_engineering/agents/monitoring_agent.py and
-- services/api/main.py (`update_retrain_required_metric`) read it. The state is the signal's file; the
-- texts of JSON documents come from `json`, a parameter.
pub mod Report
pub mod Signal
use credit_scoring_mlops.Prelude.{
  ℕ, String, ◌<>◌, Bool, true, false, Option, none, some, List, [], ◌∷◌, ◌++◌, if◌then◌else◌,
}
use credit_scoring_mlops.Json
use credit_scoring_mlops.Json.{
  JsonCodec, Value, Fields, end, field, Items, nil, cons, truthy, flag, is_true,
}
use credit_scoring_mlops.Json.Access.{get_default, as_dict, has_key, item, iterate, texts}
use credit_scoring_mlops.Exec.{Error, Result, ok, err}
use credit_scoring_mlops.Schemas.{AgentDecision, DecisionStatus, EngineeringEvent}

-- reports/retrain_signal.json: absent, not to be opened (an OSError with its text), not UTF-8, or a text
pub data SignalFile : Type 0 where
  missing : SignalFile
  unreadable : String → SignalFile
  undecodable : SignalFile
  content : String → SignalFile

-- The dict that `get_retrain_signal` returns
pub record RetrainSignal : Type 0 where
  pub available : Bool
  pub retrain_required : Bool
  pub reason : Value
  pub drifted_features : Value

-- That dict as JSON
unfoldable pub signal_value : RetrainSignal → Value
signal_value s = Value.obj (
    field "available" (Value.bool s.available) (
      field "retrain_required" (Value.bool s.retrain_required)
        (field "reason" s.reason (field "drifted_features" s.drifted_features end))))

unfoldable pub unavailable : String → RetrainSignal
unavailable reason = record {
  available = false;
  retrain_required = false;
  reason = Value.str reason;
  drifted_features = Value.arr nil;
}

-- the last dict of `get_retrain_signal`
unfoldable pub available_signal : Value → Result RetrainSignal
unfolding as_dict flag
available_signal (Value.obj d) = ok (record {
  available = true;
  retrain_required = flag "retrain_required" d;
  reason = get_default "reason" (Value.str "Unknown") d;
  drifted_features = get_default "drifted_features" (Value.arr nil) d;
})
available_signal v = err (Error.other "no attribute 'get'")

-- The gauge for a document that was parsed, if it was; what has no `get` raises, which sets 0
unfoldable pub metric_of : Option Value → ℕ
unfolding flag
metric_of (some (Value.obj d)) = if flag "retrain_required" d then 1 else 0
metric_of _ = 0

module _ (json : JsonCodec) where
  unfoldable pub parse_signal : String → Option Value → Result RetrainSignal
  unfolding available_signal unavailable
  parse_signal text none =
      ok (unavailable ("Failed to read retrain signal: " <> json.decode_message text))
  parse_signal text (some v) = available_signal v

  -- `get_retrain_signal`
  unfoldable pub get_retrain_signal : SignalFile → Result RetrainSignal
  unfolding parse_signal unavailable
  get_retrain_signal missing = ok (unavailable "Retrain signal file does not exist")
  get_retrain_signal (unreadable message) =
      ok (unavailable ("Failed to read retrain signal: " <> message))
  get_retrain_signal undecodable = err (Error.other "UnicodeDecodeError")
  get_retrain_signal (content text) = parse_signal text (json.loads text)

  -- `update_retrain_required_metric`: the gauge's new value
  unfoldable pub retrain_required_metric : SignalFile → ℕ
  unfolding metric_of
  retrain_required_metric (content text) = metric_of (json.loads text)
  retrain_required_metric _ = 0

-- `investigate`, on what the tool returned
unfoldable pub decide_on : EngineeringEvent → RetrainSignal → AgentDecision
decide_on event signal =
    let event_id = Value.str event.event_id in
    if signal.available
    then (if signal.retrain_required
        then record {
          action = "propose_retraining";
          status = DecisionStatus.proposed;
          reason = signal.reason;
          parameters =
              field "event_id" event_id (field "drifted_features" signal.drifted_features end);
          requires_human_approval = true;
        }
        else record {
          action = "no_action";
          status = DecisionStatus.proposed;
          reason = signal.reason;
          parameters =
              field "event_id" event_id (field "drifted_features" signal.drifted_features end);
          requires_human_approval = false;
        })
    else record {
      action = "manual_review";
      status = DecisionStatus.proposed;
      reason = Value.str "Monitoring signal is unavailable, so automated analysis is unsafe.";
      parameters = field "event_id" event_id end;
      requires_human_approval = true;
    }

unfoldable pub investigate : JsonCodec → SignalFile → EngineeringEvent → Result AgentDecision
unfolding get_retrain_signal decide_on
investigate json file event = elim (get_retrain_signal json file) [
  | err e ↦ err e
  | ok signal ↦ ok (decide_on event signal)
]

-- The loop over `result["drift_by_columns"].items()`
unfoldable pub drifted_columns : Fields → List String → Result (List String)
unfolding as_dict is_true Json.get
drifted_columns end found = ok found
drifted_columns (field name info rest) found = elim (as_dict info) [
  | err e ↦ err e
  | ok d ↦
      drifted_columns rest
        (if is_true (Json.get "drift_detected" d) then found ++ name ∷ [] else found)
]

-- `drift_detected` and `drifted_features`
abbrev pub Drift : Type 0
Drift = Bool × List String

dataset_drift : Value → Bool → Result Bool
unfolding has_key item truthy
dataset_drift result before = elim (has_key "dataset_drift" result) [
  | err e ↦ err e
  | ok false ↦ ok before
  | ok true ↦ elim (item "dataset_drift" result) [ err e ↦ err e | ok v ↦ ok (truthy v) ]
]

-- `v.items()` with the loop
column_drift_of : Value → List String → Result (List String)
unfolding drifted_columns
column_drift_of (Value.obj d) found = drifted_columns d found
column_drift_of v found = err (Error.other "no attribute 'items'")

column_drift : Value → List String → Result (List String)
unfolding has_key item column_drift_of drifted_columns
column_drift result found = elim (has_key "drift_by_columns" result) [
  | err e ↦ err e
  | ok false ↦ ok found
  | ok true ↦ elim (item "drift_by_columns" result) [
    | err e ↦ err e
    | ok v ↦ column_drift_of v found
  ]
]

-- One turn of the loop over the metrics
unfoldable pub add_metric : Value → Drift → Result Drift
unfolding dataset_drift column_drift as_dict Json.get
add_metric metric (drift, found) = elim (as_dict metric) [
  | err e ↦ err e
  | ok m ↦
      let result = get_default "result" (Value.obj end) m in
      elim (dataset_drift result drift) [
        | err e ↦ err e
        | ok drift' ↦ elim (column_drift result found) [
          | err e ↦ err e
          | ok found' ↦ ok (drift', found')
        ]
      ]
]

unfoldable pub add_metrics : Items → Drift → Result Drift
unfolding add_metric
add_metrics nil drift = ok drift
add_metrics (cons metric metrics) drift = elim (add_metric metric drift) [
  | err e ↦ err e
  | ok drift' ↦ add_metrics metrics drift'
]

-- The dict that is written
unfoldable pub written_signal : Drift → Fields
written_signal (drift, found) = field "retrain_required" (Value.bool drift) (
    field "reason" (Value.str (if drift then "Data drift detected" else "No data drift detected"))
      (field "drifted_features" (Value.arr (texts found)) end))

-- `save_retrain_signal`: the new file. A report of another shape raises, and the file stays.
unfoldable pub save_retrain_signal : JsonCodec → Fields → Result SignalFile
unfolding add_metrics written_signal iterate texts Json.get
save_retrain_signal json report = elim (iterate (get_default "metrics" (Value.arr nil) report)) [
  | err e ↦ err e
  | ok metrics ↦ elim (add_metrics metrics (false, [])) [
    | err e ↦ err e
    | ok drift ↦ ok (content (json.dumps (Value.obj (written_signal drift))))
  ]
]
