-- ===== src/Monitoring/Signal.antt =====
-- src/monitoring/drift_report.py and its readers: what the signal's file tells the tools, the agent and the
-- gauge.
use credit_scoring_mlops.Prelude.{
  String, ◌≡◌, ◌↔◌, inl, inr, refl, Bool, Bool-cases, true, false, Option, some, List, [], arith,
  if◌then◌else◌, string_eq,
}
use credit_scoring_mlops.Json
use credit_scoring_mlops.Json.{JsonCodec, Value, Fields, Items, flag, truthy}
use credit_scoring_mlops.Json.Access.{texts, iterate, get_default}
use credit_scoring_mlops.Exec.{ok}
use credit_scoring_mlops.Schemas.{AgentDecision, EngineeringEvent}
use credit_scoring_mlops.Monitoring.Report.{
  Metric, has_drifted, drifted_names, report_json, metrics_json, report-metrics, add_metrics-json,
}
use credit_scoring_mlops.Monitoring.{
  SignalFile, content, RetrainSignal, get_retrain_signal, parse_signal, available_signal,
  unavailable, retrain_required_metric, metric_of, investigate, decide_on, written_signal,
  save_retrain_signal, add_metrics, Drift,
}

-- A file that tells the tools to retrain.
abbrev Requires : JsonCodec → SignalFile → Type 0
Requires json file =
    (s : RetrainSignal) × ((get_retrain_signal json file ≡ ok s)
      × ((s.available ≡ true) × (s.retrain_required ≡ true)))

-- The signal of a report with that outcome, as the tool returns it.
abbrev reported : Drift → RetrainSignal
reported (drift, columns) = record {
  available = true;
  retrain_required = drift;
  reason = Value.str (if drift then "Data drift detected" else "No data drift detected");
  drifted_features = Value.arr (texts columns);
}

abbrev ParsedRequires : JsonCodec → String → Option Value → Type 0
ParsedRequires json text o =
    (s : RetrainSignal) × ((parse_signal json text o ≡ ok s)
      × ((s.available ≡ true) × (s.retrain_required ≡ true)))

metric_of_lem :
    (json : JsonCodec) (text : String) (o : Option Value)
    → (metric_of o ≡ 1) ↔ ParsedRequires json text o
unfolding metric_of parse_signal available_signal unavailable
metric_of_lem json text (some (Value.obj d)) = elim (Bool-cases (flag "retrain_required" d)) [
  | inl e ↦ rw e (λ h. (_, (refl, (refl, refl))), λ h. refl)
  | inr e ↦ rw e (λ h. absurd (omega (arith, h)), λ (s, (e', (a, r))). grind (arith, e, e', a, r))
]
metric_of_lem json text _ =
    (λ h. absurd (omega (arith, h)), λ (s, (e, (a, r))). grind (arith, e, a, r))

-- The scoring API's gauge is 1 exactly on the files of which the agents' tool says that the signal is
-- available and that retraining is required, whatever the file holds and however reading it fails.
pub metric_agrees :
    (json : JsonCodec) (file : SignalFile)
    → (retrain_required_metric json file ≡ 1) ↔ Requires json file
unfolding get_retrain_signal unavailable retrain_required_metric
metric_agrees json (content text) = metric_of_lem json text (json.loads text)
metric_agrees json _ = (λ h. absurd (omega (arith, h)), λ (s, (e, (a, r))). grind (arith, e, a, r))

saved :
    (json : JsonCodec) (report : Fields) (metrics : Items) (drift : Drift)
    → iterate (get_default "metrics" (Value.arr Items.nil) report) ≡ ok metrics
    → add_metrics metrics (false, []) ≡ ok drift
    → save_retrain_signal json report ≡ ok (content (json.dumps (Value.obj (written_signal drift))))
unfolding save_retrain_signal
saved json report metrics drift h h' = rw (save_retrain_signal, h, h') refl

read_back :
    (json : JsonCodec) (text : String) (drift : Drift)
    → json.loads text ≡ some (Value.obj (written_signal drift))
    → get_retrain_signal json (content text) ≡ ok (reported drift)
unfolding get_retrain_signal parse_signal available_signal written_signal flag Json.get truthy
    string_eq
read_back json text drift h = rw h refl

decide_on-drift :
    (event : EngineeringEvent) (drift : Bool) (columns : List String)
    → let decision = decide_on event (reported (drift, columns)) in
      (decision.action ≡ (if drift then "propose_retraining" else "no_action"))
      × ((decision.requires_human_approval ≡ drift)
          × (Json.get "drifted_features" decision.parameters ≡ some (Value.arr (texts columns))))
unfolding decide_on Json.get string_eq
decide_on-drift event true columns = (refl, (refl, refl))
decide_on-drift event false columns = (refl, (refl, refl))

pub saved_drift_investigated :
    (json : JsonCodec) (report : List Metric) (event : EngineeringEvent)
    → let drift = has_drifted false report in
      let columns = drifted_names report in
      json.loads (json.dumps (Value.obj (written_signal (drift, columns))))
        ≡ some (Value.obj (written_signal (drift, columns)))
      → (file : SignalFile) × ((save_retrain_signal json (report_json report) ≡ ok file)
          × ((decision : AgentDecision) × ((investigate json file event ≡ ok decision)
                × ((decision.action ≡ (if drift then "propose_retraining" else "no_action"))
                    × ((decision.requires_human_approval ≡ drift)
                        × (Json.get "drifted_features" decision.parameters
                            ≡ some (Value.arr (texts columns))))))))
unfolding investigate Json.get texts
saved_drift_investigated json report event round =
    let drift = has_drifted false report in
    let columns = drifted_names report in
    let text = json.dumps (Value.obj (written_signal (drift, columns))) in
    let back = read_back json text (drift, columns) round in
    (
      content text,
      (
        saved json (report_json report) (metrics_json report) (drift, columns)
            (report-metrics report) (add_metrics-json report false []),
        rw (investigate, back) (_, (refl, decide_on-drift event drift columns)),
      ),
    )
