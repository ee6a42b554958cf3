-- ===== src/Tests/Promotions.antt =====
-- The theorems on execution traces and on model promotion, applied to concrete inputs.
use credit_scoring_mlops.Prelude.{
  ℕ, ◌+◌, leb, ◌≢◌, ◌≡◌, refl, ◌⊎◌, Bool, true, false, none, some, List, [], ◌∷◌, string_eq,
}
use credit_scoring_mlops.Json
use credit_scoring_mlops.Json.{Fields, Value, end, field, is_true, says}
use credit_scoring_mlops.Exec.{Error, ok, err}
use credit_scoring_mlops.AuditService.{record_event}
use credit_scoring_mlops.AuditStore.{append}
use credit_scoring_mlops.ExecutionTrace.{
  Trace, Call, started, completed, tool_call, call, calls, closes, closed_calls, closing_is_last,
}
use credit_scoring_mlops.Promotion.{ModelVersion, MlflowClient, execute, execute_gate}
use credit_scoring_mlops.Reviewer.{Metrics, QualityGateConfig, review, review_gates}
use credit_scoring_mlops.Tests.{outside, world}

abbrev open_trace : Trace
open_trace = record { trace_id = "t1"; closed = false }

abbrev closed_trace : Trace
closed_trace = record { trace_id = "t1"; closed = true }

abbrev later_calls : List Call
later_calls = started "create_training_job" ∷ tool_call "get_status" end ∷ []

closed_calls_example : calls outside later_calls closed_trace (world []) ≡ (closed_trace, world [])
closed_calls_example = closed_calls outside later_calls closed_trace (world []) refl

end_returns : (call outside (completed "create_training_job" end) open_trace (world [])).0.0 ≡ ok tt
unfolding call record_event append
end_returns = refl

end_closes : closes (completed "create_training_job" end) ≡ true
unfolding closes
end_closes = refl

closing_is_last_example :
    let ((r, t), w) = call outside (completed "create_training_job" end) open_trace (world []) in
    (calls outside later_calls t w).1 ≡ w
closing_is_last_example =
    closing_is_last outside (completed "create_training_job" end) later_calls open_trace (world [])
      end_closes end_returns

abbrev client : MlflowClient
client = record {
  model_name = "CreditScoringCatBoost";
  model_alias = "champion";
  get_model_version = λ v. ok (record { version = v; run_id = "run" });
  get_by_alias = λ alias. err (Error.other "no champion");
  set_alias = λ alias v. ok tt;
  message = λ e. "error";
  quoted = λ s. s;
}

abbrev evaluation : Fields
evaluation = field "decision" (Value.str "PROMOTE") (field "approved" (Value.bool true) end)

execute_gate_example :
    let alias' = (execute client "7" evaluation true none).1 in
    (alias' ≡ none)
    ⊎ ((says "decision" "PROMOTE" evaluation ≡ true)
        × (is_true (Json.get "approved" evaluation) ≡ true)
        × (Bool.true ≡ true)
        × ((candidate : ModelVersion) × (client.get_model_version "7" ≡ ok candidate)
            × (alias' ≡ some candidate)))
execute_gate_example = execute_gate client "7" evaluation true none

abbrev at_least : ℕ → ℕ → Bool
at_least a b = leb b a

abbrev plus : ℕ → ℕ → ℕ
plus a b = a + b

abbrev gates : QualityGateConfig ℕ
gates = record {
  min_roc_auc = 80;
  min_recall = 60;
  min_precision = 50;
  min_roc_auc_improvement = 0;
}

abbrev champion : Metrics ℕ
champion = record { roc_auc = some 81; recall = some 62; precision = some 55 }

abbrev challenger : Metrics ℕ
challenger = record { roc_auc = some 84; recall = some 65; precision = some 57 }

review_gates_example :
    let r = review at_least plus gates champion challenger in
    ((r.approved ≡ true)
      × (r.decision ≡ "PROMOTE")
      × (r.failed_checks ≡ [])
      × ((auc : ℕ) × ((recall : ℕ) × ((precision : ℕ) × ((old : ℕ) × (challenger.roc_auc ≡ some auc)
                × (at_least auc 80 ≡ true)
                × (challenger.recall ≡ some recall)
                × (at_least recall 60 ≡ true)
                × (challenger.precision ≡ some precision)
                × (at_least precision 50 ≡ true)
                × (champion.roc_auc ≡ some old)
                × (at_least auc (plus old 0) ≡ true))))))
    ⊎ ((r.approved ≡ false) × (r.decision ≡ "REJECT") × (r.failed_checks ≢ []))
review_gates_example = review_gates at_least plus gates champion challenger
