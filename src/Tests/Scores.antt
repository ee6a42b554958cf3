-- ===== src/Tests/Scores.antt =====
-- The theorems on scores, the Kafka consumer, tools, conversations, the audit log and access, applied to
-- concrete inputs. Floats are whole percents there.
use credit_scoring_mlops.Prelude.{
  ℕ, ◌≤◌, String, ◌≡◌, refl, ◌≢◌, ◌⊎◌, ◌↔◌, Bool, true, false, ◌&&◌, none, some, [], ◌∷◌, arith,
  All, count_if, string_eq, nat_eq, ap, ◌==◌,
}
use credit_scoring_mlops.Prelude.Int.{ℤ}
use credit_scoring_mlops.Prelude.Sorting.{IsSorted}
use credit_scoring_mlops.Prelude.Text.{strip}
use credit_scoring_mlops.Json.{Value, end, field}
use credit_scoring_mlops.Exec.{Error, ok, err, pure}
use credit_scoring_mlops.Schemas.{aware, agent_requested}
use credit_scoring_mlops.AuditStore.{AuditRow, AuditLog}
use credit_scoring_mlops.AuditStore.Queries.{select_rows, has_trace, has_type, trace-exact, Earlier}
use credit_scoring_mlops.World.Effects.{IsReading, IsReading-pure}
use credit_scoring_mlops.Scoring.{
  probability_to_score, get_risk_level, get_decision, probability_to_score-Bounds, decision-agrees,
  Clamped,
}
use credit_scoring_mlops.ScoringConsumer.{State, Services, Message, process_message}
use credit_scoring_mlops.ScoringConsumer.Commits.{Commits, process_message-Commits}
use credit_scoring_mlops.Tools.{RegisteredTool, register, register_all}
use credit_scoring_mlops.ToolCalling.{run_agent}
use credit_scoring_mlops.ToolCalling.Messages.{Provider}
use credit_scoring_mlops.ToolCalling.Safety.{run_agent-IsReading}
use credit_scoring_mlops.Security.{require, after_prefix, is_ascii, require_exact}
use credit_scoring_mlops.Tests.Applications.{percents, model, database}
use credit_scoring_mlops.Tests.{outside}

probability_to_score-Bounds_example :
    ((e : Error) × (percents.scaled 550 40 ≡ err e) × (probability_to_score percents 40 ≡ err e))
    ⊎ ((n score : ℤ) × (percents.scaled 550 40 ≡ ok n)
        × (probability_to_score percents 40 ≡ ok score)
        × Clamped percents n score)
probability_to_score-Bounds_example = probability_to_score-Bounds percents 40

percents_grow :
    (p a b : ℕ)
    → a ≤ b
    → percents.less p (percents.percent a) ≡ true
    → percents.less p (percents.percent b) ≡ true
percents_grow p a b h = ground arith

decision-agrees_example :
    ((get_decision percents 40 ≡ "approved")
      × ((get_risk_level percents 40 ≡ "low") ⊎ (get_risk_level percents 40 ≡ "medium")))
    ⊎ ((get_decision percents 40 ≡ "manual_review")
        × ((get_risk_level percents 40 ≡ "medium") ⊎ (get_risk_level percents 40 ≡ "high")))
    ⊎ ((get_decision percents 40 ≡ "rejected")
        × ((get_risk_level percents 40 ≡ "high") ⊎ (get_risk_level percents 40 ≡ "very_high")))
decision-agrees_example = decision-agrees percents 40 (percents_grow 40)

abbrev services : Services percents
services = record {
  model = model;
  db = database;
  now = λ st. "2026-01-01T00:00:00+00:00";
  produce = λ st r. ok tt;
  commit = λ st o. ok tt;
}

abbrev idle : State percents
idle = record {
  logs = [];
  produced = [];
  committed = [];
  requests = 0;
  errors = 0;
  received = 0;
  invalid = 0;
}

abbrev application : Message percents
application = record {
  offset = 7;
  payload = ok (Value.obj (field "application_id" (Value.str "x1") end));
}

process_message-Commits_example :
    Commits percents services 7 idle (process_message percents services application idle).1
process_message-Commits_example = process_message-Commits percents services application idle

abbrev status_tool : RegisteredTool
status_tool = record {
  name = "get_status";
  description = "Read the status";
  parameters = end;
  handler = λ d. pure (Value.obj end);
  requires_human_approval = false;
}

register_status : register_all (status_tool ∷ []) [] ≡ ok (status_tool ∷ [])
unfolding register_all register string_eq strip nat_eq
register_status = refl

abbrev provider : Provider
provider = record {
  is_installed = true;
  complete = λ w messages tools. ok (record {
    content = none;
    tool_calls = record { id = "c1"; name = "get_status"; arguments = none } ∷ [];
  });
  dumps = λ v. "{}";
  decode_message = λ s. "Expecting value";
  type_name = λ e. "Exception";
  text_contains = λ a b. false;
}

run_agent-IsReading_example :
    IsReading outside (run_agent outside provider (status_tool ∷ []) 4 "Check the cluster")
run_agent-IsReading_example =
    run_agent-IsReading outside provider (status_tool ∷ []) 4 "Check the cluster"
      (λ h d. IsReading-pure outside (Value.obj end), tt)

abbrev logged : String → ℕ → AuditRow
logged k n = record {
  id = n;
  event = record {
    event_id = k;
    event_type = agent_requested;
    occurred_at = aware n;
    trace_id = "t1";
    actor = "ai-engineering-agent";
    action = none;
    tool_name = none;
    status = none;
    payload = end;
    error = none;
  };
}

abbrev events : AuditLog
events = logged "e2" 2 ∷ logged "e1" 1 ∷ []

trace-exact_example :
    let rows = select_rows (some "t1") none none events in
    let wanted = λ (r : AuditRow). has_trace (some "t1") r && has_type none r in
    All (λ r. wanted r ≡ true) rows
    × IsSorted Earlier rows
    × ((q : AuditRow → Bool) → count_if q rows ≡ count_if (λ r. q r && wanted r) events)
trace-exact_example = trace-exact "t1" none events

differ : (Bool.true ≡ Bool.false) → ⊥
differ h = ground arith

secret_set : ◌≢◌ {A = String} "secret" ""
unfolding string_eq
secret_set = λ e. differ (ap (λ (s : String). "secret" == s) e)

require_exact_example : (require (some "secret") (some "Bearer secret") ≡ ok tt) ↔ (
    (h : String) × (rest : String) × (some "Bearer secret" ≡ some h)
    × (after_prefix "Bearer " h ≡ some rest)
    × (strip rest ≡ "secret")
    × (is_ascii "secret" ≡ true))
require_exact_example = require_exact "secret" (some "Bearer secret") secret_set
