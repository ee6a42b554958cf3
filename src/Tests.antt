-- ===== src/Tests.antt =====
-- Concrete inputs for the theorems: a table, an outside, an executor, tools and services.
mod Store
mod Cluster
mod Scores
pub mod Applications
mod Agents
mod Searches
mod Locks
mod Models
mod Selection
mod Promotions
use credit_scoring_mlops.Prelude.{
  ℕ, zero, suc, ◌+◌, String, ◌<>◌, ◌≡◌, refl, Bool, true, false, Option, none, some, List, [], ◌∷◌,
}
use credit_scoring_mlops.Prelude.Int.{pos}
use credit_scoring_mlops.Prelude.Text.{codes}
use credit_scoring_mlops.Json.{Fields, end}
use credit_scoring_mlops.Schemas.{
  aware, ApprovalStatus, pending, approved, executing, unknown, completed, ApprovalDecision,
}
use credit_scoring_mlops.ApprovalStore.Rows.{Row, Table}
use credit_scoring_mlops.World.{External, World, Command, Outcome, exited, get_job, apply_manifest}
use credit_scoring_mlops.KubernetesExecutor.{Executor}
use credit_scoring_mlops.AgentApi.{ApprovalCreateRequest}

abbrev pub row : String → ApprovalStatus → Row
row k s = record {
  id = 1;
  approval_id = k;
  trace_id = "t1";
  action = "create_training_job";
  reason = "drift";
  requested_at = aware 100;
  status = s;
  execution_plan = end;
  decided_at = some (aware 200);
  decided_by = some "alice";
  decision_comment = none;
  execution_started_at = none;
  execution_result = none;
}

abbrev pub running : Row
running = record (row "a1" executing) { execution_started_at = some (aware 300) }

abbrev pub lost : Row
lost = record running { status = unknown; execution_result = some end }

abbrev pub done : Row
done = record running { status = completed; execution_result = some end }

abbrev pub table : Table
table = row "a1" approved ∷ []

abbrev pub letters : ℕ → String
letters zero = "a"
letters (suc n) = "a" <> letters n

abbrev pub answer : List Command → Command → Outcome
answer cs (get_job name) = exited (pos 1) ""
answer cs (apply_manifest text) = exited (pos 0) "job created"

abbrev pub manifest : List ℕ
manifest = codes "metadata:\n  name: credit-model-training\nspec: {}\n"

abbrev pub outside : External
outside = record {
  kubectl = answer;
  now = λ n. n + 1000;
  uuid4 = letters;
  normalise = λ d. d;
  json_loads = λ s. none;
  isoformat = λ t. "2026-01-01T00:00:00+00:00";
  message = λ e. "error";
  manifest = some manifest;
}

abbrev pub executor : Executor
executor = record { manifest_path = "k8s/job.yaml"; namespace = "ai-engineering" }

abbrev pub world : Table → World
world t = record {
  approvals = t;
  next_approval = 2;
  audit = [];
  next_event = 1;
  commands = [];
  readings = 0;
  metrics = [];
}

abbrev pub asked : ApprovalCreateRequest
asked = record {
  action = "create_training_job";
  reason = "drift";
  execution_plan = end;
  trace_id = none;
}

abbrev pub decision : String → ApprovalDecision
decision k = record {
  approval_id = k;
  approved = true;
  decided_at = aware 2000;
  decided_by = "alice";
  comment = none;
}
