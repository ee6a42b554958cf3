-- ===== src/World.antt =====
-- What the control plane shares: the two tables, the calls of kubectl made so far, and the Prometheus
-- counters; and what it takes from outside: kubectl, the clock, uuid4 and the JSON library.
pub mod Effects
pub mod Rules
pub mod Quiet
use credit_scoring_mlops.Prelude.{
  ℕ, suc, ◌+◌, String, Bool, true, false, Option, none, some, List, [], ◌∷◌, ◌++◌, ◌≡◌, refl,
  length,
}
use credit_scoring_mlops.Prelude.Int.{ℤ}
use credit_scoring_mlops.Json.{Value, Fields}
use credit_scoring_mlops.Exec.{Error, Result, ok, err, Exec}
use credit_scoring_mlops.Schemas.{DateTime}
use credit_scoring_mlops.ApprovalStore.Rows.{Table}
use credit_scoring_mlops.AuditStore.{AuditLog}

-- `kubectl apply -f - --namespace ai-engineering` with the manifest as its input, and
-- `kubectl get job NAME --namespace ai-engineering -o json`.
pub data Command : Type 0 where
  apply_manifest : List ℕ → Command
  get_job : String → Command

-- What `subprocess.run` gives back: the process's end, `TimeoutExpired`, or `FileNotFoundError`.
pub data Outcome : Type 0 where
  exited : ℤ → String → Outcome
  timeout_expired : Outcome
  executable_not_found : Outcome

-- The outside. A call's outcome may depend on all calls before it; the clock and uuid4 on how often
-- they were read; nothing more is assumed of them.
pub record External : Type 0 where
  -- the result of a command after the commands before it
  pub kubectl : List Command → Command → Outcome
  -- `datetime.now(timezone.utc)` and `str(uuid4())` at their n-th reading
  pub now : ℕ → ℕ
  pub uuid4 : ℕ → String
  -- `json.loads(json.dumps(d, default=str))`
  pub normalise : Fields → Fields
  -- `json.loads(text)`; `none` is a JSONDecodeError
  pub json_loads : String → Option Value
  pub isoformat : DateTime → String
  -- `str(exc)`
  pub message : Error → String
  -- the training manifest's text, if the file exists
  pub manifest : Option (List ℕ)

-- One increment or observation of a Prometheus metric, with its labels.
pub record Metric : Type 0 where
  pub name : String
  pub labels : List String

pub record World : Type 0 where
  pub approvals : Table
  pub next_approval : ℕ
  pub audit : AuditLog
  pub next_event : ℕ
  pub commands : List Command
  pub readings : ℕ
  pub metrics : List Metric

abbrev pub App : Type 0 → Type 0
App A = Exec World A

-- A method of one of the stores, in the world.
abbrev pub on_approvals : {A : Type 0} → Exec Table A → App A
on_approvals m w = let (r, t) = m w.approvals in (r, record w { approvals = t })

abbrev pub on_audit : {A : Type 0} → Exec AuditLog A → App A
on_audit m w = let (r, log) = m w.audit in (r, record w { audit = log })

-- `try` around an action: how it ended, whatever that is
abbrev pub attempt : {A : Type 0} → App A → App (Result A)
attempt m w = let (r, w') = m w in (ok r, w')

-- `COUNTER.labels(..).inc()` and `HISTOGRAM.labels(..).observe(..)`
abbrev pub inc : String → List String → App (Unit {0})
inc name labels w =
    (ok tt, record w { metrics = w.metrics ++ record { name = name; labels = labels } ∷ [] })

module _ (ext : External) where
  abbrev pub read_clock : App ℕ
  read_clock w = (ok (ext.now w.readings), record w { readings = suc w.readings })

  abbrev pub new_uuid : App String
  new_uuid w = (ok (ext.uuid4 w.readings), record w { readings = suc w.readings })

  -- `subprocess.run`
  abbrev pub run_command : Command → App Outcome
  run_command c w = (ok (ext.kubectl w.commands c), record w { commands = w.commands ++ c ∷ [] })
