-- ===== src/KubernetesExecutor.antt =====
-- ai_engineering/tools/kubernetes_executor.py: `KubernetesExecutor`, the only code that calls kubectl.
pub mod Manifest
pub mod Names
pub mod Safety
use credit_scoring_mlops.Prelude.{
  String, ◌<>◌, Bool, true, false, not, ◌||◌, Option, none, some, List, ltb, ◌==◌, string_eq,
  if◌then◌else◌,
}
use credit_scoring_mlops.Prelude.Int.{ℤ, pos, negsuc, ltb_ℤ}
use credit_scoring_mlops.Prelude.Text.{strip}
use credit_scoring_mlops.Json
use credit_scoring_mlops.Json.{Value, Fields, end, field, truthy, float_is_positive}
use credit_scoring_mlops.Exec.{
  Error, value_error, permission_error, file_not_found, execution_unknown, type_error, other,
  Result, ok, err, pure, raise, raise_if, or_raise, lift, ◌>>=◌, ◌>>◌,
}
use credit_scoring_mlops.World.{
  External, App, World, Command, apply_manifest, get_job, Outcome, exited, timeout_expired,
  executable_not_found, run_command,
}
use Names.{job_name, validate_job_name}
use Manifest.{render_manifest}

-- The object's fields.
pub record Executor : Type 0 where
  pub manifest_path : String
  pub namespace : String

abbrev pub text : String → Value
text s = Value.str s

-- `{"executed": False, "action": "create_training_job", "reason": reason}`
unfoldable pub not_executed : String → Fields
not_executed reason =
    field "executed" (Value.bool false)
      (field "action" (text "create_training_job") (field "reason" (text reason) end))

unfoldable pub executed : Executor → String → String → String → Fields
executed x job_name execution_id stdout = field "executed" (Value.bool true) (
    field "action" (text "create_training_job") (
      field "namespace" (text "ai-engineering") (
        field "job_name" (text job_name) (
          field "manifest_path" (text x.manifest_path) (
            field "execution_id" (text execution_id) (field "stdout" (text (strip stdout)) end))))))

unfoldable pub is_zero : ℤ → Bool
is_zero (pos n) = not (ltb 0 n)
is_zero (negsuc n) = false

-- The result of `subprocess.run(.., check=True)` in `apply_training_job`
applied : Executor → String → String → Outcome → App Fields
unfolding not_executed executed is_zero
applied x name execution_id (exited code stdout) =
    if is_zero code
    then pure (executed x name execution_id stdout)
    else pure (not_executed "kubectl command failed")
applied x name execution_id timeout_expired =
    raise (execution_unknown "kubectl timed out; execution outcome is unknown")
applied x name execution_id executable_not_found =
    pure (not_executed "kubectl is not installed or not available on PATH")

-- `not execution_id`
missing : Option String → Bool
missing none = true
missing (some k) = k == ""

given : Option String → String
given none = ""
given (some k) = k

-- `status.get("failed", 0) > 0`
failures : Option Value → Result Bool
failures none = ok false
failures (some (Value.int n)) = ok (ltb_ℤ (pos 0) n)
failures (some (Value.bool b)) = ok b
failures (some (Value.float r)) = ok (float_is_positive r)
failures (some _) = err (type_error "'>' not supported")

abbrev no_get : Error
no_get = other "AttributeError: no attribute 'get'"

-- `data.get("status", {})`, of which `get` is called next
job_status : Value → Result Fields
unfolding Json.get
job_status (Value.obj d) = elim (Json.get "status" d) [
  | none ↦ ok end
  | some (Value.obj s) ↦ ok s
  | some _ ↦ err no_get
]
job_status _ = err no_get

-- `status.get("completionTime")`, as a condition
completed_at : Option Value → Bool
unfolding truthy
completed_at none = false
completed_at (some v) = truthy v

job_state : Fields → Result String
unfolding Json.get failures completed_at
job_state status =
    if completed_at (Json.get "completionTime" status)
    then ok "completed"
    else elim (failures (Json.get "failed" status)) [
      | ok failed ↦ ok (if failed then "failed" else "running")
      | err e ↦ err e
    ]

-- `{"exists": True, "status": state, "job": data}`
found_job : Value → String → Fields
found_job job state =
    field "exists" (Value.bool true) (field "status" (text state) (field "job" job end))

absent_job : Fields
absent_job = field "exists" (Value.bool false) (field "status" (text "absent") end)

module _ (ext : External) (x : Executor) where
  -- `apply_training_job`
  unfoldable pub apply_training_job : Bool → Option String → App Fields
  unfolding applied missing given not_executed
  apply_training_job approved execution_id =
      if not approved then pure (not_executed "Human approval is required") else do
        raise_if (not (x.namespace == "ai-engineering"))
            (permission_error "Training execution is restricted to ai-engineering namespace")
        raise_if (missing execution_id)
            (value_error "execution_id is required for approved training execution")
        manifest ←
            or_raise ext.manifest
              (file_not_found ("Training manifest not found: " <> x.manifest_path))
        name ← lift (job_name (given execution_id))
        rendered ← lift (render_manifest name manifest)
        outcome ← run_command ext (apply_manifest rendered)
        applied x name (given execution_id) outcome

  -- The result of `subprocess.run(.., check=False)` in `get_training_job_status`
  observed : Outcome → App Fields
  unfolding is_zero absent_job found_job job_status job_state failures
  observed (exited code stdout) = if not (is_zero code) then pure absent_job else do
    job ← or_raise (ext.json_loads stdout) (value_error "JSONDecodeError")
    status ← lift (job_status job)
    state ← lift (job_state status)
    pure (found_job job state)
  observed timeout_expired = raise (execution_unknown "kubectl status check timed out")
  observed executable_not_found = pure (
      field "exists" (Value.bool false)
        (field "status" (text "unknown") (field "error" (text "kubectl is not available") end)))

  -- `get_training_job_status`
  unfoldable pub get_training_job_status : String → App Fields
  unfolding observed
  get_training_job_status name = do
    raise_if (not (x.namespace == "ai-engineering"))
        (permission_error "Training reconciliation is restricted to ai-engineering namespace")
    lift (validate_job_name name)
    outcome ← run_command ext (get_job name)
    observed outcome
