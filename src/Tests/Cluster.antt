-- ===== src/Tests/Cluster.antt =====
-- The theorems on requests, reconciliation, the executor, tools and access, applied to concrete inputs.
use native.Mathlib.Decide.{dec_le}
use credit_scoring_mlops.Prelude.{
  ℕ, ◌≤◌, ◌≡◌, ◌↔◌, refl, ◌⊎◌, inl, inr, Bool, true, false, some, List, [], ◌∷◌, arith, is_some,
  length, string_eq, nat_eq,
}
use credit_scoring_mlops.Prelude.Text.{codes, strip, lower, is_space, strip_prefix}
use credit_scoring_mlops.Json.{Value, end, field}
use credit_scoring_mlops.Exec.{Result, ok, err, other}
use credit_scoring_mlops.Schemas.{aware, failed, approved, unknown, ApprovalStatus-discrete}
use credit_scoring_mlops.ApprovalStore.Rows.{Row, Table, find, put}
use credit_scoring_mlops.ApprovalStore.Claims.{status_at}
use credit_scoring_mlops.World.{get_job}
use credit_scoring_mlops.KubernetesExecutor.{Executor, apply_training_job, get_training_job_status}
use credit_scoring_mlops.KubernetesExecutor.Names.{job_name, validate_job_name, job_name-valid}
use credit_scoring_mlops.KubernetesExecutor.Manifest.{
  render_manifest, render_manifest-Replaces, Replaces,
}
use credit_scoring_mlops.KubernetesExecutor.Safety.{
  Runs, apply_training_job-Runs, get_failed, SaysAbsent, absent_iff_get_failed,
}
use credit_scoring_mlops.Reconciliation.{retry_if_absent}
use credit_scoring_mlops.Reconciliation.Retry.{Applies, Retries, retry_if_absent-Retries}
use credit_scoring_mlops.ReconciliationWorker.{run_once, Ends, run_once-Processed}
use credit_scoring_mlops.AgentApi.{execute_approval, decide_approval, create_approval}
use credit_scoring_mlops.ApprovalService.{store_approval}
use credit_scoring_mlops.AuditService.{record_event}
use credit_scoring_mlops.AuditStore.{append}
use credit_scoring_mlops.ApprovalStore
use credit_scoring_mlops.AgentApi.Execution.{execute_approval-Applies}
use credit_scoring_mlops.AgentApi.Requests.{
  Request, serve, create, decide, execute, serve-started_was_decided, serve_terminal,
}
use credit_scoring_mlops.Tests.{
  row, lost, done, table, outside, executor, world, asked, decision, manifest,
}

abbrev older : Row → Row → Bool
older a b = true

abbrev requests : List Request
requests = create asked ∷ decide "a" (decision "a") ∷ execute "a" ∷ []

execute_approval-Applies_example :
    let w' = (execute_approval outside executor "a1" (world table)).1 in
    (w'.commands ≡ []) ⊎ ((status_at "a1" table ≡ some approved) × Applies [] w'.commands)
execute_approval-Applies_example = execute_approval-Applies outside executor "a1" (world table)

retry_if_absent-Retries_example :
    let w' = (retry_if_absent outside executor "a1" (world (lost ∷ []))).1 in
    (w'.commands ≡ [])
    ⊎ ((status_at "a1" (lost ∷ []) ≡ some unknown) × Retries outside executor "a1" [] w'.commands)
retry_if_absent-Retries_example = retry_if_absent-Retries outside executor "a1" (world (lost ∷ []))

-- A database that answers, unless there is nothing to read.
abbrev database : Table → Result (Unit {0})
database [] = err (other "OperationalError")
database rows = ok tt

run_once-Processed_example :
    Ends outside executor 300 older database 100 true
      (world (lost ∷ []))
      (run_once outside executor 300 older database 100 true (world (lost ∷ []))).0
run_once-Processed_example =
    run_once-Processed outside executor 300 older database 100 true (world (lost ∷ []))
      (omega arith)

apply_training_job-Runs_example :
    Runs outside executor true
      (some "a1")
      (world [])
      (apply_training_job outside executor true (some "a1") (world [])).1
apply_training_job-Runs_example =
    apply_training_job-Runs outside executor true (some "a1") (world [])

found_done : find "a1" (done ∷ []) ≡ some done
unfolding find string_eq
found_done = refl

serve_terminal_example :
    find "a1" (serve outside executor requests (world (done ∷ []))).approvals ≡ some done
serve_terminal_example =
    serve_terminal outside executor requests (world (done ∷ [])) "a1" done found_done
      (inr (inl refl))

a1_named : job_name "a1" ≡ ok "credit-training-a1"
unfolding job_name strip lower is_space dec_le
a1_named = refl

job_name-valid_example :
    (validate_job_name "credit-training-a1" ≡ ok tt) × (length (codes "credit-training-a1") ≤ 56)
job_name-valid_example = job_name-valid "a1" "credit-training-a1" a1_named

abbrev rendered : List ℕ
rendered = codes "metadata:\n  name: credit-training-a1\nspec: {}\n"

a1_rendered : render_manifest "credit-training-a1" manifest ≡ ok rendered
unfolding render_manifest strip_prefix is_space nat_eq
a1_rendered = refl

render_manifest-Replaces_example : Replaces (codes "credit-training-a1") manifest rendered
render_manifest-Replaces_example =
    render_manifest-Replaces "credit-training-a1" manifest rendered a1_rendered

absent_iff_get_failed_example :
    SaysAbsent outside executor
      (get_training_job_status outside executor "credit-training-a1" (world [])).0
    ↔ (get_failed (outside.kubectl [] (get_job "credit-training-a1")) ≡ true)
unfolding validate_job_name strip_prefix nat_eq
absent_iff_get_failed_example =
    absent_iff_get_failed outside executor "credit-training-a1" (world []) refl refl

abbrev misplaced : Executor
misplaced = record executor { namespace = "default" }

abbrev ran : Row
ran = record (row "a" failed) {
  id = 2;
  trace_id = "a";
  requested_at = aware 1001;
  decided_at = some (aware 2000);
  execution_started_at = some (aware 1006);
  execution_result =
      some (field "executed" (Value.bool false) (field "error" (Value.str "error") end));
}

a_found : find "a" (serve outside misplaced requests (world [])).approvals ≡ some ran
unfolding serve find put string_eq execute_approval ApprovalStore.get decide_approval
    ApprovalStore.decide create_approval store_approval ApprovalStore.create ApprovalStatus-discrete
    record_event append ApprovalStore.to_schema ApprovalStore.claim_execution apply_training_job
    ApprovalStore.mark_failed
a_found = refl

serve-started_was_decided_example :
    (is_some ran.decided_at ≡ true)
    × (is_some ran.decided_by ≡ true)
    × (is_some ran.execution_started_at ≡ true)
serve-started_was_decided_example =
    serve-started_was_decided outside misplaced requests (world []) "a" ran refl a_found refl
