-- ===== src/AgentApi/Execution.antt =====
-- ai_engineering/api/agent_service.py: when `execute_approval` creates a Job.
use credit_scoring_mlops.Prelude.{
  String, ◌≡◌, ◌⊎◌, inl, inr, true, Option, some, List, arith, ◌∙◌, subst,
}
use credit_scoring_mlops.Json.{Fields}
use credit_scoring_mlops.Exec.{Error, Result, ok, err}
use credit_scoring_mlops.Schemas.{ApprovalRequest, AuditEventType, approved}
use credit_scoring_mlops.ApprovalStore
use credit_scoring_mlops.ApprovalStore.Claims.{status_at}
use credit_scoring_mlops.World.{External, World, Command}
use credit_scoring_mlops.AuditService.{record_event-OnlyAudits}
use credit_scoring_mlops.KubernetesExecutor.{Executor, apply_training_job}
use credit_scoring_mlops.KubernetesExecutor.Safety.{apply_training_job-Runs}
use credit_scoring_mlops.Reconciliation.Retry.{Applies, Runs-Applies}
use credit_scoring_mlops.AgentApi.{
  log, settle, settle_completed, settle_failed, run_claimed, launch, get_approval, execute_approval,
}

module _ (ext : External) (x : Executor) where
  log-commands :
      (a : ApprovalRequest) (kind : AuditEventType) (s : String) (e : Option String) (d : Fields)
      (w : World)
      → (log ext x a kind s e d w).1.commands ≡ w.commands
  unfolding log
  log-commands a kind s e d w = grind (arith, record_event-OnlyAudits)

  settle-commands :
      (k : String) (a : ApprovalRequest) (r : Result Fields) (w : World)
      → (settle ext x k a r w).1.commands ≡ w.commands
  unfolding settle settle_completed settle_failed
  settle-commands k a (ok d) w = grind (arith, log-commands)
  settle-commands k a (err (Error.execution_unknown m)) w = grind (arith, log-commands)
  settle-commands k a (err e) w = grind (arith, log-commands)

  launch-Applies :
      (k : String) (a : ApprovalRequest) (w : World)
      → Applies w.commands (launch ext x k a w).1.commands
  unfolding launch
  launch-Applies k a w =
      let (r, w') = apply_training_job ext x true (some k) w in
      let same = settle-commands k a r w' in
      elim (Runs-Applies ext x (apply_training_job-Runs ext x true (some k) w)) [
        | inl e ↦ inl (same ∙ e)
        | inr (rendered, e) ↦ inr (rendered, same ∙ e)
      ]

  launch-Applies_from :
      (k : String) (a : ApprovalRequest) (cs : List Command) (v : World)
      → v.commands ≡ cs
      → Applies cs (launch ext x k a v).1.commands
  launch-Applies_from k a cs v e =
      subst (λ ds. Applies ds (launch ext x k a v).1.commands) e (launch-Applies k a v)

  -- The events before the launch run no command, and one that fails ends the request.
  run_claimed-Applies :
      (k : String) (a : ApprovalRequest) (w : World)
      → Applies w.commands (run_claimed ext x k a w).1.commands
  unfolding run_claimed
  run_claimed-Applies k a w = grind (
    arith,
    log-commands,
    λ (b : ApprovalRequest) (v : World). launch-Applies_from k b w.commands v,
  )

  run_claimed-Applies_from :
      (k : String) (a : ApprovalRequest) (cs : List Command) (v : World)
      → v.commands ≡ cs
      → Applies cs (run_claimed ext x k a v).1.commands
  run_claimed-Applies_from k a cs v e =
      subst (λ ds. Applies ds (run_claimed ext x k a v).1.commands) e (run_claimed-Applies k a v)

  -- `execute_approval` runs no command, or creates at most one Job, and that only for an approval that was
  -- approved.
  pub execute_approval-Applies :
      (k : String) (w : World)
      → let w' = (execute_approval ext x k w).1 in
        (w'.commands ≡ w.commands)
        ⊎ ((status_at k w.approvals ≡ some approved) × Applies w.commands w'.commands)
  unfolding execute_approval get_approval ApprovalStore.get ApprovalStore.claim_execution
      ApprovalStore.to_schema
  execute_approval-Applies k w =
      grind (arith, λ (b : ApprovalRequest) (v : World). run_claimed-Applies_from k b w.commands v)
