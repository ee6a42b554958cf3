-- ===== src/World/Rules.antt =====
-- The rules of World/Effects for the calls that the services make: the store, the audit log, the clock
-- and kubectl.
use credit_scoring_mlops.Prelude.{ℕ, String, refl, Bool, Option, none, List, [], ◌∷◌}
use credit_scoring_mlops.Json.{Fields}
use credit_scoring_mlops.Exec.{Result}
use credit_scoring_mlops.Schemas.{AuditEventType, ApprovalDecision}
use credit_scoring_mlops.ApprovalStore
use credit_scoring_mlops.ApprovalStore.Lifecycle.{Op, apply, run}
use credit_scoring_mlops.World.{External, on_approvals, inc, read_clock, new_uuid}
use credit_scoring_mlops.World.Effects.{IsRun, IsReading, IsRun-quiet, IsReading-quiet}
use credit_scoring_mlops.AuditService.{Entry, record_event, record_event-OnlyAudits}
use credit_scoring_mlops.KubernetesExecutor.{Executor, apply_training_job, get_training_job_status}
use credit_scoring_mlops.KubernetesExecutor.Safety.{
  get_training_job_status-approvals, apply_training_job-approvals,
}

module _ (ext : External) where
  pub IsRun-record :
      (kind : AuditEventType) (k : String) (e : Entry) → IsRun ext (record_event ext kind k e)
  IsRun-record kind k e =
      IsRun-quiet ext (record_event ext kind k e)
        (λ w. (record_event-OnlyAudits ext kind k e w).approvals)

  pub IsReading-record :
      (kind : AuditEventType) (k : String) (e : Entry) → IsReading ext (record_event ext kind k e)
  IsReading-record kind k e =
      IsReading-quiet ext (record_event ext kind k e)
        (λ w. (record_event-OnlyAudits ext kind k e w).commands)

  pub IsRun-clock : IsRun ext (read_clock ext)
  IsRun-clock = IsRun-quiet ext (read_clock ext) (λ w. refl)

  pub IsRun-uuid : IsRun ext (new_uuid ext)
  IsRun-uuid = IsRun-quiet ext (new_uuid ext) (λ w. refl)

  pub IsRun-inc : (name : String) (labels : List String) → IsRun ext (inc name labels)
  IsRun-inc name labels = IsRun-quiet ext (inc name labels) (λ w. refl)

  pub IsReading-clock : IsReading ext (read_clock ext)
  IsReading-clock = IsReading-quiet ext (read_clock ext) (λ w. refl)

  pub IsReading-uuid : IsReading ext (new_uuid ext)
  IsReading-uuid = IsReading-quiet ext (new_uuid ext) (λ w. refl)

  pub IsReading-inc : (name : String) (labels : List String) → IsReading ext (inc name labels)
  IsReading-inc name labels = IsReading-quiet ext (inc name labels) (λ w. refl)

  -- A method of the store runs no command.
  pub IsReading-store : {A : Type 0} (m : _ → Result A × _) → IsReading ext (on_approvals m)
  IsReading-store m = IsReading-quiet ext (on_approvals m) (λ w. refl)

  -- One call of the store is a run of one call.
  module _ (k : String) where
    pub IsRun-claim :
        (now : ℕ) → IsRun ext (on_approvals (ApprovalStore.claim_execution now k none))
    unfolding run apply
    IsRun-claim now = record { at = λ w. (Op.claim_execution now k ∷ [], refl) }

    pub IsRun-claim_retry :
        (now : ℕ) → IsRun ext (on_approvals (ApprovalStore.claim_retry_execution now k none))
    unfolding run apply
    IsRun-claim_retry now = record { at = λ w. (Op.claim_retry_execution now k ∷ [], refl) }

    pub IsRun-unknown :
        (d : Fields) → IsRun ext (on_approvals (ApprovalStore.mark_unknown ext.normalise k d none))
    unfolding run apply
    IsRun-unknown d = record { at = λ w. (Op.mark_unknown k d ∷ [], refl) }

    pub IsRun-completed :
        (d : Fields)
        → IsRun ext (on_approvals (ApprovalStore.mark_completed ext.normalise k d none))
    unfolding run apply
    IsRun-completed d = record { at = λ w. (Op.mark_completed k d ∷ [], refl) }

    pub IsRun-failed :
        (d : Fields) → IsRun ext (on_approvals (ApprovalStore.mark_failed ext.normalise k d none))
    unfolding run apply
    IsRun-failed d = record { at = λ w. (Op.mark_failed k d ∷ [], refl) }

    pub IsRun-recover :
        (now lease : ℕ)
        → IsRun ext
            (on_approvals (ApprovalStore.recover_stale_execution ext.isoformat now k lease none))
    unfolding run apply
    IsRun-recover now lease = record {
      at = λ w. (Op.recover_stale_execution now k lease ∷ [], refl);
    }

  pub IsRun-decide : (d : ApprovalDecision) → IsRun ext (on_approvals (ApprovalStore.decide d none))
  unfolding run apply
  IsRun-decide d = record { at = λ w. (Op.decide d ∷ [], refl) }

  module _ (x : Executor) where
    pub IsRun-apply_job : (b : Bool) (k : Option String) → IsRun ext (apply_training_job ext x b k)
    IsRun-apply_job b k =
        IsRun-quiet ext (apply_training_job ext x b k) (apply_training_job-approvals ext x b k)

    pub IsRun-job_status : (name : String) → IsRun ext (get_training_job_status ext x name)
    IsRun-job_status name =
        IsRun-quiet ext (get_training_job_status ext x name)
          (get_training_job_status-approvals ext x name)
