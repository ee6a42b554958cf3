-- ===== src/Reconciliation/Retry.antt =====
-- ai_engineering/services/reconciliation_service.py: when `retry_if_absent` creates a Job again.
use credit_scoring_mlops.Prelude.{
  ℕ, String, ◌≡◌, refl, ◌⊎◌, inl, inr, Bool, true, false, Option, some, List, [], ◌∷◌, ◌++◌, arith,
  ◌∙◌, ap, subst,
}
use mathlib.Core.List.{append_assoc}
use credit_scoring_mlops.Json.{Fields, flag, says}
use credit_scoring_mlops.Exec.{Result, ok, err}
use credit_scoring_mlops.Schemas.{ApprovalRequest, AuditEventType, unknown}
use credit_scoring_mlops.ApprovalStore
use credit_scoring_mlops.ApprovalStore.Claims.{status_at}
use credit_scoring_mlops.World.{External, World, Command, get_job, apply_manifest}
use credit_scoring_mlops.AuditService.{OnlyAudits, record_event-OnlyAudits}
use credit_scoring_mlops.KubernetesExecutor.{Executor, apply_training_job, get_training_job_status}
use credit_scoring_mlops.KubernetesExecutor.Safety.{
  Runs, nothing, create_job, apply_training_job-Runs, get_training_job_status-reads, get_failed,
  absent_only_if_get_failed,
}
use credit_scoring_mlops.Reconciliation.{
  job_of, read_approval, log_of, mark_completed, mark_failed, mark_unknown, reread, settle_retry,
  recreate, adopt, retry_on, retry_with, retry_if_absent,
}

-- The commands after an action: as before, or one more that creates a Job.
abbrev pub Applies : List Command → List Command → Type 0
Applies cs cs' = (cs' ≡ cs) ⊎ ((rendered : List ℕ) × (cs' ≡ cs ++ apply_manifest rendered ∷ []))

module _ (ext : External) (x : Executor) where
  log_of-OnlyAudits :
      (a : ApprovalRequest) (kind : AuditEventType) (s : String) (d : Fields) (w : World)
      → OnlyAudits w (log_of ext x a kind s d w).1
  unfolding log_of
  log_of-OnlyAudits a kind s d w = grind (arith, record_event-OnlyAudits)

  settle_retry-commands :
      (k : String) (r : Result Fields) (w : World)
      → (settle_retry ext x k r w).1.commands ≡ w.commands
  unfolding settle_retry mark_completed mark_failed mark_unknown
  settle_retry-commands k (ok d) w = ground arith
  settle_retry-commands k (err e) w = ground arith

  pub Runs-Applies :
      {b : Bool} {k : Option String} {w w' : World}
      → Runs ext x b k w w'
      → Applies w.commands w'.commands
  Runs-Applies nothing = inl refl
  Runs-Applies (create_job id name manifest rendered _ _ _ _ _ _) = inr (rendered, refl)

  recreate-Applies : (k : String) (w : World) → Applies w.commands (recreate ext x k w).1.commands
  unfolding recreate
  recreate-Applies k w =
      let (r, w') = apply_training_job ext x true (some k) w in
      let same = settle_retry-commands k r w' in
      elim (Runs-Applies (apply_training_job-Runs ext x true (some k) w)) [
        | inl e ↦ inl (same ∙ e)
        | inr (rendered, e) ↦ inr (rendered, same ∙ e)
      ]

  -- Only an absent Job is created again.
  retry_on-Applies :
      (k : String) (a c : ApprovalRequest) (d : Fields) (w : World)
      → ((retry_on ext x k a c d w).1.commands ≡ w.commands)
        ⊎ ((flag "exists" d ≡ false)
            × (says "status" "absent" d ≡ true)
            × Applies w.commands (retry_on ext x k a c d w).1.commands)
  unfolding retry_on adopt mark_completed mark_failed mark_unknown reread
  retry_on-Applies k a c d w = grind (arith, log_of-OnlyAudits, recreate-Applies)

  -- The commands that `retry_if_absent` runs from its status check on: none, the check alone, or, after a
  -- check that failed, one that creates a Job.
  abbrev pub Retries : String → List Command → List Command → Type 0
  Retries k cs cs' =
      (cs' ≡ cs)
      ⊎ (cs' ≡ cs ++ get_job (job_of k) ∷ [])
      ⊎ ((get_failed (ext.kubectl cs (get_job (job_of k))) ≡ true)
          × ((rendered : List ℕ) × (cs' ≡ cs ++ get_job (job_of k) ∷ apply_manifest rendered ∷ [])))

  reads_commands :
      (k : String) (w : World)
      → let w' = (get_training_job_status ext x (job_of k) w).1 in
        (w'.commands ≡ w.commands) ⊎ (w'.commands ≡ w.commands ++ get_job (job_of k) ∷ [])
  reads_commands k w = elim (get_training_job_status-reads ext x (job_of k) w) [
    | inl e ↦ inl (ap (λ v. v.commands) e)
    | inr e ↦ inr (ap (λ v. v.commands) e)
  ]

  retry_with-Retries :
      (k : String) (a c : ApprovalRequest) (w : World) (r : Result Fields)
      → (get_training_job_status ext x (job_of k) w).0 ≡ r
      → Retries k w.commands
          (retry_with ext x k a c r (get_training_job_status ext x (job_of k) w).1).1.commands
  unfolding retry_with mark_unknown
  retry_with-Retries k a c w (err e) h = elim (reads_commands k w) [
    | inl same ↦ inl same
    | inr one ↦ inr (inl one)
  ]
  retry_with-Retries k a c w (ok d) h =
      let w' = (get_training_job_status ext x (job_of k) w).1 in
      elim (retry_on-Applies k a c d w') [
        | inl same ↦ elim (reads_commands k w) [
          | inl e ↦ inl (same ∙ e)
          | inr e ↦ inr (inl (same ∙ e))
        ]
        | inr (gone, absent, applies) ↦
            let (failed, e) = absent_only_if_get_failed ext x (job_of k) w d h gone absent in
            let one = ap (λ v. v.commands) e in
            elim applies [
              | inl same ↦ inr (inl (same ∙ one))
              | inr (rendered, more) ↦ inr (
                  inr (
                    failed,
                    (
                      rendered,
                      more
                          ∙ ap (λ cs. cs ++ apply_manifest rendered ∷ []) one
                          ∙ append_assoc w.commands (get_job (job_of k) ∷ [])
                              (apply_manifest rendered ∷ []),
                    ),
                  ))
            ]
      ]

  check-Retries :
      (k : String) (a c : ApprovalRequest) (cs : List Command) (w : World)
      → w.commands ≡ cs
      → Retries k cs
          (retry_with ext x k a c
            (get_training_job_status ext x (job_of k) w).0
            (get_training_job_status ext x (job_of k) w).1).1.commands
  check-Retries k a c cs w e =
      subst
        (λ v.
          Retries k v
            (retry_with ext x k a c (get_training_job_status ext x (job_of k) w).0
              (get_training_job_status ext x (job_of k) w).1).1.commands)
        e (retry_with-Retries k a c w (get_training_job_status ext x (job_of k) w).0 refl)

  -- `retry_if_absent` creates a Job only for an approval that is unknown, and only after `kubectl get` of
  -- that Job ran and exited with an error code; it creates at most one. Otherwise it runs the one
  -- `kubectl get`, or nothing.
  pub retry_if_absent-Retries :
      (k : String) (w : World)
      → let w' = (retry_if_absent ext x k w).1 in
        (w'.commands ≡ w.commands)
        ⊎ ((status_at k w.approvals ≡ some unknown) × Retries k w.commands w'.commands)
  unfolding retry_if_absent read_approval ApprovalStore.get ApprovalStore.to_schema
  retry_if_absent-Retries k w = grind (
    arith,
    log_of-OnlyAudits,
    λ (a c : ApprovalRequest) (v : World). check-Retries k a c w.commands v,
  )
