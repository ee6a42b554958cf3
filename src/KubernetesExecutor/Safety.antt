-- ===== src/KubernetesExecutor/Safety.antt =====
-- ai_engineering/tools/kubernetes_executor.py: which commands the executor runs.
use credit_scoring_mlops.Prelude.{
  ℕ, String, ◌≡◌, refl, ◌⊎◌, ◌↔◌, inl, inr, Bool, true, false, Option, some, List, [], ◌∷◌, ◌++◌,
  arith, ◌==◌, string_eq, not, ap, sym, ◌∙◌,
}
use credit_scoring_mlops.Json
use credit_scoring_mlops.Json.{Fields, flag, says}
use credit_scoring_mlops.Exec.{Result, ok}
use credit_scoring_mlops.World.{External, World, apply_manifest, get_job, Outcome, exited}
use credit_scoring_mlops.World.Effects.{IsReading}
use mathlib.Core.List.{append-nil}
use credit_scoring_mlops.KubernetesExecutor.{
  Executor, apply_training_job, get_training_job_status, not_executed, is_zero, absent_job,
}
use credit_scoring_mlops.KubernetesExecutor.Names.{job_name, validate_job_name}
use credit_scoring_mlops.KubernetesExecutor.Manifest.{render_manifest}

-- kubectl ran and exited with a code other than 0.
abbrev pub get_failed : Outcome → Bool
get_failed (exited code out) = not (is_zero code)
get_failed _ = false

module _ (ext : External) (x : Executor) where
  -- Without approval nothing is run, and the answer says why.
  pub apply_training_job-unapproved :
      (k : Option String) (w : World)
      → apply_training_job ext x false k w ≡ (ok (not_executed "Human approval is required"), w)
  unfolding apply_training_job
  apply_training_job-unapproved k w = refl

  -- The ways in which a call of `apply_training_job` leaves the world: as it was, or with one more
  -- command, which creates the Job named after the execution id from the file's manifest.
  pub data Runs (approved : Bool) (k : Option String) (w : World) : World → Type 0 where
    nothing : Runs approved k w w
    create_job :
        (id name : String) (manifest rendered : List ℕ)
        → approved ≡ true
        → x.namespace ≡ "ai-engineering"
        → k ≡ some id
        → job_name id ≡ ok name
        → ext.manifest ≡ some manifest
        → render_manifest name manifest ≡ ok rendered
        → Runs approved k w (record w { commands = w.commands ++ apply_manifest rendered ∷ [] })

  -- Whatever it is given, `apply_training_job` runs no command, or runs one: the file's manifest with the
  -- Job named after the execution id, in the namespace `ai-engineering` and approved.
  pub apply_training_job-Runs :
      (approved : Bool) (k : Option String) (w : World)
      → Runs approved k w (apply_training_job ext x approved k w).1
  unfolding apply_training_job
  apply_training_job-Runs approved k w = grind (arith, nothing, create_job)

  -- A status check changes nothing, or runs one `kubectl get` of the Job that it was asked for.
  pub get_training_job_status-reads :
      (name : String) (w : World)
      → ((get_training_job_status ext x name w).1 ≡ w)
        ⊎ ((get_training_job_status ext x name w).1
            ≡ record w { commands = w.commands ++ get_job name ∷ [] })
  unfolding get_training_job_status
  get_training_job_status-reads name w = ground arith

  unknown-ne-absent : ◌==◌ {A = String} "unknown" "absent" ≡ false
  unfolding string_eq
  unknown-ne-absent = refl

  absent_if_get_failed :
      (name : String) (w : World)
      → x.namespace ≡ "ai-engineering"
      → validate_job_name name ≡ ok tt
      → get_failed (ext.kubectl w.commands (get_job name)) ≡ true
      → (get_training_job_status ext x name w).0 ≡ ok absent_job
  unfolding get_training_job_status
  absent_if_get_failed name w allowed valid failed = grind (arith, allowed, valid, failed)

  absent_job-absent :
      (flag "exists" absent_job ≡ false) × (says "status" "absent" absent_job ≡ true)
  unfolding absent_job flag says Json.get string_eq
  absent_job-absent = (refl, refl)

  -- What is reported absent is a Job for which kubectl was run and exited with a code other than 0.
  pub absent_only_if_get_failed :
      (name : String) (w : World) (d : Fields)
      → (get_training_job_status ext x name w).0 ≡ ok d
      → flag "exists" d ≡ false
      → says "status" "absent" d ≡ true
      → (get_failed (ext.kubectl w.commands (get_job name)) ≡ true)
        × ((get_training_job_status ext x name w).1
            ≡ record w { commands = w.commands ++ get_job name ∷ [] })
  unfolding get_training_job_status flag says
  absent_only_if_get_failed name w d h e a = ground (arith, unknown-ne-absent)

  -- The answer says that the Job does not exist and is absent.
  abbrev pub SaysAbsent : Result Fields → Type 0
  SaysAbsent r =
      (d : Fields) × (r ≡ ok d) × (flag "exists" d ≡ false) × (says "status" "absent" d ≡ true)

  -- For a valid name in the namespace `ai-engineering`, a status check says that the Job is absent exactly when `kubectl get`
  -- ran and exited with a code other than 0: every such failure, whatever its cause, is reported so, and nothing else is,
  -- no answer of kubectl, no timeout and no missing kubectl.
  pub absent_iff_get_failed :
      (name : String) (w : World)
      → x.namespace ≡ "ai-engineering"
      → validate_job_name name ≡ ok tt
      → SaysAbsent (get_training_job_status ext x name w).0
        ↔ (get_failed (ext.kubectl w.commands (get_job name)) ≡ true)
  absent_iff_get_failed name w allowed valid = (
    λ (d, h, e, a). (absent_only_if_get_failed name w d h e a).0,
    λ failed.
        let (e, a) = absent_job-absent in
        (absent_job, absent_if_get_failed name w allowed valid failed, e, a),
  )

  -- The executor touches no table.
  pub apply_training_job-approvals :
      (approved : Bool) (k : Option String) (w : World)
      → (apply_training_job ext x approved k w).1.approvals ≡ w.approvals
  unfolding apply_training_job
  apply_training_job-approvals approved k w = ground arith

  pub get_training_job_status-approvals :
      (name : String) (w : World) → (get_training_job_status ext x name w).1.approvals ≡ w.approvals
  unfolding get_training_job_status
  get_training_job_status-approvals name w = ground arith

  pub get_training_job_status-IsReading :
      (name : String) → IsReading ext (get_training_job_status ext x name)
  get_training_job_status-IsReading name = record {
    at = λ w. elim (get_training_job_status-reads name w) [
      | inl e ↦ ([], ap (λ v. v.commands) e ∙ sym (append-nil w.commands), tt)
      | inr e ↦ (get_job name ∷ [], ap (λ v. v.commands) e, (refl, tt))
    ];
  }
