-- ===== src/ReconciliationWorker.antt =====
-- ai_engineering/workers/reconciliation_worker.py: one cycle of the worker that reconciles uncertain
-- approvals in a batch, given whether it acquired the advisory lock.
pub mod Lock
use credit_scoring_mlops.Prelude.{
  ℕ, suc, ◌+◌, ◌≤◌, ◌≡◌, refl, ◌⊎◌, inl, inr, Bool, true, false, List, [], ◌∷◌, arith, length, ltb,
  map, ◌∙◌, ap, if◌then◌else◌,
}
use credit_scoring_mlops.Exec.{Error, Result, ok, err, value_error, pure, raise, gets, ◌>>=◌, ◌>>◌}
use credit_scoring_mlops.Schemas.{ApprovalRequest}
use credit_scoring_mlops.ApprovalStore.{to_schema}
use credit_scoring_mlops.ApprovalStore.Rows.{Row, Table}
use credit_scoring_mlops.ApprovalStore.Queries.{
  list_reconcilable, reconcilable_rows, reconcilable_rows-uncertain,
}
use credit_scoring_mlops.World.{External, World, App, attempt, inc}
use credit_scoring_mlops.World.Effects.{
  IsReading, IsReading-pure, IsReading-raise, IsReading-bind, IsReading-attempt, IsReading-quiet,
}
use credit_scoring_mlops.World.Rules.{IsReading-inc}
use credit_scoring_mlops.KubernetesExecutor.{Executor}
use credit_scoring_mlops.Reconciliation
use credit_scoring_mlops.Reconciliation.Safety.{reconcile-IsReading}

-- `__init__`
unfoldable pub check_worker : ℕ → ℕ → Result (Unit {0})
check_worker interval_seconds batch_size =
    if ltb interval_seconds 1
    then err (value_error "interval_seconds must be positive")
    else if ltb batch_size 1
    then err (value_error "batch_size must be positive")
    else ok tt

-- `database` is what the database answers to the query of `list_reconcilable`.
module _ (ext : External) (x : Executor) (lease : ℕ) (tie : Row → Row → Bool)
    (database : Table → Result (Unit {0})) where
  -- The end of one item
  counted : ℕ → Result ApprovalRequest → App ℕ
  counted n (ok a) = pure (suc n)
  counted n (err e) = do inc "reconciliation_runs_total" ("item_failed" ∷ []); pure n

  reconcile_each : List ApprovalRequest → ℕ → App ℕ
  unfolding counted
  reconcile_each [] n = pure n
  reconcile_each (a ∷ approvals) n = do
    r ← attempt (Reconciliation.reconcile ext x lease a.approval_id)
    processed ← counted n r
    reconcile_each approvals processed

  run_batch : Result (List ApprovalRequest) → App ℕ
  unfolding reconcile_each counted
  run_batch (ok approvals) = do
    processed ← reconcile_each approvals 0
    inc "reconciliation_runs_total" ("completed" ∷ [])
    pure processed
  run_batch (err e) = do inc "reconciliation_runs_total" ("failed" ∷ []); raise e

  loaded : ℕ → Table → Result (List ApprovalRequest)
  loaded batch_size approvals = elim (database approvals) [
    | err e ↦ err e
    | ok u ↦ list_reconcilable tie batch_size approvals
  ]

  reconcilable : ℕ → App (Result (List ApprovalRequest))
  unfolding loaded
  reconcilable batch_size = gets (λ w. loaded batch_size w.approvals)

  -- `run_once`, with the answer of `self.lock.try_acquire()`
  unfoldable pub run_once : ℕ → Bool → App ℕ
  unfolding run_batch reconcile_each counted reconcilable
  run_once batch_size false = pure 0
  run_once batch_size true = do
    inc "reconciliation_runs_total" ("started" ∷ [])
    approvals ← reconcilable batch_size
    run_batch approvals

  counted-IsReading : (n : ℕ) (r : Result ApprovalRequest) → IsReading ext (counted n r)
  unfolding counted
  counted-IsReading n (ok a) = IsReading-pure ext (suc n)
  counted-IsReading n (err e) =
      IsReading-bind ext _ _ (IsReading-inc ext _ _) (λ u. IsReading-pure ext n)

  reconcile_each-IsReading :
      (approvals : List ApprovalRequest) (n : ℕ) → IsReading ext (reconcile_each approvals n)
  unfolding reconcile_each
  reconcile_each-IsReading [] n = IsReading-pure ext n
  reconcile_each-IsReading (a ∷ approvals) n =
      IsReading-bind ext _ _
        (IsReading-attempt ext _ (reconcile-IsReading ext x lease a.approval_id))
        (λ r. IsReading-bind ext _ _ (counted-IsReading n r) (reconcile_each-IsReading approvals))

  run_batch-IsReading : (r : Result (List ApprovalRequest)) → IsReading ext (run_batch r)
  unfolding run_batch
  run_batch-IsReading (ok approvals) =
      search (IsReading-bind, IsReading-inc, IsReading-pure, reconcile_each-IsReading) depth 9
  run_batch-IsReading (err e) = search (IsReading-bind, IsReading-inc, IsReading-raise) depth 9

  reconcilable-IsReading : (batch_size : ℕ) → IsReading ext (reconcilable batch_size)
  unfolding reconcilable
  reconcilable-IsReading batch_size = IsReading-quiet ext (reconcilable batch_size) (λ w. refl)

  -- A cycle of the worker never writes to the cluster: all its commands are `kubectl get`.
  pub run_once-IsReading :
      (batch_size : ℕ) (acquired : Bool) → IsReading ext (run_once batch_size acquired)
  unfolding run_once
  run_once-IsReading batch_size false = IsReading-pure ext 0
  run_once-IsReading batch_size true =
      search (IsReading-bind, IsReading-inc, reconcilable-IsReading, run_batch-IsReading) depth 9

  -- The rest of a batch after one item, if the rest of the batch is processed from any number on
  abbrev Processed : Result ℕ → ℕ → Type 0
  Processed r bound = (processed : ℕ) × (r ≡ ok processed) × (processed ≤ bound)

  counted-Processed :
      (approvals : List ApprovalRequest) (n : ℕ) (r : Result ApprovalRequest) (w : World)
      → ((m : ℕ) (v : World) → Processed (reconcile_each approvals m v).0 (m + length approvals))
      → Processed ((counted n r >>= reconcile_each approvals) w).0 (n + suc (length approvals))
  unfolding counted
  counted-Processed approvals n (ok a) w rest =
      let (processed, e, h) = rest (suc n) w in (processed, e, omega arith)
  counted-Processed approvals n (err e) w rest =
      let (processed, e', h) = rest n (inc "reconciliation_runs_total" ("item_failed" ∷ []) w).1 in
      (processed, e', omega arith)

  reconcile_each-Processed :
      (approvals : List ApprovalRequest) (n : ℕ) (w : World)
      → Processed (reconcile_each approvals n w).0 (n + length approvals)
  unfolding reconcile_each
  reconcile_each-Processed [] n w = (n, refl, omega arith)
  reconcile_each-Processed (a ∷ approvals) n w =
      let (r, w') = Reconciliation.reconcile ext x lease a.approval_id w in
      counted-Processed approvals n r w' (reconcile_each-Processed approvals)

  batch-Processed :
      (approvals : List ApprovalRequest) (w : World)
      → Processed (run_batch (ok approvals) w).0 (length approvals)
  unfolding run_batch
  batch-Processed approvals w = grind (arith, reconcile_each-Processed approvals 0 w)

  length-map : (rows : List Row) → length (map to_schema rows) ≡ length rows
  length-map [] = refl
  length-map (r ∷ rows) = ap suc (length-map rows)

  list_reconcilable-positive :
      (batch_size : ℕ) (w : World)
      → 1 ≤ batch_size
      → list_reconcilable tie batch_size w.approvals
        ≡ ok (map to_schema (reconcilable_rows tie batch_size w.approvals))
  unfolding list_reconcilable
  list_reconcilable-positive batch_size w h = ground arith

  loaded-cases :
      (batch_size : ℕ) (w : World)
      → ((e : Error) × (database w.approvals ≡ err e) × (loaded batch_size w.approvals ≡ err e))
        ⊎ (loaded batch_size w.approvals ≡ list_reconcilable tie batch_size w.approvals)
  unfolding loaded
  loaded-cases batch_size w = grind arith

  -- How a cycle may end: with a number of processed approvals, at most the batch size, or with the exception of the
  -- database, if the lock was acquired.
  abbrev pub Ends : ℕ → Bool → World → Result ℕ → Type 0
  Ends batch_size acquired w r =
      Processed r batch_size
      ⊎ ((e : Error) × (acquired ≡ true) × (database w.approvals ≡ err e) × (r ≡ err e))

  pub run_once-Processed :
      (batch_size : ℕ) (acquired : Bool) (w : World)
      → 1 ≤ batch_size
      → Ends batch_size acquired w (run_once batch_size acquired w).0
  unfolding run_once reconcilable run_batch
  run_once-Processed batch_size false w h = inl (0, refl, omega arith)
  run_once-Processed batch_size true w h =
      let rows = reconcilable_rows tie batch_size w.approvals in
      let v = (inc "reconciliation_runs_total" ("started" ∷ []) w).1 in
      elim (loaded-cases batch_size w) [
        | inl (e, failed, raised) ↦ inr (e, refl, failed, ap (λ r. (run_batch r v).0) raised)
        | inr same ↦
            let (processed, e, bound) = batch-Processed (map to_schema rows) v in
            inl (
              processed,
              ap (λ r. (run_batch r v).0) (same ∙ list_reconcilable-positive batch_size w h) ∙ e,
              omega (
                arith,
                bound,
                length-map rows,
                (reconcilable_rows-uncertain tie batch_size w.approvals).0,
              ),
            )
      ]
