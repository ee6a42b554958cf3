-- ===== src/ReconciliationWorker/Lock/Release.antt =====
-- ai_engineering/workers/reconciliation_worker.py: every cycle gives the lock back, if the unlocking succeeds.
use credit_scoring_mlops.Prelude.{
  ℕ, zero, suc, ◌≤◌, ◌≡◌, ◌≢◌, inl, inr, refl, ◌∙◌, ap, sym, subst, Bool, true, false, Option, none,
  some, [], ◌∷◌, ◌++◌, nat_eq, arith, ◌==◌, Bool-cases,
}
use credit_scoring_mlops.Exec.{Result, ok, err}
use credit_scoring_mlops.ApprovalStore.Rows.{Row, Table}
use credit_scoring_mlops.World.{External, World}
use credit_scoring_mlops.KubernetesExecutor.{Executor}
use credit_scoring_mlops.ReconciliationWorker.{run_once}
use credit_scoring_mlops.ReconciliationWorker.Lock.{
  Kept, Locks, Postgres, connection, closed, acquire_new, acquire_from, try_acquire, release_from,
  release, released, after_acquire, cycle, run_rounds,
}
use credit_scoring_mlops.ReconciliationWorker.Lock.Server.{
  IsPostgres, Acquires, no_session, with_lock, without_lock, acquire_new-Acquires,
}

connection-own :
    (i s : ℕ) (kept : Kept) → connection i kept ≡ none → connection i (kept ++ (i, s) ∷ []) ≡ some s
unfolding connection
connection-own i s [] h = ground arith
connection-own i s ((j, t) ∷ kept) h = ground (arith, connection-own i s kept, h)

closed-own :
    (i s : ℕ) (kept : Kept) → connection i kept ≡ none → closed i (kept ++ (i, s) ∷ []) ≡ kept
unfolding connection closed
closed-own i s [] h = ground arith
closed-own i s ((j, t) ∷ kept) h = ground (arith, closed-own i s kept, h)

module _ (pg : Postgres) (holds : pg.Server → ℕ → ℕ) (documented : IsPostgres pg holds) where
  -- The workers keep what they kept, and no session has the lock more often than before.
  abbrev pub GivesBack : Locks pg → Locks pg → Type 0
  GivesBack before after =
      (after.kept ≡ before.kept)
      × ((session : ℕ) → holds after.server session ≤ holds before.server session)

  refused-le :
      (server : pg.Server) (s t : ℕ)
      → (pg.try_lock server s).0 ≢ ok true
      → holds (pg.close (pg.try_lock server s).1 s) t ≤ holds server t
  refused-le server s t refused = elim (Bool-cases (t == s)) [
    | inl e ↦ own t (ground (arith, e))
    | inr e ↦
        let other : t ≢ s = ground (arith, e) in
        omega (
          arith,
          documented.close_other (pg.try_lock server s).1 s t other,
          documented.try_lock_other server s t other,
        )
  ]
    where
      own : (t' : ℕ) → t' ≡ s → holds (pg.close (pg.try_lock server s).1 s) t' ≤ holds server t'
      own t' e =
          subst (λ u. holds (pg.close (pg.try_lock server s).1 s) u ≤ holds server u) (sym e)
            (omega (
              arith,
              documented.close_own (pg.try_lock server s).1 s,
              documented.not_granted server s refused,
            ))

  returned-le :
      (server : pg.Server) (s t : ℕ)
      → (pg.try_lock server s).0 ≡ ok true
      → (pg.unlock (pg.try_lock server s).1 s).0 ≡ ok tt
      → holds (pg.close (pg.unlock (pg.try_lock server s).1 s).1 s) t ≤ holds server t
  returned-le server s t granted unlocked =
      let locked = (pg.try_lock server s).1 in
      let free = (pg.unlock locked s).1 in
      elim (Bool-cases (t == s)) [
        | inl e ↦ own t (ground (arith, e))
        | inr e ↦
            let other : t ≢ s = ground (arith, e) in
            omega (
              arith,
              documented.close_other free s t other,
              documented.unlock_other locked s t other,
              documented.try_lock_other server s t other,
            )
      ]
    where
      own :
          (t' : ℕ)
          → t' ≡ s
          → holds (pg.close (pg.unlock (pg.try_lock server s).1 s).1 s) t' ≤ holds server t'
      own t' e =
          subst
            (λ u. holds (pg.close (pg.unlock (pg.try_lock server s).1 s).1 s) u ≤ holds server u)
            (sym e)
            (omega (
              arith,
              documented.close_own (pg.unlock (pg.try_lock server s).1 s).1 s,
              documented.unlocked (pg.try_lock server s).1 s unlocked,
              documented.granted server s granted,
            ))

  release-own :
      (i s : ℕ) (kept : Kept) (server : pg.Server)
      → connection i kept ≡ none
      → (release pg i (record { kept = kept ++ (i, s) ∷ []; server = server })).1
        ≡ record { kept = kept; server = pg.close (pg.unlock server s).1 s }
  unfolding release release_from
  release-own i s kept server free =
      ap
        (λ (o : Option ℕ).
          (release_from pg i o (record { kept = kept ++ (i, s) ∷ []; server = server })).1)
        (connection-own i s kept free)
      ∙ ap (λ (k : Kept). record { kept = k; server = pg.close (pg.unlock server s).1 s })
          (closed-own i s kept free)

  released-locks :
      (i : ℕ) (r : Result ℕ) (locks : Locks pg) → (released pg i r locks).1 ≡ (release pg i locks).1
  unfolding released
  released-locks i r locks = ground arith

  module _ (unlocks : (server : pg.Server) (s : ℕ) → (pg.unlock server s).0 ≡ ok tt)
      (ext : External) (x : Executor) (lease : ℕ) (tie : Row → Row → Bool)
      (database : Table → Result (Unit {0})) (batch_size : ℕ) where
    after_acquire-GivesBack :
        (i : ℕ) (locks : Locks pg) (w : World) (o : Result Bool × Locks pg)
        → connection i locks.kept ≡ none
        → Acquires pg i locks o
        → GivesBack locks (after_acquire pg ext x lease tie database batch_size i o.0 o.1 w).1.0
    unfolding after_acquire
    after_acquire-GivesBack i locks w _ free (no_session e) =
        (refl, λ t. omega (arith, documented.connect_holds locks.server locks.kept t))
    after_acquire-GivesBack i locks w _ free (with_lock s opened granted) =
        let server = (pg.connect locks.server locks.kept).1 in
        let locked = (pg.try_lock server s).1 in
        let back =
          released-locks i (run_once ext x lease tie database batch_size true w).0
            (record { kept = locks.kept ++ (i, s) ∷ []; server = locked })
          ∙ release-own i s locks.kept locked free in
        subst (GivesBack locks) (sym back) (
          refl,
          λ t. omega (
            arith,
            documented.connect_holds locks.server locks.kept t,
            returned-le server s t granted (unlocks locked s),
          ),
        )
    after_acquire-GivesBack i locks w _ free (without_lock s (ok true) opened answered refused) =
        absurd (refused refl)
    after_acquire-GivesBack i locks w _ free (without_lock s (ok false) opened answered refused) =
        (refl, without s (λ h. refused (sym answered ∙ h)))
      where
        without :
            (s' : ℕ)
            → (pg.try_lock (pg.connect locks.server locks.kept).1 s').0 ≢ ok true
            → (t : ℕ)
            → holds (pg.close (pg.try_lock (pg.connect locks.server locks.kept).1 s').1 s') t
              ≤ holds locks.server t
        without s' h t = omega (
          arith,
          documented.connect_holds locks.server locks.kept t,
          refused-le (pg.connect locks.server locks.kept).1 s' t h,
        )
    after_acquire-GivesBack i locks w _ free (without_lock s (err e) opened answered refused) = (
      refl,
      λ t. omega (
        arith,
        documented.connect_holds locks.server locks.kept t,
        refused-le (pg.connect locks.server locks.kept).1 s t (λ h. refused (sym answered ∙ h)),
      ),
    )

    cycle-GivesBack :
        (i : ℕ) (locks : Locks pg) (w : World)
        → connection i locks.kept ≡ none
        → GivesBack locks (cycle pg ext x lease tie database batch_size i locks w).1.0
    unfolding cycle try_acquire acquire_from
    cycle-GivesBack i locks w free =
        subst
          (λ (o : Option ℕ).
            let (acquired, locks') = acquire_from pg i o locks in
            GivesBack locks
              (after_acquire pg ext x lease tie database batch_size i acquired locks' w).1.0)
          (sym free)
          (after_acquire-GivesBack i locks w (acquire_new pg i locks) free
            (acquire_new-Acquires pg i locks))

    -- If PostgreSQL and the pool answer as documented and unlocking never raises, then however often the loop of a worker
    -- that keeps no connection has gone round, and whatever exceptions its cycles raised: the workers keep the connections that
    -- they kept, this one none, and no session has the lock more often than at first.
    pub run_rounds-GivesBack :
        (n i : ℕ) (locks : Locks pg) (w : World)
        → connection i locks.kept ≡ none
        → GivesBack locks (run_rounds pg ext x lease tie database batch_size n i locks w).0
    unfolding run_rounds
    run_rounds-GivesBack zero i locks w free = (refl, λ t. omega arith)
    run_rounds-GivesBack (suc n) i locks w free =
        let (r, (locks', w')) = cycle pg ext x lease tie database batch_size i locks w in
        let (same, le) = cycle-GivesBack i locks w free in
        let (same', le') = run_rounds-GivesBack n i locks' w' (ap (connection i) same ∙ free) in
        (same' ∙ same, λ t. omega (arith, le t, le' t))
