-- ===== src/ReconciliationWorker/Lock/Server.antt =====
-- ai_engineering/workers/reconciliation_worker.py: what PostgreSQL and the pool document of session-level advisory
-- locks, and how `try_acquire` may end.
use credit_scoring_mlops.Prelude.{
  ℕ, suc, ◌-◌, ◌≤◌, ◌≡◌, ◌≢◌, Bool, true, false, [], ◌∷◌, ◌++◌, arith, All, refl,
}
use credit_scoring_mlops.Exec.{Error, Result, ok, err}
use credit_scoring_mlops.ReconciliationWorker.Lock.{
  Postgres, Kept, Locks, acquire_new, open_session, ask_lock, settle, close_session,
}

-- `holds server s` is how often the session has the lock, which it may take again.
pub record IsPostgres (pg : Postgres) (holds : pg.Server → ℕ → ℕ) : Type 0 where
  -- The pool hands out a session that is not in use.
  pub connect_fresh :
      (server : pg.Server) (kept : Kept) (s : ℕ)
      → (pg.connect server kept).0 ≡ ok s
      → All (λ (k : ℕ × ℕ). k.1 ≢ s) kept
  pub connect_holds :
      (server : pg.Server) (kept : Kept) (s : ℕ)
      → holds (pg.connect server kept).1 s ≡ holds server s
  -- The lock is granted while no other session has it, and then the session has it once more.
  pub granted_alone :
      (server : pg.Server) (s t : ℕ)
      → (pg.try_lock server s).0 ≡ ok true
      → t ≢ s
      → holds server t ≡ 0
  pub granted :
      (server : pg.Server) (s : ℕ)
      → (pg.try_lock server s).0 ≡ ok true
      → holds (pg.try_lock server s).1 s ≡ suc (holds server s)
  pub not_granted :
      (server : pg.Server) (s : ℕ)
      → (pg.try_lock server s).0 ≢ ok true
      → holds (pg.try_lock server s).1 s ≤ holds server s
  pub unlocked :
      (server : pg.Server) (s : ℕ)
      → (pg.unlock server s).0 ≡ ok tt
      → holds (pg.unlock server s).1 s ≡ holds server s - 1
  -- A session that goes back to the pool keeps what it has, and one that ends loses it.
  pub close_own : (server : pg.Server) (s : ℕ) → holds (pg.close server s) s ≤ holds server s
  -- No call changes what another session has.
  pub try_lock_other :
      (server : pg.Server) (s t : ℕ) → t ≢ s → holds (pg.try_lock server s).1 t ≡ holds server t
  pub unlock_other :
      (server : pg.Server) (s t : ℕ) → t ≢ s → holds (pg.unlock server s).1 t ≡ holds server t
  pub close_other :
      (server : pg.Server) (s t : ℕ) → t ≢ s → holds (pg.close server s) t ≡ holds server t

module _ (pg : Postgres) where
  -- How a new acquisition ends: without a session, with the lock, or without it and with its session closed.
  pub data Acquires (i : ℕ) (locks : Locks pg) : Result Bool × Locks pg → Type 0 where
    no_session :
        (e : Error)
        → Acquires i locks (err e, record locks { server = (pg.connect locks.server locks.kept).1 })
    with_lock :
        (s : ℕ)
        → (pg.connect locks.server locks.kept).0 ≡ ok s
        → (pg.try_lock (pg.connect locks.server locks.kept).1 s).0 ≡ ok true
        → Acquires i locks (
          ok true,
          record {
            kept = locks.kept ++ (i, s) ∷ [];
            server = (pg.try_lock (pg.connect locks.server locks.kept).1 s).1;
          },
        )
    without_lock :
        (s : ℕ) (r : Result Bool)
        → (pg.connect locks.server locks.kept).0 ≡ ok s
        → (pg.try_lock (pg.connect locks.server locks.kept).1 s).0 ≡ r
        → r ≢ ok true
        → Acquires i locks (
          r,
          record locks {
            server = pg.close (pg.try_lock (pg.connect locks.server locks.kept).1 s).1 s;
          },
        )

  pub acquire_new-Acquires : (i : ℕ) (locks : Locks pg) → Acquires i locks (acquire_new pg i locks)
  unfolding acquire_new open_session ask_lock settle close_session
  acquire_new-Acquires i locks = opened (pg.connect locks.server locks.kept).0 refl
    where
      answered :
          (s : ℕ) (r : Result Bool)
          → (pg.connect locks.server locks.kept).0 ≡ ok s
          → (pg.try_lock (pg.connect locks.server locks.kept).1 s).0 ≡ r
          → Acquires i locks (
              settle pg i s r (record locks {
                server = (pg.try_lock (pg.connect locks.server locks.kept).1 s).1;
              }))
      answered s (ok true) h h' = with_lock s h h'
      answered s (ok false) h h' = without_lock s (ok false) h h' (λ e. ground (arith, e))
      answered s (err e) h h' = without_lock s (err e) h h' (λ e'. ground (arith, e'))

      opened :
          (r : Result ℕ)
          → (pg.connect locks.server locks.kept).0 ≡ r
          → Acquires i locks (elim r [
            | ok s ↦
                settle pg i s
                  (pg.try_lock (pg.connect locks.server locks.kept).1 s).0
                  (record locks {
                    server = (pg.try_lock (pg.connect locks.server locks.kept).1 s).1;
                  })
            | err e ↦ (err e, record locks { server = (pg.connect locks.server locks.kept).1 })
          ])
      opened (ok s) h = answered s _ h refl
      opened (err e) h = no_session e
