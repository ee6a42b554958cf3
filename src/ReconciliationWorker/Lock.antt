-- ===== src/ReconciliationWorker/Lock.antt =====
-- ai_engineering/workers/reconciliation_worker.py: the advisory lock, the whole cycle that holds it, and the
-- endless loop. The state is the connections that the workers keep, each with the number of its worker, and the database
-- server with the pool of its sessions, which are parameters.
pub mod Server
pub mod Exclusion
pub mod Release
use credit_scoring_mlops.Prelude.{
  ℕ, zero, suc, ◌≤◌, Bool, true, false, Option, none, some, List, [], ◌∷◌, ◌++◌, ◌==◌, nat_eq,
  if◌then◌else◌,
}
use credit_scoring_mlops.Exec.{
  Error, Result, ok, err, Exec, pure, raise, gets, lift, modify, ◌>>=◌, ◌>>◌,
}
use credit_scoring_mlops.ApprovalStore.Rows.{Row, Table}
use credit_scoring_mlops.World.{External, World}
use credit_scoring_mlops.KubernetesExecutor.{Executor}
use credit_scoring_mlops.ReconciliationWorker.{run_once}

-- The workers that keep a `_connection`, with its session
abbrev pub Kept : Type 0
Kept = List (ℕ × ℕ)

-- `engine.connect()`, `pg_try_advisory_lock`, `pg_advisory_unlock` and `connection.close()`
pub record Postgres : Type 1 where
  pub Server : Type 0
  pub connect : Server → Kept → Result ℕ × Server
  pub try_lock : Server → ℕ → Result Bool × Server
  pub unlock : Server → ℕ → Result (Unit {0}) × Server
  pub close : Server → ℕ → Server

-- `self._connection` of a worker
unfoldable pub connection : ℕ → Kept → Option ℕ
connection i [] = none
connection i ((j, s) ∷ kept) = let rest = connection i kept in if j == i then some s else rest

-- the connections of the other workers
unfoldable pub closed : ℕ → Kept → Kept
closed i [] = []
closed i ((j, s) ∷ kept) = let rest = closed i kept in if j == i then rest else (j, s) ∷ rest

module _ (pg : Postgres) where
  pub record Locks : Type 0 where
    pub kept : Kept
    pub server : pg.Server

  open_session : Exec Locks ℕ
  open_session locks =
      let (r, server) = pg.connect locks.server locks.kept in (r, record locks { server = server })

  -- the answer of the lock's query, or its exception
  ask_lock : ℕ → Exec Locks (Result Bool)
  ask_lock session locks =
      let (r, server) = pg.try_lock locks.server session in (ok r, record locks { server = server })

  close_session : ℕ → Exec Locks (Unit {0})
  close_session session = modify (λ locks. record locks { server = pg.close locks.server session })

  -- the rest of the `try` with its `finally`: the connection is kept only with the lock
  settle : ℕ → ℕ → Result Bool → Exec Locks Bool
  unfolding close_session
  settle i session (ok true) = do
    modify (λ locks. record locks { kept = locks.kept ++ (i, session) ∷ [] })
    pure true
  settle i session (ok false) = do close_session session; pure false
  settle i session (err e) = do close_session session; raise e

  unfoldable pub acquire_new : ℕ → Exec Locks Bool
  unfolding open_session ask_lock settle
  acquire_new i = do session ← open_session; answered ← ask_lock session; settle i session answered

  acquire_from : ℕ → Option ℕ → Exec Locks Bool
  unfolding acquire_new
  acquire_from i (some session) = pure true
  acquire_from i none = acquire_new i

  -- `try_acquire`
  unfoldable pub try_acquire : ℕ → Exec Locks Bool
  unfolding acquire_from connection
  try_acquire i = do session ← gets (λ locks. connection i locks.kept); acquire_from i session

  -- the connection is closed and forgotten even if the unlocking raises
  release_from : ℕ → Option ℕ → Exec Locks (Unit {0})
  unfolding closed
  release_from i none locks = (ok tt, locks)
  release_from i (some session) locks =
      let (r, server) = pg.unlock locks.server session in
      (r, record locks { kept = closed i locks.kept; server = pg.close server session })

  -- `release`
  unfoldable pub release : ℕ → Exec Locks (Unit {0})
  unfolding release_from connection
  release i = do session ← gets (λ locks. connection i locks.kept); release_from i session

  -- `finally: self.lock.release()`, with the end of the `try`: an exception of the release replaces it
  released : ℕ → Result ℕ → Locks → Result ℕ × Locks
  unfolding release
  released i r locks = elim (release i locks).0 [
    | ok u ↦ (r, (release i locks).1)
    | err e ↦ (err e, (release i locks).1)
  ]

  module _ (ext : External) (x : Executor) (lease : ℕ) (tie : Row → Row → Bool)
      (database : Table → Result (Unit {0})) (batch_size : ℕ) where
    -- what `run_once` does with what `try_acquire` returned or raised
    after_acquire : ℕ → Result Bool → Locks → World → Result ℕ × (Locks × World)
    unfolding released run_once
    after_acquire i (err e) locks w = (err e, (locks, w))
    after_acquire i (ok false) locks w =
        let (r, w') = run_once ext x lease tie database batch_size false w in (r, (locks, w'))
    after_acquire i (ok true) locks w =
        let (r, w') = run_once ext x lease tie database batch_size true w in
        let (r', locks') = released i r locks in (r', (locks', w'))

    -- `run_once` with its lock
    unfoldable pub cycle : ℕ → Locks → World → Result ℕ × (Locks × World)
    unfolding try_acquire after_acquire
    cycle i locks w =
        let (acquired, locks') = try_acquire i locks in after_acquire i acquired locks' w

    -- The first so many rounds of `run_forever`, which survives every exception of a cycle
    unfoldable pub run_rounds : ℕ → ℕ → Locks → World → Locks × World
    unfolding cycle
    run_rounds zero i locks w = (locks, w)
    run_rounds (suc n) i locks w =
        let (r, (locks', w')) = cycle i locks w in run_rounds n i locks' w'
