-- ===== src/Tests/Locks.antt =====
-- The theorems on the worker's advisory lock, applied to a server that counts how often one session has the lock.
use credit_scoring_mlops.Prelude.{
  ℕ, suc, ◌+◌, ◌-◌, ◌≤◌, ◌≡◌, ◌≢◌, refl, Bool, true, false, [], ◌∷◌, arith, nat_eq, ◌==◌,
  if◌then◌else◌, All,
}
use credit_scoring_mlops.Exec.{Result, ok}
use credit_scoring_mlops.ReconciliationWorker.Lock.{Kept, Postgres, Locks, connection, run_rounds}
use credit_scoring_mlops.ReconciliationWorker.Lock.Server.{IsPostgres}
use credit_scoring_mlops.ReconciliationWorker.Lock.Exclusion.{
  acquire, give_back, calls, IsExclusive, calls-IsExclusive,
}
use credit_scoring_mlops.ReconciliationWorker.Lock.Release.{GivesBack, run_rounds-GivesBack}
use credit_scoring_mlops.Tests.{outside, executor, world}

-- The session that had the lock last, and how often it has it
abbrev Server : Type 0
Server = ℕ × ℕ

holds : Server → ℕ → ℕ
holds (holder, count) s = if s == holder then count else 0

unused : Kept → ℕ
unused [] = 1
unused ((i, s) ∷ kept) = s + unused kept

try_lock : Server → ℕ → Result Bool × Server
try_lock (holder, count) s =
    if count == 0
    then (ok true, (s, 1))
    else if holder == s
    then (ok true, (s, suc count))
    else (ok false, (holder, count))

unlock : Server → ℕ → Result (Unit {0}) × Server
unlock (holder, count) s = (ok tt, if holder == s then (holder, count - 1) else (holder, count))

abbrev postgres : Postgres
postgres = record {
  Server = Server;
  connect = λ server kept. (ok (unused kept), server);
  try_lock = try_lock;
  unlock = unlock;
  close = λ server s. server;
}

below-unused : (kept : Kept) (n : ℕ) → unused kept ≤ n → All (λ (k : ℕ × ℕ). k.1 ≢ n) kept
unfolding unused
below-unused [] n h = tt
below-unused ((i, s) ∷ kept) n h =
    (λ e. absurd (omega (arith, e, h, unused_pos kept)), below-unused kept n (omega (arith, h)))
  where
    unused_pos : (kept' : Kept) → 1 ≤ unused kept'
    unused_pos [] = omega arith
    unused_pos ((j, t) ∷ kept') = omega (arith, unused_pos kept')

postgres-IsPostgres : IsPostgres postgres holds
unfolding holds try_lock unlock
postgres-IsPostgres = record {
  connect_fresh = λ server kept s h. fresh kept s h;
  connect_holds = λ server kept s. refl;
  granted_alone = λ server s t h other. ground (arith, h, other);
  granted = λ server s h. ground (arith, h);
  not_granted = λ server s h. ground (arith, h);
  unlocked = λ server s h. ground arith;
  close_own = λ server s. omega arith;
  try_lock_other = λ server s t other. ground (arith, other);
  unlock_other = λ server s t other. ground (arith, other);
  close_other = λ server s t other. refl;
}
  where
    fresh :
        (kept : Kept) (s : ℕ)
        → ◌≡◌ {A = Result ℕ} (ok (unused kept)) (ok s)
        → All (λ (k : ℕ × ℕ). k.1 ≢ s) kept
    fresh kept s h = below-unused kept s (grind (arith, h))

abbrev idle : Locks postgres
idle = record { kept = []; server = (0, 0) }

calls-IsExclusive_example :
    IsExclusive postgres holds postgres-IsPostgres
      (calls postgres (acquire 1 ∷ acquire 2 ∷ give_back 1 ∷ acquire 2 ∷ []) idle)
calls-IsExclusive_example =
    calls-IsExclusive postgres holds postgres-IsPostgres
      (acquire 1 ∷ acquire 2 ∷ give_back 1 ∷ acquire 2 ∷ []) idle (omega arith, tt)

run_rounds-GivesBack_example :
    GivesBack postgres holds postgres-IsPostgres idle
      (run_rounds postgres outside executor 300
        (λ a b. true)
        (λ rows. ok tt)
        10
        3
        1
        idle
        (world [])).0
unfolding unlock connection
run_rounds-GivesBack_example =
    run_rounds-GivesBack postgres holds postgres-IsPostgres (λ server s. refl) outside executor 300
      (λ a b. true) (λ rows. ok tt) 10 3 1 idle (world []) refl
