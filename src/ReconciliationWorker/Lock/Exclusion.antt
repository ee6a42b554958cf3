-- ===== src/ReconciliationWorker/Lock/Exclusion.antt =====
-- ai_engineering/workers/reconciliation_worker.py: at most one worker has the lock.
use credit_scoring_mlops.Prelude.{
  ℕ, ◌≤◌, ◌≡◌, ◌≢◌, refl, Bool, true, Option, none, some, List, [], ◌∷◌, ◌++◌, nat_eq, arith,
  length, All,
}
use credit_scoring_mlops.Exec.{Result, ok}
use credit_scoring_mlops.ReconciliationWorker.Lock.{
  Kept, Locks, Postgres, connection, closed, acquire_new, acquire_from, try_acquire, release_from,
  release,
}
use credit_scoring_mlops.ReconciliationWorker.Lock.Server.{
  IsPostgres, Acquires, no_session, with_lock, without_lock, acquire_new-Acquires,
}

-- A call of the lock by some worker.
pub data Call : Type 0 where
  acquire : ℕ → Call
  give_back : ℕ → Call

module _ (pg : Postgres) where
  unfoldable pub call : Call → Locks pg → Locks pg
  unfolding try_acquire release
  call (acquire i) locks = (try_acquire pg i locks).1
  call (give_back i) locks = (release pg i locks).1

  unfoldable pub calls : List Call → Locks pg → Locks pg
  unfolding call
  calls [] locks = locks
  calls (c ∷ cs) locks = calls cs (call c locks)

  module _ (holds : pg.Server → ℕ → ℕ) (documented : IsPostgres pg holds) where
    -- At most one worker keeps a connection, and its session has the lock.
    abbrev pub IsExclusive : Locks pg → Type 0
    IsExclusive locks =
        (length locks.kept ≤ 1) × All (λ (k : ℕ × ℕ). 1 ≤ holds locks.server k.1) locks.kept

    -- The sessions that are kept have the lock still, if only another session is concerned.
    All-other :
        (kept : Kept) (s : ℕ) (before after : pg.Server)
        → All (λ (k : ℕ × ℕ). k.1 ≢ s) kept
        → ((t : ℕ) → t ≢ s → holds after t ≡ holds before t)
        → All (λ (k : ℕ × ℕ). 1 ≤ holds before k.1) kept
        → All (λ (k : ℕ × ℕ). 1 ≤ holds after k.1) kept
    All-other [] s before after fresh same h = tt
    All-other (k ∷ kept) s before after fresh same h =
        (omega (arith, same k.1 fresh.0, h.0), All-other kept s before after fresh.1 same h.1)

    All-connect :
        (kept all : Kept) (server : pg.Server)
        → All (λ (k : ℕ × ℕ). 1 ≤ holds server k.1) kept
        → All (λ (k : ℕ × ℕ). 1 ≤ holds (pg.connect server all).1 k.1) kept
    All-connect [] all server h = tt
    All-connect (k ∷ kept) all server h = (
      omega (arith, documented.connect_holds server all k.1, h.0),
      All-connect kept all server h.1,
    )

    -- Nobody keeps a connection when the lock is granted to a session that nobody keeps.
    granted-nobody :
        (kept : Kept) (s : ℕ) (server : pg.Server)
        → (pg.try_lock server s).0 ≡ ok true
        → All (λ (k : ℕ × ℕ). k.1 ≢ s) kept
        → All (λ (k : ℕ × ℕ). 1 ≤ holds server k.1) kept
        → kept ≡ []
    granted-nobody [] s server h fresh has = refl
    granted-nobody (k ∷ kept) s server h fresh has =
        absurd (omega (arith, documented.granted_alone server s k.1 h fresh.0, has.0))

    alone-IsExclusive :
        (i s : ℕ) (kept : Kept) (server : pg.Server)
        → kept ≡ []
        → 1 ≤ holds server s
        → IsExclusive (record { kept = kept ++ (i, s) ∷ []; server = server })
    alone-IsExclusive i s kept server nobody has = rw nobody (omega arith, (has, tt))

    acquired-IsExclusive :
        (i : ℕ) (locks : Locks pg) (o : Result Bool × Locks pg)
        → Acquires pg i locks o
        → IsExclusive locks
        → IsExclusive o.1
    acquired-IsExclusive i locks _ (no_session e) (one, has) =
        (one, All-connect locks.kept locks.kept locks.server has)
    acquired-IsExclusive i locks _ (with_lock s opened granted) (one, has) =
        let server = (pg.connect locks.server locks.kept).1 in
        let nobody =
          granted-nobody locks.kept s server granted
            (documented.connect_fresh locks.server locks.kept s opened)
            (All-connect locks.kept locks.kept locks.server has) in
        alone-IsExclusive i s locks.kept (pg.try_lock server s).1 nobody
          (omega (arith, documented.granted server s granted))
    acquired-IsExclusive i locks _ (without_lock s r opened answered refused) (one, has) =
        let server = (pg.connect locks.server locks.kept).1 in
        let asked = (pg.try_lock server s).1 in
        let fresh = documented.connect_fresh locks.server locks.kept s opened in
        (
          one,
          All-other locks.kept s asked (pg.close asked s) fresh (documented.close_other asked s) (
              All-other locks.kept s server asked fresh (documented.try_lock_other server s)
                (All-connect locks.kept locks.kept locks.server has)),
        )

    try_acquire-IsExclusive :
        (i : ℕ) (locks : Locks pg) → IsExclusive locks → IsExclusive (try_acquire pg i locks).1
    unfolding try_acquire acquire_from
    try_acquire-IsExclusive i locks h = go (connection i locks.kept)
      where
        go : (o : Option ℕ) → IsExclusive (acquire_from pg i o locks).1
        go (some s) = h
        go none =
            acquired-IsExclusive i locks (acquire_new pg i locks) (acquire_new-Acquires pg i locks)
              h

    release-IsExclusive :
        (i : ℕ) (locks : Locks pg) → IsExclusive locks → IsExclusive (release pg i locks).1
    unfolding release release_from connection closed
    release-IsExclusive i locks h = alone locks.kept locks.server h
      where
        alone :
            (kept : Kept) (server : pg.Server)
            → IsExclusive (record { kept = kept; server = server })
            → IsExclusive (release pg i (record { kept = kept; server = server })).1
        alone [] server h' = h'
        alone ((j, s) ∷ []) server h' = ground (arith, h')
        alone (k ∷ k' ∷ kept) server h' = absurd (omega (arith, h'.0))

    -- If PostgreSQL and the pool answer as documented, no session ends by itself, and at first at most one worker keeps a
    -- connection, one whose session has the lock: then this holds too after any calls of `try_acquire` and `release` by any
    -- workers in any order, whatever exceptions they raise.
    pub calls-IsExclusive :
        (cs : List Call) (locks : Locks pg) → IsExclusive locks → IsExclusive (calls cs locks)
    unfolding calls call
    calls-IsExclusive [] locks h = h
    calls-IsExclusive (acquire i ∷ cs) locks h =
        calls-IsExclusive cs (try_acquire pg i locks).1 (try_acquire-IsExclusive i locks h)
    calls-IsExclusive (give_back i ∷ cs) locks h =
        calls-IsExclusive cs (release pg i locks).1 (release-IsExclusive i locks h)
