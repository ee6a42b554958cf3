-- ===== src/ApprovalStore/Claims.antt =====
-- ai_engineering/storage/approval_store.py: who owns an execution, when the calls of several processes
-- interleave.
use credit_scoring_mlops.Prelude.{
  ℕ, ◌+◌, ◌≤◌, String, ◌≡◌, refl, inl, inr, Bool, true, false, Option, none, some, List, [], ◌∷◌,
  arith, ◌==◌, string_eq, Bool-cases, ◌&&◌, subst, ap,
}
use credit_scoring_mlops.Json.{Fields}
use credit_scoring_mlops.Exec.{Result, ok, err}
use credit_scoring_mlops.Schemas.{
  DateTime, ApprovalStatus, pending, approved, executing, unknown, ApprovalRequest,
}
use credit_scoring_mlops.ApprovalStore.{claim_execution, claim_retry_execution}
use credit_scoring_mlops.ApprovalStore.Rows.{Row, Table, find, put, find-approval_id, find-put_self}
use credit_scoring_mlops.ApprovalStore.Lifecycle.{◌⟶◌, Op, apply}
use credit_scoring_mlops.ApprovalStore.Steps.{apply-Step}
use credit_scoring_mlops.ApprovalStore.Evolution.{Evolves, Step-Evolves}

-- Does the answer hand over the execution?
abbrev granted : Result (ApprovalRequest × Bool) → Bool
granted (ok (q, owns)) = owns
granted (err e) = false

-- Does the call hand over the execution of `k` for the first time? For a retry?
unfoldable pub grants_execution : String → Op → Table → Bool
grants_execution k (Op.claim_execution now j) t = j == k && granted (claim_execution now j none t).0
grants_execution k _ t = false

unfoldable pub grants_retry : String → Op → Table → Bool
grants_retry k (Op.claim_retry_execution now j) t =
    j == k && granted (claim_retry_execution now j none t).0
grants_retry k _ t = false

abbrev pub status_of : Option Row → Option ApprovalStatus
status_of none = none
status_of (some r) = some r.status

abbrev pub status_at : String → Table → Option ApprovalStatus
status_at k t = status_of (find k t)

abbrev is_unknown : Option ApprovalStatus → Bool
is_unknown (some unknown) = true
is_unknown _ = false

abbrev is_executing : Option ApprovalStatus → Bool
is_executing (some executing) = true
is_executing _ = false

-- How many times an execution can still be handed over for the first time.
startable : Option ApprovalStatus → ℕ
startable none = 1
startable (some pending) = 1
startable (some approved) = 1
startable (some _) = 0

-- How many owners can still come before the execution is given up again.
ownable : Option ApprovalStatus → ℕ
ownable none = 1
ownable (some pending) = 1
ownable (some approved) = 1
ownable (some unknown) = 1
ownable (some _) = 0

ownable-executing : ownable (some executing) ≡ 0
unfolding ownable
ownable-executing = refl

abbrev one_if : Bool → ℕ
one_if true = 1
one_if false = 0

startable-move : {s s' : ApprovalStatus} → s ⟶ s' → startable (some s') ≤ startable (some s)
unfolding startable
startable-move ◌⟶◌.approve = omega arith
startable-move _ = omega arith

startable-Evolves :
    (o o' : Option Row) → Evolves o o' → startable (status_of o') ≤ startable (status_of o)
unfolding startable
startable-Evolves none none e = omega arith
startable-Evolves none (some r') e = ground arith
startable-Evolves (some r) none e = absurd e
startable-Evolves (some r) (some r') (inl e) = ground arith
startable-Evolves (some r) (some r') (inr (req, move)) = startable-move move

-- The execution is given up: it goes from executing to unknown.
abbrev gives_up : Option ApprovalStatus → Option ApprovalStatus → Bool
gives_up s s' = is_executing s && is_unknown s'

ownable-move :
    {s s' : ApprovalStatus}
    → s ⟶ s'
    → ownable (some s') ≤ ownable (some s) + one_if (gives_up (some s) (some s'))
unfolding ownable
ownable-move ◌⟶◌.approve = omega arith
ownable-move _ = omega arith

ownable-Evolves :
    (o o' : Option Row)
    → Evolves o o'
    → ownable (status_of o')
      ≤ ownable (status_of o) + one_if (gives_up (status_of o) (status_of o'))
unfolding ownable
ownable-Evolves none none e = omega arith
ownable-Evolves none (some r') e = ground arith
ownable-Evolves (some r) none e = absurd e
ownable-Evolves (some r) (some r') (inl e) = ground arith
ownable-Evolves (some r) (some r') (inr (req, move)) = ownable-move move

grants_execution-approved :
    (k : String) (op : Op) (t : Table)
    → grants_execution k op t ≡ true
    → status_at k t ≡ some approved
unfolding grants_execution claim_execution
grants_execution-approved k (Op.claim_execution now j) t h = ground arith
grants_execution-approved k _ t h = ground arith

grants_retry-unknown :
    (k : String) (op : Op) (t : Table) → grants_retry k op t ≡ true → status_at k t ≡ some unknown
unfolding grants_retry claim_retry_execution
grants_retry-unknown k (Op.claim_retry_execution now j) t h = ground arith
grants_retry-unknown k _ t h = ground arith

find-put_at :
    (k : String) (r : Row) (t : Table) (q : Row)
    → find k t ≡ some q
    → r.approval_id ≡ k
    → find k (put r t) ≡ some r
find-put_at k r t q found e =
    subst (λ j. find j (put r t) ≡ some r) e (find-put_self r q t (rw e found))

module _ (normalise : Fields → Fields) (isoformat : DateTime → String) where
  grants_execution-executing :
      (k : String) (op : Op) (t : Table)
      → grants_execution k op t ≡ true
      → status_at k (apply normalise isoformat op t) ≡ some executing
  unfolding grants_execution claim_execution apply
  grants_execution-executing k (Op.claim_execution now j) t h =
      grind (arith, find-put_at, find-approval_id j t)
  grants_execution-executing k _ t h = ground arith

  grants_retry-executing :
      (k : String) (op : Op) (t : Table)
      → grants_retry k op t ≡ true
      → status_at k (apply normalise isoformat op t) ≡ some executing
  unfolding grants_retry claim_retry_execution apply
  grants_retry-executing k (Op.claim_retry_execution now j) t h =
      grind (arith, find-put_at, find-approval_id j t)
  grants_retry-executing k _ t h = ground arith

  -- How often a run hands over the execution of `k` for the first time, hands it over at all, and gives
  -- it up.
  unfoldable pub executions_granted : String → List Op → Table → ℕ
  executions_granted k [] t = 0
  executions_granted k (op ∷ ops) t =
      one_if (grants_execution k op t) + executions_granted k ops (apply normalise isoformat op t)

  unfoldable pub owners : String → List Op → Table → ℕ
  owners k [] t = 0
  owners k (op ∷ ops) t =
      one_if (grants_execution k op t)
      + one_if (grants_retry k op t)
      + owners k ops (apply normalise isoformat op t)

  unfoldable pub releases : String → List Op → Table → ℕ
  releases k [] t = 0
  releases k (op ∷ ops) t =
      let t' = apply normalise isoformat op t in
      one_if (gives_up (status_at k t) (status_at k t')) + releases k ops t'

  -- A first claim uses up the only one there is.
  grant-startable :
      (k : String) (op : Op) (t : Table)
      → one_if (grants_execution k op t) + startable (status_at k (apply normalise isoformat op t))
        ≤ startable (status_at k t)
  grant-startable k op t = elim (Bool-cases (grants_execution k op t)) [
    | inl yes_ ↦
        rw (yes_, grants_execution-approved k op t yes_, grants_execution-executing k op t yes_)
          (unfold startable in omega arith)
    | inr no_ ↦ rw no_ (
        omega (
          arith,
          startable-Evolves (find k t) (find k (apply normalise isoformat op t))
              (Step-Evolves k (apply-Step normalise isoformat op t)),
        ))
  ]

  -- A claim of either kind takes the execution, and only giving it up makes it free again.
  grant-ownable :
      (k : String) (op : Op) (t : Table)
      → one_if (grants_execution k op t)
          + one_if (grants_retry k op t)
          + ownable (status_at k (apply normalise isoformat op t))
        ≤ ownable (status_at k t)
          + one_if (gives_up (status_at k t) (status_at k (apply normalise isoformat op t)))
  unfolding ownable
  grant-ownable k op t =
      let evolves = Step-Evolves k (apply-Step normalise isoformat op t) in
      ground (
        arith,
        grants_execution-approved k op t,
        grants_execution-executing k op t,
        grants_retry-unknown k op t,
        grants_retry-executing k op t,
        ownable-Evolves (find k t) (find k (apply normalise isoformat op t)) evolves,
      )

  executions_granted-le :
      (k : String) (ops : List Op) (t : Table)
      → executions_granted k ops t ≤ startable (status_at k t)
  unfolding executions_granted
  executions_granted-le k [] t = omega arith
  executions_granted-le k (op ∷ ops) t =
      omega (
        arith,
        grant-startable k op t,
        executions_granted-le k ops (apply normalise isoformat op t),
      )

  owners-le :
      (k : String) (ops : List Op) (t : Table)
      → owners k ops t ≤ ownable (status_at k t) + releases k ops t
  unfolding owners releases
  owners-le k [] t = omega arith
  owners-le k (op ∷ ops) t =
      omega (arith, grant-ownable k op t, owners-le k ops (apply normalise isoformat op t))

  startable-le_one : (s : Option ApprovalStatus) → startable s ≤ 1
  unfolding startable
  startable-le_one s = ground arith

  ownable-le_one : (s : Option ApprovalStatus) → ownable s ≤ 1
  unfolding ownable
  ownable-le_one s = ground arith

  -- However the calls of any processes interleave, from any table, `claim_execution` hands over the
  -- execution of one approval at most once.
  pub execution_granted_once :
      (k : String) (ops : List Op) (t : Table) → executions_granted k ops t ≤ 1
  execution_granted_once k ops t =
      omega (arith, executions_granted-le k ops t, startable-le_one (status_at k t))

  -- However the calls of any processes interleave, from any table, the first claims and the retry claims
  -- of one approval that are granted exceed by at most one the times its execution was given up as
  -- unknown.
  pub owners_alternate :
      (k : String) (ops : List Op) (t : Table) → owners k ops t ≤ 1 + releases k ops t
  owners_alternate k ops t = omega (arith, owners-le k ops t, ownable-le_one (status_at k t))

  -- While an approval is executing, no run hands it over unless the execution is given up first.
  pub executing_excludes :
      (k : String) (ops : List Op) (t : Table)
      → status_at k t ≡ some executing
      → releases k ops t ≡ 0
      → owners k ops t ≡ 0
  executing_excludes k ops t busy kept =
      omega (arith, owners-le k ops t, ap ownable busy, ownable-executing)
