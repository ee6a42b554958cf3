-- ===== src/ApprovalStore/Evolution.antt =====
-- ai_engineering/storage/approval_store.py: what a step of the lifecycle, and any run of calls, does to
-- the one row of an approval.
use credit_scoring_mlops.Prelude.{
  String, ◌≡◌, refl, ◌⊎◌, inl, inr, Option, none, some, List, [], ◌∷◌, ◌++◌, arith, string_eq,
  Option-cases, ◌∙◌,
}
use credit_scoring_mlops.Json.{Fields}
use credit_scoring_mlops.Schemas.{DateTime, ApprovalStatus, pending, rejected, completed, failed}
use credit_scoring_mlops.ApprovalStore.Rows.{
  Row, Table, find, put, find-approval_id, find-put_self, find-put_ne, find-append, find-append_old,
}
use credit_scoring_mlops.ApprovalStore.Lifecycle.{
  ◌⟶◌, SameRequest, approve, Step, same, moved, added, Op, apply, run,
}
use credit_scoring_mlops.ApprovalStore.Steps.{apply-Step}

-- One row's change: it stays, or moves along an edge with its request kept; it never vanishes, and a
-- new one is pending.
abbrev pub Evolves : Option Row → Option Row → Type 0
Evolves none none = Unit
Evolves none (some r') = r'.status ≡ pending
Evolves (some r) none = ⊥
Evolves (some r) (some r') = (r' ≡ r) ⊎ (SameRequest r r' × (r.status ⟶ r'.status))

Evolves-refl : (o : Option Row) → Evolves o o
Evolves-refl none = tt
Evolves-refl (some r) = inl refl

Evolves-moved :
    (j k : String) (t : Table) (r r' : Row)
    → find k t ≡ some r
    → SameRequest r r'
    → r.status ⟶ r'.status
    → Evolves (find j t) (find j (put r' t))
Evolves-moved j k t r r' found req move = elim (string_eq.dec j r'.approval_id) [
  | yes e ↦
      let at_r : find r'.approval_id t ≡ some r =
        rw (req.approval_id ∙ find-approval_id k t found) found in
      rw (e, at_r, find-put_self r' r t at_r) (inr (req, move))
  | no n ↦ rw (find-put_ne j r' t n) (Evolves-refl (find j t))
]

Evolves-added :
    (j : String) (t : Table) (r : Row)
    → find r.approval_id t ≡ none
    → r.status ≡ pending
    → Evolves (find j t) (find j (t ++ r ∷ []))
Evolves-added j t r fresh new = elim (Option-cases (find j t)) [
  | inl e ↦ rw (e, find-append j t r e) (ground arith)
  | inr (q, e) ↦ rw (e, find-append_old j t r q e) (inl refl)
]

-- A step, seen at any one approval.
pub Step-Evolves : (j : String) {t t' : Table} → Step t t' → Evolves (find j t) (find j t')
Step-Evolves j {t} same = Evolves-refl (find j t)
Step-Evolves j {t} (moved k r r' found req move) = Evolves-moved j k t r r' found req move
Step-Evolves j {t} (added r fresh new) = Evolves-added j t r fresh new

abbrev pub IsTerminal : ApprovalStatus → Type 0
IsTerminal s = (s ≡ rejected) ⊎ (s ≡ completed) ⊎ (s ≡ failed)

terminal_no_move : {s s' : ApprovalStatus} → s ⟶ s' → IsTerminal s → ⊥
terminal_no_move approve h = ground arith
terminal_no_move _ h = ground arith

Evolves-terminal :
    (r : Row) (o : Option Row) → Evolves (some r) o → IsTerminal r.status → o ≡ some r
Evolves-terminal r none e h = absurd e
Evolves-terminal r (some r') (inl e) h = rw e
Evolves-terminal r (some r') (inr (req, move)) h = absurd (terminal_no_move move h)

Evolves-request :
    (r : Row) (o : Option Row) → Evolves (some r) o → (r' : Row) × (o ≡ some r') × SameRequest r r'
Evolves-request r none e = absurd e
Evolves-request r (some r') (inl e) = (r', refl, ground arith)
Evolves-request r (some r') (inr (req, move)) = (r', refl, req)

module _ (normalise : Fields → Fields) (isoformat : DateTime → String) where
  -- A rejected, completed or failed approval is final: no run of calls changes any field of its row.
  pub run_terminal :
      (k : String) (ops : List Op) (t : Table) (r : Row)
      → find k t ≡ some r
      → IsTerminal r.status
      → find k (run normalise isoformat ops t) ≡ some r
  unfolding run
  run_terminal k [] t r found h = found
  run_terminal k (op ∷ ops) t r found h =
      let t' = apply normalise isoformat op t in
      let evolves = Step-Evolves k (apply-Step normalise isoformat op t) in
      run_terminal k ops t' r (Evolves-terminal r (find k t') (rw found at evolves) h) h

  -- No run of calls removes an approval or rewrites what was requested: its id, trace, action, reason,
  -- time and plan.
  pub run_keeps_request :
      (k : String) (ops : List Op) (t : Table) (r : Row)
      → find k t ≡ some r
      → (r' : Row) × (find k (run normalise isoformat ops t) ≡ some r') × SameRequest r r'
  unfolding run
  run_keeps_request k [] t r found = (r, found, ground arith)
  run_keeps_request k (op ∷ ops) t r found =
      let t' = apply normalise isoformat op t in
      let evolves = Step-Evolves k (apply-Step normalise isoformat op t) in
      let (q, found', req) = Evolves-request r (find k t') (rw found at evolves) in
      let (r', last, req') = run_keeps_request k ops t' q found' in (r', last, ground arith)
