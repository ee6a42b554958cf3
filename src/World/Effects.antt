-- ===== src/World/Effects.antt =====
-- What an action of the control plane may do to the approvals and to the cluster, with one rule for each
-- way to build an action.
use credit_scoring_mlops.Prelude.{
  ◌≡◌, refl, ◌∙◌, sym, ap, Bool, true, false, Option, none, some, List, [], ◌∷◌, ◌++◌,
  if◌then◌else◌, All, All-append,
}
use mathlib.Core.List.{append-nil, append_assoc}
use credit_scoring_mlops.Exec.{
  Error, Result, ok, err, pure, raise, or_raise, raise_if, catch, ◌>>=◌,
}
use credit_scoring_mlops.ApprovalStore.Rows.{Table}
use credit_scoring_mlops.ApprovalStore.Lifecycle.{Op, apply, run}
use credit_scoring_mlops.World.{External, World, App, attempt, Command, apply_manifest, get_job}

-- A command that only reads the cluster.
abbrev pub is_read : Command → Bool
is_read (apply_manifest s) = false
is_read (get_job name) = true

module _ (ext : External) where
  -- To the table of approvals an action is a run of calls of `ApprovalStore`, whether it returns or raises.
  pub record IsRun {A : Type 0} (m : App A) : Type 0 where
    pub at :
        (w : World)
        → (ops : List Op) × ((m w).1.approvals ≡ run ext.normalise ext.isoformat ops w.approvals)

  -- An action runs commands that only read the cluster.
  pub record IsReading {A : Type 0} (m : App A) : Type 0 where
    pub at :
        (w : World)
        → (new : List Command) × ((m w).1.commands ≡ w.commands ++ new)
          × All (λ c. is_read c ≡ true) new

  pub run-append :
      (ops ops' : List Op) (t : Table)
      → run ext.normalise ext.isoformat (ops ++ ops') t
        ≡ run ext.normalise ext.isoformat ops' (run ext.normalise ext.isoformat ops t)
  unfolding run
  run-append [] ops' t = refl
  run-append (op ∷ ops) ops' t = run-append ops ops' (apply ext.normalise ext.isoformat op t)

  module _ {A : Type 0} where
    -- An action that leaves the approvals alone.
    pub IsRun-quiet : (m : App A) → ((w : World) → (m w).1.approvals ≡ w.approvals) → IsRun m
    unfolding run
    IsRun-quiet m h = record { at = λ w. ([], h w) }

    pub IsReading-quiet : (m : App A) → ((w : World) → (m w).1.commands ≡ w.commands) → IsReading m
    IsReading-quiet m h = record { at = λ w. ([], h w ∙ sym (append-nil w.commands), tt) }

    pub IsRun-pure : (a : A) → IsRun {A = A} (pure a)
    IsRun-pure a = IsRun-quiet (pure a) (λ w. refl)

    pub IsRun-raise : (e : Error) → IsRun {A = A} (raise e)
    IsRun-raise e = IsRun-quiet (raise e) (λ w. refl)

    pub IsRun-or_raise : (o : Option A) (e : Error) → IsRun (or_raise o e)
    IsRun-or_raise none e = IsRun-raise e
    IsRun-or_raise (some a) e = IsRun-pure a

    pub IsRun-if : (b : Bool) (m n : App A) → IsRun m → IsRun n → IsRun (if b then m else n)
    IsRun-if true m n km kn = km
    IsRun-if false m n km kn = kn

    pub IsRun-attempt : (m : App A) → IsRun m → IsRun (attempt m)
    IsRun-attempt m k = record { at = k.at }

    pub IsReading-attempt : (m : App A) → IsReading m → IsReading (attempt m)
    IsReading-attempt m k = record { at = k.at }

    pub IsReading-pure : (a : A) → IsReading {A = A} (pure a)
    IsReading-pure a = IsReading-quiet (pure a) (λ w. refl)

    pub IsReading-raise : (e : Error) → IsReading {A = A} (raise e)
    IsReading-raise e = IsReading-quiet (raise e) (λ w. refl)

    pub IsReading-or_raise : (o : Option A) (e : Error) → IsReading (or_raise o e)
    IsReading-or_raise none e = IsReading-raise e
    IsReading-or_raise (some a) e = IsReading-pure a

    pub IsReading-if :
        (b : Bool) (m n : App A) → IsReading m → IsReading n → IsReading (if b then m else n)
    IsReading-if true m n km kn = km
    IsReading-if false m n km kn = kn

  pub IsRun-raise_if : (b : Bool) (e : Error) → IsRun (raise_if b e)
  IsRun-raise_if true e = IsRun-raise e
  IsRun-raise_if false e = IsRun-pure tt

  module _ {A : Type 0} (m : App A) (h : Error → App A) where
    abbrev handled : World → Result A → Result A × World
    handled w r = elim r [ ok a ↦ pure a w | err e ↦ h e w ]

    IsRun-handled :
        (w : World) (r : Result A)
        → ((e : Error) → IsRun (h e))
        → (ops : List Op) × ((handled w r).1.approvals
            ≡ run ext.normalise ext.isoformat ops w.approvals)
    unfolding run
    IsRun-handled w (ok a) kh = ([], refl)
    IsRun-handled w (err e) kh = (kh e).at w

    pub IsRun-catch : IsRun m → ((e : Error) → IsRun (h e)) → IsRun (catch m h)
    IsRun-catch km kh = record {
      at = λ w.
          let (ops, e) = km.at w in
          let (ops', e') = IsRun-handled (m w).1 (m w).0 kh in
          (
            ops ++ ops',
            e'
                ∙ ap (run ext.normalise ext.isoformat ops') e
                ∙ sym (run-append ops ops' w.approvals),
          );
    }

  module _ {A : Type 0} (m : App A) (h : Error → App A) where
    IsReading-handled :
        (w : World) (r : Result A)
        → ((e : Error) → IsReading (h e))
        → (new : List Command) × ((handled m h w r).1.commands ≡ w.commands ++ new)
          × All (λ c. is_read c ≡ true) new
    IsReading-handled w (ok a) kh = ([], sym (append-nil w.commands), tt)
    IsReading-handled w (err e) kh = (kh e).at w

    pub IsReading-catch : IsReading m → ((e : Error) → IsReading (h e)) → IsReading (catch m h)
    IsReading-catch km kh = record {
      at = λ w.
          let (new, e, all) = km.at w in
          let (new', e', all') = IsReading-handled (m w).1 (m w).0 kh in
          (
            new ++ new',
            e' ∙ ap (λ c. c ++ new') e ∙ append_assoc w.commands new new',
            All-append (λ c. is_read c ≡ true) new new' all all',
          );
    }

  module _ {A B : Type 0} (m : App A) (f : A → App B) where
    abbrev after : World → Result A → Result B × World
    after w r = elim r [ ok a ↦ f a w | err e ↦ raise e w ]

    IsRun-after :
        (w : World) (r : Result A)
        → ((a : A) → IsRun (f a))
        → (ops : List Op) × ((after w r).1.approvals
            ≡ run ext.normalise ext.isoformat ops w.approvals)
    unfolding run
    IsRun-after w (ok a) kf = (kf a).at w
    IsRun-after w (err e) kf = ([], refl)

    pub IsRun-bind : IsRun m → ((a : A) → IsRun (f a)) → IsRun (m >>= f)
    IsRun-bind km kf = record {
      at = λ w.
          let (ops, e) = km.at w in
          let (ops', e') = IsRun-after (m w).1 (m w).0 kf in
          (
            ops ++ ops',
            e'
                ∙ ap (run ext.normalise ext.isoformat ops') e
                ∙ sym (run-append ops ops' w.approvals),
          );
    }

    IsReading-after :
        (w : World) (r : Result A)
        → ((a : A) → IsReading (f a))
        → (new : List Command) × ((after w r).1.commands ≡ w.commands ++ new)
          × All (λ c. is_read c ≡ true) new
    IsReading-after w (ok a) kf = (kf a).at w
    IsReading-after w (err e) kf = ([], sym (append-nil w.commands), tt)

    pub IsReading-bind : IsReading m → ((a : A) → IsReading (f a)) → IsReading (m >>= f)
    IsReading-bind km kf = record {
      at = λ w.
          let (new, e, all) = km.at w in
          let (new', e', all') = IsReading-after (m w).1 (m w).0 kf in
          (
            new ++ new',
            e' ∙ ap (λ c. c ++ new') e ∙ append_assoc w.commands new new',
            All-append (λ c. is_read c ≡ true) new new' all all',
          );
    }
