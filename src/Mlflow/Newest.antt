-- ===== src/Mlflow/Newest.antt =====
-- ai_engineering/tools/mlflow_tools.py: the rows that the loop of `compare_latest_models` gathers, counted.
use mathlib.Core.List.Memᴰ.{head, tail, cases_cons}
use credit_scoring_mlops.Prelude.{
  inl, inr, Bool-cases, All, ℕ, ◌+◌, String, ◌≡◌, ◌≢◌, refl, ap, sym, subst, ◌∙◌, Bool, true, false,
  ◌||◌, Option, none, some, List, [], ◌∷◌, ◌++◌, arith, contains, ◌==◌, string_eq, if◌then◌else◌,
  count_if,
}
use credit_scoring_mlops.Prelude.Sorting.{IsSorted}
use credit_scoring_mlops.Mlflow.Search.{NotNewer, IsFinished, IsNewestOf, first-newest, All-Memᴰ}
use credit_scoring_mlops.Mlflow.{
  Run, ComparedModel, supported, compared, has_name, add_run, latest_models,
}

is_named : String → Option String → Bool
is_named name none = false
is_named name (some s) = s == name

named : (name : String) (o : Option String) → is_named name o ≡ true → o ≡ some name
unfolding is_named
named name none h = absurd (ground (arith, h))
named name (some s) h = grind (arith, h)

unnamed : (name : String) (o : Option String) → is_named name o ≡ false → o ≡ some name → ⊥
unfolding is_named
unnamed name none h e = absurd (ground (arith, e))
unnamed name (some s) h e = grind (arith, h, e)

-- The row of the first run with the name.
unfoldable pub newest : String → List Run → Option ComparedModel
unfolding is_named
newest name [] = none
newest name (run ∷ runs) =
    let rest = newest name runs in
    if is_named name run.run_name then some (compared name run) else rest

-- 1 for a row that satisfies the test
abbrev pub hit : (ComparedModel → Bool) → Option ComparedModel → ℕ
hit q none = 0
hit q (some m) = if q m then 1 else 0

-- What the rest of the loop adds for a name.
added : (ComparedModel → Bool) → String → List Run → List ComparedModel → ℕ
added q name runs latest = if has_name name latest then 0 else hit q (newest name runs)

has_name-append :
    (name : String) (xs : List ComparedModel) (m : ComparedModel)
    → has_name name (xs ++ m ∷ []) ≡ has_name name xs || m.run_name == name
unfolding has_name
has_name-append name [] m = ground arith
has_name-append name (x ∷ xs) m = ground (arith, has_name-append name xs m)

count_if-snoc :
    (q : ComparedModel → Bool) (xs : List ComparedModel) (m : ComparedModel)
    → count_if q (xs ++ m ∷ []) ≡ count_if q xs + hit q (some m)
count_if-snoc q [] m = ground arith
count_if-snoc q (x ∷ xs) m = ground (arith, count_if-snoc q xs m)

module _ (q : ComparedModel → Bool) (run : Run) (runs : List Run)
    (latest : List ComparedModel) where
  -- A turn with another name
  added-other :
      (name other : String)
      → run.run_name ≡ some name
      → name ≢ other
      → added q other runs (add_run (some name) run latest) ≡ added q other (run ∷ runs) latest
  unfolding added add_run newest is_named compared
  added-other name other e differ = grind (arith, e, has_name-append)

  -- A turn with the name itself
  added-same :
      (name : String)
      → run.run_name ≡ some name
      → contains supported name ≡ true
      → count_if q (add_run (some name) run latest)
          + added q name runs (add_run (some name) run latest)
        ≡ count_if q latest + added q name (run ∷ runs) latest
  unfolding added add_run newest is_named compared
  added-same name e known = grind (arith, e, known, has_name-append, count_if-snoc)

  add_run-unknown :
      (name : String) → contains supported name ≡ false → add_run (some name) run latest ≡ latest
  unfolding add_run
  add_run-unknown name unknown = rw (add_run, unknown) refl

total : (ComparedModel → Bool) → List Run → List ComparedModel → ℕ
total q runs latest =
    count_if q latest
    + (added q "catboost_baseline" runs latest
        + (added q "lightgbm_baseline" runs latest + added q "xgboost_baseline" runs latest))

unknown :
    (name : String)
    → name ≢ "catboost_baseline"
    → name ≢ "lightgbm_baseline"
    → name ≢ "xgboost_baseline"
    → contains supported name ≡ false
unknown name c l x = grind (arith, c, l, x)

differ : (true ≡ false) → ⊥
differ h = ground arith

-- The three names differ.
cat≢light : ◌≢◌ {A = String} "catboost_baseline" "lightgbm_baseline"
unfolding string_eq
cat≢light e = differ (ap (λ (s : String). "catboost_baseline" == s) e)

cat≢xgb : ◌≢◌ {A = String} "catboost_baseline" "xgboost_baseline"
unfolding string_eq
cat≢xgb e = differ (ap (λ (s : String). "catboost_baseline" == s) e)

light≢xgb : ◌≢◌ {A = String} "lightgbm_baseline" "xgboost_baseline"
unfolding string_eq
light≢xgb e = differ (ap (λ (s : String). "lightgbm_baseline" == s) e)

module _ (q : ComparedModel → Bool) (run : Run) (runs : List Run)
    (latest : List ComparedModel) where
  total-add_cat :
      run.run_name ≡ some "catboost_baseline"
      → total q runs (add_run (some "catboost_baseline") run latest) ≡ total q (run ∷ runs) latest
  unfolding total string_eq
  total-add_cat e = omega (
    arith,
    added-same q run runs latest "catboost_baseline" e refl,
    added-other q run runs latest "catboost_baseline" "lightgbm_baseline" e cat≢light,
    added-other q run runs latest "catboost_baseline" "xgboost_baseline" e cat≢xgb,
  )

  total-add_light :
      run.run_name ≡ some "lightgbm_baseline"
      → total q runs (add_run (some "lightgbm_baseline") run latest) ≡ total q (run ∷ runs) latest
  unfolding total string_eq
  total-add_light e = omega (
    arith,
    added-same q run runs latest "lightgbm_baseline" e refl,
    added-other q run runs latest "lightgbm_baseline" "catboost_baseline" e
        (λ p. cat≢light (sym p)),
    added-other q run runs latest "lightgbm_baseline" "xgboost_baseline" e light≢xgb,
  )

  total-add_xgb :
      run.run_name ≡ some "xgboost_baseline"
      → total q runs (add_run (some "xgboost_baseline") run latest) ≡ total q (run ∷ runs) latest
  unfolding total string_eq
  total-add_xgb e = omega (
    arith,
    added-same q run runs latest "xgboost_baseline" e refl,
    added-other q run runs latest "xgboost_baseline" "catboost_baseline" e (λ p. cat≢xgb (sym p)),
    added-other q run runs latest "xgboost_baseline" "lightgbm_baseline" e (λ p. light≢xgb (sym p)),
  )

  Adds : String → Type 0
  Adds name =
      run.run_name ≡ some name
      → total q runs (add_run (some name) run latest) ≡ total q (run ∷ runs) latest

  total-add_named : (name : String) → Adds name
  unfolding Adds total
  total-add_named name = elim (string_eq.dec name "catboost_baseline") [
    | yes p ↦ subst Adds (sym p) total-add_cat
    | no c ↦ elim (string_eq.dec name "lightgbm_baseline") [
      | yes p ↦ subst Adds (sym p) total-add_light
      | no l ↦ elim (string_eq.dec name "xgboost_baseline") [
        | yes p ↦ subst Adds (sym p) total-add_xgb
        | no x ↦ λ e. omega (
          arith,
          added-other q run runs latest name "catboost_baseline" e c,
          added-other q run runs latest name "lightgbm_baseline" e l,
          added-other q run runs latest name "xgboost_baseline" e x,
          ap (count_if q) (add_run-unknown q run runs latest name (unknown name c l x)),
        )
      ]
    ]
  ]

total-add_run :
    (q : ComparedModel → Bool) (name : Option String) (run : Run) (runs : List Run)
    (latest : List ComparedModel)
    → run.run_name ≡ name
    → total q runs (add_run name run latest) ≡ total q (run ∷ runs) latest
unfolding total added add_run newest is_named Adds
total-add_run q none run runs latest e = grind (arith, e)
total-add_run q (some name) run runs latest e = total-add_named q run runs latest name e

total-latest_models :
    (q : ComparedModel → Bool) (runs : List Run) (latest : List ComparedModel)
    → count_if q (latest_models runs latest) ≡ total q runs latest
unfolding latest_models total added newest
total-latest_models q [] latest = ground arith
total-latest_models q (run ∷ runs) latest =
    total-latest_models q runs (add_run run.run_name run latest)
    ∙ total-add_run q run.run_name run runs latest refl

-- The rows of a loop that starts with none: the newest run of each supported name.
pub latest_models-counted :
    (q : ComparedModel → Bool) (runs : List Run)
    → count_if q (latest_models runs [])
      ≡ hit q (newest "catboost_baseline" runs)
        + (hit q (newest "lightgbm_baseline" runs) + hit q (newest "xgboost_baseline" runs))
unfolding total added has_name
latest_models-counted q runs = omega (arith, total-latest_models q runs [])

-- Of runs in the order of the search, the row of a name is that of its newest run.
pub newest-IsNewestOf :
    (name : String) (runs : List Run) (m : ComparedModel)
    → IsSorted NotNewer runs
    → newest name runs ≡ some m
    → (run : Run) × (m ≡ compared name run) × IsNewestOf name runs run
unfolding newest is_named
newest-IsNewestOf name [] m sorted h = absurd (ground (arith, h))
newest-IsNewestOf name (x ∷ xs) m sorted h = elim (Bool-cases (is_named name x.run_name)) [
  | inl e ↦ (
    x,
    here e
        (subst (λ (b : Bool). (if b then some (compared name x) else newest name xs) ≡ some m) e h),
    (head refl, named name x.run_name e, λ other mo eo. first-newest x other xs sorted mo),
  )
  | inr e ↦
      let (run, same, (mr, er, top)) = newest-IsNewestOf name xs m sorted.1 (
        subst (λ (b : Bool). (if b then some (compared name x) else newest name xs) ≡ some m) e
          h) in
      (
        run,
        same,
        (
          tail mr,
          er,
          λ other mo eo. elim (cases_cons mo) [
            | inl same' ↦
                absurd (unnamed name x.run_name e (ap (λ (r : Run). r.run_name) (sym same') ∙ eo))
            | inr mo' ↦ top other mo' eo
          ],
        ),
      )
]
  where
    here : is_named name x.run_name ≡ true → some (compared name x) ≡ some m → m ≡ compared name x
    here e same = grind (arith, same)

newest-none :
    (name : String) (runs : List Run)
    → newest name runs ≡ none
    → All (λ (run : Run). run.run_name ≢ some name) runs
unfolding newest is_named
newest-none name [] h = tt
newest-none name (x ∷ xs) h = elim (Bool-cases (is_named name x.run_name)) [
  | inl e ↦ absurd (
      some_none
        (subst (λ (b : Bool). (if b then some (compared name x) else newest name xs) ≡ none) e h))
  | inr e ↦ (
    unnamed name x.run_name e,
    newest-none name xs
        (subst (λ (b : Bool). (if b then some (compared name x) else newest name xs) ≡ none) e h),
  )
]
  where
    some_none : some (compared name x) ≡ none → ⊥
    some_none h' = ground (arith, h')

-- The row of a name: none if no run has the name, else that of a finished run that no run of the name is newer than.
abbrev pub NewestRow : String → List Run → Option ComparedModel → Type 0
NewestRow name runs none = All (λ (run : Run). run.run_name ≢ some name) runs
NewestRow name runs (some m) =
    (run : Run) × (m ≡ compared name run) × IsNewestOf name runs run × IsFinished run

pub newest-NewestRow :
    (name : String) (runs : List Run)
    → IsSorted NotNewer runs
    → All IsFinished runs
    → NewestRow name runs (newest name runs)
newest-NewestRow name runs sorted finished = go (newest name runs) refl
  where
    go : (o : Option ComparedModel) → newest name runs ≡ o → NewestRow name runs o
    go none h = newest-none name runs h
    go (some m) h =
        let (run, same, (mr, er, top)) = newest-IsNewestOf name runs m sorted h in
        (run, same, (mr, er, top), All-Memᴰ IsFinished runs finished run mr)
