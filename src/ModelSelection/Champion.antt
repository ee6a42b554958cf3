-- ===== src/ModelSelection/Champion.antt =====
-- src/training/promote_model.py: which version gets the champion alias.
use mathlib.Core.List.{Memᴰ}
use mathlib.Core.List.Memᴰ.{head, tail}
use credit_scoring_mlops.Prelude.{
  String, ◌<>◌, ◌≡◌, refl, ap, ◌∙◌, subst, Bool, true, Option, none, some, List, [], ◌∷◌, ◌==◌,
  string_eq, if◌then◌else◌, inl, inr, ◌⊎◌, ◌≢◌, All, Bool-cases, arith,
}
use credit_scoring_mlops.Json
use credit_scoring_mlops.Json.{Value}
use credit_scoring_mlops.Exec.{
  Error, key_error, value_error, Result, ok, err, Exec, pure, lift, or_raise, ◌>>=◌,
}
use credit_scoring_mlops.Mlflow.{Run}
use credit_scoring_mlops.Mlflow.Search.{IsSearch, IsNewestOf, IsFinished, first-newest}
use credit_scoring_mlops.Promotion.{ModelVersion, Alias}
use credit_scoring_mlops.ModelSelection.{
  Client, catboost_query, find_version, first_run, set_champion, promote_version, promote_run,
  promote_in, promote_newest,
}

find_version_sound :
    (run_id : String) (versions : List ModelVersion) (v : ModelVersion)
    → find_version run_id versions ≡ some v
    → Memᴰ v versions × (v.run_id ≡ run_id)
unfolding find_version
find_version_sound run_id [] v h = grind (arith, h)
find_version_sound run_id (x ∷ xs) v h = elim (Bool-cases (x.run_id == run_id)) [
  | inl e ↦
      here e (subst (λ (b : Bool). (if b then some x else find_version run_id xs) ≡ some v) e h)
  | inr e ↦
      let (m, same) =
        find_version_sound run_id xs v
          (subst (λ (b : Bool). (if b then some x else find_version run_id xs) ≡ some v) e h) in
      (tail m, same)
]
  where
    here : (x.run_id == run_id) ≡ true → some x ≡ some v → Memᴰ v (x ∷ xs) × (v.run_id ≡ run_id)
    here e same = (head (grind (arith, same)), grind (arith, same, e))

-- No version of the list is of the run.
find_version-none :
    (run_id : String) (versions : List ModelVersion)
    → find_version run_id versions ≡ none
    → All (λ (v : ModelVersion). v.run_id ≢ run_id) versions
unfolding find_version
find_version-none run_id [] h = tt
find_version-none run_id (x ∷ xs) h = elim (Bool-cases (x.run_id == run_id)) [
  | inl e ↦
      absurd
        (found (subst (λ (b : Bool). (if b then some x else find_version run_id xs) ≡ none) e h))
  | inr e ↦ (
    λ same. grind (arith, e, same),
    find_version-none run_id xs
        (subst (λ (b : Bool). (if b then some x else find_version run_id xs) ≡ none) e h),
  )
]
  where
    found : some x ≡ none → ⊥
    found h' = ground (arith, h')

first_run-none : (runs : List Run) → first_run runs ≡ none → runs ≡ []
unfolding first_run
first_run-none [] h = refl
first_run-none (x ∷ xs) h = grind (arith, h)

first_run-cons :
    (runs : List Run) (latest : Run)
    → first_run runs ≡ some latest
    → (older : List Run) × (runs ≡ latest ∷ older)
unfolding first_run
first_run-cons [] latest h = grind (arith, h)
first_run-cons (x ∷ xs) latest h = (xs, grind (arith, h))

module _ (client : Client) (formatted : Value → Result String) where
  -- What the script finds.
  abbrev Searched : String → List Run → Type 0
  Searched experiment runs =
      (client.get_experiment ≡ ok (some experiment))
      × (client.search_runs experiment catboost_query ≡ ok runs)

  -- The version is a registered one of the newest finished CatBoost run.
  abbrev pub IsOfNewest : ModelVersion → Type 0
  IsOfNewest v =
      (experiment : String) × (runs : List Run) × (latest : Run) × (versions : List ModelVersion)
      × Searched experiment runs
      × IsNewestOf "catboost_baseline" runs latest
      × IsFinished latest
      × (client.search_model_versions ≡ ok versions)
      × Memᴰ v versions
      × (v.run_id ≡ latest.run_id)

  -- Why the script raises what it raises.
  pub data Refused (alias : Alias) : Error → Type 0 where
    no_answer : (e : Error) → client.get_experiment ≡ err e → Refused alias e
    no_experiment :
        client.get_experiment ≡ ok none
        → Refused alias (value_error "Experiment not found: credit-scoring")
    no_search :
        (e : Error) (experiment : String)
        → client.get_experiment ≡ ok (some experiment)
        → client.search_runs experiment catboost_query ≡ err e
        → Refused alias e
    no_runs :
        (experiment : String)
        → Searched experiment []
        → Refused alias (value_error "No finished runs found for catboost_baseline")
    no_versions : (e : Error) → client.search_model_versions ≡ err e → Refused alias e
    not_registered :
        (experiment : String) (latest : Run) (older : List Run) (versions : List ModelVersion)
        → Searched experiment (latest ∷ older)
        → client.search_model_versions ≡ ok versions
        → All (λ (v : ModelVersion). v.run_id ≢ latest.run_id) versions
        → Refused alias
            (value_error ("No registered model version found for run_id=" <> latest.run_id))
    not_set :
        (e : Error) (v : ModelVersion)
        → IsOfNewest v
        → client.set_alias alias v ≡ err e
        → Refused alias e

  -- How a call ends: it raises for such a reason and the alias stays, or the alias moves to such a version.
  abbrev pub Ends : Alias → Result (Unit {0}) × Alias → Type 0
  Ends alias o =
      ((e : Error) × (o ≡ (err e, alias)) × Refused alias e)
      ⊎ ((v : ModelVersion) × (o.1 ≡ some v) × IsOfNewest v)

  unfoldable pub Moves : Exec Alias (Unit {0}) → Type 0
  Moves m = (alias : Alias) → Ends alias (m alias)

  abbrev Refuses : Error → Type 0
  Refuses e = (alias : Alias) → Refused alias e

  Moves-or_raise :
      {A : Type 0} (o : Option A) (e : Error) (k : A → Exec Alias (Unit {0}))
      → (o ≡ none → Refuses e)
      → ((a : A) → o ≡ some a → Moves (k a))
      → Moves (or_raise o e >>= k)
  unfolding Moves
  Moves-or_raise none e k absent h alias = inl (e, refl, absent refl alias)
  Moves-or_raise (some a) e k absent h alias = h a refl alias

  Moves-found :
      {A B : Type 0} (r : Result A) (f : A → Option B) (e : Error) (k : B → Exec Alias (Unit {0}))
      → ((x : Error) → r ≡ err x → Refuses x)
      → ((a : A) → r ≡ ok a → f a ≡ none → Refuses e)
      → ((a : A) (b : B) → r ≡ ok a → f a ≡ some b → Moves (k b))
      → Moves (lift r >>= λ a. (or_raise (f a) e >>= k))
  unfolding Moves
  Moves-found (err x) f e k failed absent h alias = inl (x, refl, failed x refl alias)
  Moves-found (ok a) f e k failed absent h alias =
      Moves-or_raise (f a) e k (absent a refl) (λ b eb. h a b refl eb) alias

  -- What is left of `main` after the call that sets the alias.
  Moves-set :
      (v : ModelVersion) (roc_auc : Value)
      → IsOfNewest v
      → Moves (promote_version client formatted roc_auc v)
  unfolding promote_version set_champion Moves
  Moves-set v roc_auc newest alias = go (client.set_alias alias v) (formatted roc_auc) refl
    where
      end_of : Result (Unit {0}) → Result String → Result (Unit {0}) × Alias
      end_of set shown =
          let (r, a) = elim set as (λ _. Result (Unit {0}) × Alias) [
            | err e ↦ (err e, alias)
            | ok u ↦ (ok tt, some v)
          ] in
          elim r [ ok u ↦ (lift shown >>= λ text. pure tt) a | err e ↦ (err e, a) ]

      go :
          (set : Result (Unit {0})) (shown : Result String)
          → client.set_alias alias v ≡ set
          → Ends alias (end_of set shown)
      go (err e) shown h = inl (e, refl, not_set e v newest h)
      go (ok u) (ok text) h = inr (v, refl, newest)
      go (ok u) (err e) h = inr (v, refl, newest)

  module _ (search : IsSearch client.search_runs) where
    Moves-run :
        (experiment : String) (latest : Run) (older : List Run)
        → Searched experiment (latest ∷ older)
        → Moves (promote_run client formatted latest)
    unfolding promote_run catboost_query
    Moves-run experiment latest older found =
        let runs = latest ∷ older in
        let sorted = search.ordered experiment catboost_query runs refl found.1 in
        let (finished, named, (value, measured)) =
          (search.measured_catboost experiment catboost_query runs refl found.1).0 in
        Moves-or_raise (Json.get "roc_auc" latest.metrics) (key_error "roc_auc") _
          (λ unmeasured. absurd (grind (arith, unmeasured, measured)))
          (λ roc_auc em.
            Moves-found client.search_model_versions (find_version latest.run_id)
              (value_error ("No registered model version found for run_id=" <> latest.run_id))
              (promote_version client formatted roc_auc) (λ e ev alias. no_versions e ev)
              (λ versions ev es alias.
                not_registered experiment latest older versions found ev
                  (find_version-none latest.run_id versions es))
              (λ versions v ev es.
                let (m, same) = find_version_sound latest.run_id versions v es in
                Moves-set v roc_auc (
                  experiment,
                  runs,
                  latest,
                  versions,
                  found,
                  (head refl, named, λ other mo eo. first-newest latest other older sorted mo),
                  finished,
                  ev,
                  m,
                  same,
                )))

    promote_newest-Moves : Moves (promote_newest client formatted)
    unfolding promote_newest promote_in promote_run
    promote_newest-Moves =
        Moves-found client.get_experiment (λ found. found)
          (value_error "Experiment not found: credit-scoring") (promote_in client formatted)
          (λ e h alias. no_answer e h) (λ found h h' alias. no_experiment (h ∙ ap ok h'))
          (λ found experiment ef ee.
            Moves-found (client.search_runs experiment catboost_query) first_run
              (value_error "No finished runs found for catboost_baseline")
              (promote_run client formatted) (λ e h alias. no_search e experiment (ef ∙ ap ok ee) h)
              (λ runs h h' alias.
                no_runs experiment (ef ∙ ap ok ee, h ∙ ap ok (first_run-none runs h')))
              (λ runs latest er el.
                let (older, eo) = first_run-cons runs latest el in
                Moves-run experiment latest older (ef ∙ ap ok ee, er ∙ ap ok eo)))

    pub promote_newest-Ends : (alias : Alias) → Ends alias (promote_newest client formatted alias)
    unfolding Moves
    promote_newest-Ends = promote_newest-Moves
