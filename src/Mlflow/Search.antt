-- ===== src/Mlflow/Search.antt =====
-- What MLflow documents of the search of runs, and the newest run of a name. The queries are those of
-- ai_engineering/tools/mlflow_tools.py and src/training/promote_model.py.
use mathlib.Core.List.{Memᴰ}
use mathlib.Core.List.Memᴰ.{head, tail, cases_cons}
use credit_scoring_mlops.Prelude.{
  ◌≤◌, String, ◌≡◌, sym, ap, subst, some, List, [], ◌∷◌, arith, inl, inr, All,
}
use credit_scoring_mlops.Prelude.Sorting.{IsSorted}
use credit_scoring_mlops.Json
use credit_scoring_mlops.Json.{Value}
use credit_scoring_mlops.Exec.{Result, ok}
use credit_scoring_mlops.Mlflow.{Run, Query}

-- The second run did not start later.
abbrev pub NotNewer : Run → Run → Type 0
NotNewer a b = b.start_time ≤ a.start_time

abbrev pub IsFinished : Run → Type 0
IsFinished run = run.status ≡ "FINISHED"

-- A finished CatBoost run with the metric.
abbrev pub IsMeasuredCatboost : Run → Type 0
IsMeasuredCatboost run =
    IsFinished run
    × (run.run_name ≡ some "catboost_baseline")
    × ((roc_auc : Value) × (Json.get "roc_auc" run.metrics ≡ some roc_auc))

-- What the documentation says of `search_runs`: the order, and the filters that the code asks for.
pub record IsSearch (search : String → Query → Result (List Run)) : Type 0 where
  pub ordered :
      (experiment : String) (query : Query) (runs : List Run)
      → query.order_by ≡ "attributes.start_time DESC" ∷ []
      → search experiment query ≡ ok runs
      → IsSorted NotNewer runs
  pub finished :
      (experiment : String) (query : Query) (runs : List Run)
      → query.filter_string ≡ "attributes.status = 'FINISHED'"
      → search experiment query ≡ ok runs
      → All IsFinished runs
  pub measured_catboost :
      (experiment : String) (query : Query) (runs : List Run)
      → query.filter_string
        ≡ "attributes.status = 'FINISHED' and tags.mlflow.runName = 'catboost_baseline' and metrics.roc_auc > 0"
      → search experiment query ≡ ok runs
      → All IsMeasuredCatboost runs

-- A run of the list with the name, that no other with the name is newer than.
abbrev pub IsNewestOf : String → List Run → Run → Type 0
IsNewestOf name runs run =
    Memᴰ run runs
    × (run.run_name ≡ some name)
    × ((other : Run)
        → Memᴰ other runs
        → other.run_name ≡ some name
        → other.start_time ≤ run.start_time)

pub All-Memᴰ : {A : Type 0} (P : A → Type 0) (xs : List A) → All P xs → (x : A) → Memᴰ x xs → P x
All-Memᴰ P [] h x m = elim m [ ]
All-Memᴰ P (y ∷ ys) h x (head e) = subst P (sym e) h.0
All-Memᴰ P (y ∷ ys) h x (tail m) = All-Memᴰ P ys h.1 x m

-- In a sorted list the first run is not older than any.
pub first-newest :
    (run other : Run) (runs : List Run)
    → IsSorted NotNewer (run ∷ runs)
    → Memᴰ other (run ∷ runs)
    → other.start_time ≤ run.start_time
first-newest run other runs sorted m = elim (cases_cons m) [
  | inl same ↦ omega (arith, ap (λ (r : Run). r.start_time) same)
  | inr m' ↦ All-Memᴰ (NotNewer run) runs sorted.0 other m'
]
