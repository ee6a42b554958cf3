-- ===== src/Tests/Searches.antt =====
-- A search of runs that always finds the same ones is as MLflow documents it, if they are sorted finished CatBoost runs.
use credit_scoring_mlops.Prelude.{String, ◌≡◌, subst, List, [], ◌∷◌, arith, All}
use credit_scoring_mlops.Prelude.Sorting.{IsSorted}
use credit_scoring_mlops.Exec.{Result, ok}
use credit_scoring_mlops.Mlflow.{Run, Query}
use credit_scoring_mlops.Mlflow.Search.{IsSearch, NotNewer, IsFinished, IsMeasuredCatboost}

module _ (found : List Run) (sorted : IsSorted NotNewer found)
    (measured : All IsMeasuredCatboost found) where
  abbrev Found : List Run → Type 0
  Found runs = ◌≡◌ {A = Result (List Run)} (ok found) (ok runs)

  same-found : (runs : List Run) → Found runs → found ≡ runs
  same-found runs h = grind (arith, h)

  finished-measured : (runs : List Run) → All IsMeasuredCatboost runs → All IsFinished runs
  finished-measured [] h = tt
  finished-measured (run ∷ runs) h = (h.0.0, finished-measured runs h.1)

  pub constant-IsSearch : IsSearch (λ (e : String) (q : Query). ok found)
  constant-IsSearch = record {
    ordered = λ e q runs h h'. subst (IsSorted NotNewer) (same-found runs h') sorted;
    finished = λ e q runs h h'.
        subst (All IsFinished) (same-found runs h') (finished-measured found measured);
    measured_catboost =
        λ e q runs h h'. subst (All IsMeasuredCatboost) (same-found runs h') measured;
  }
