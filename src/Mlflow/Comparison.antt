-- ===== src/Mlflow/Comparison.antt =====
-- ai_engineering/tools/mlflow_tools.py: what `compare_latest_models` lists, and in which order.
use credit_scoring_mlops.Prelude.{
  ◌+◌, String, ◌≡◌, refl, ap, ◌∷◌, Option, none, some, All, sym, subst, ◌∙◌, Bool, false, List, [],
  arith, string_eq, count_if,
}
use credit_scoring_mlops.Prelude.Sorting.{sort_by, count_if-sort_by, sort_by-IsSorted, IsSorted}
use credit_scoring_mlops.Exec.{Result, ok, err}
use credit_scoring_mlops.Mlflow.{
  Run, Mlflow, ComparedModel, latest_models, better, compare_latest_models, get_latest_model_runs,
  found_runs, finished_query, sort_key,
}
use credit_scoring_mlops.Mlflow.Search.{NotNewer, IsFinished, IsSearch}
use credit_scoring_mlops.Mlflow.Newest.{
  hit, newest, NewestRow, newest-NewestRow, latest_models-counted,
}

-- No row is above one before it.
abbrev pub NotAbove : Mlflow → ComparedModel → ComparedModel → Type 0
NotAbove mlflow a b = mlflow.less (sort_key a) (sort_key b) ≡ false

sorted_models :
    (mlflow : Mlflow) (runs : List Run) (rows : List ComparedModel)
    → get_latest_model_runs mlflow 100 ≡ ok runs
    → compare_latest_models mlflow ≡ ok rows
    → rows ≡ sort_by (better mlflow) (latest_models runs [])
unfolding compare_latest_models
sorted_models mlflow runs rows h h' = grind (arith, h, h')

found_runs-search :
    (mlflow : Mlflow) (runs : List Run) (o : Option String)
    → found_runs mlflow 100 o ≡ ok runs
    → IsSearch mlflow.search_runs
    → IsSorted NotNewer runs × All IsFinished runs
unfolding found_runs finished_query
found_runs-search mlflow [] o h search = (tt, tt)
found_runs-search mlflow (run ∷ runs) none h search = absurd (grind (arith, h))
found_runs-search mlflow (run ∷ runs) (some experiment) h search = (
  search.ordered experiment (finished_query 100) (run ∷ runs) refl h,
  search.finished experiment (finished_query 100) (run ∷ runs) refl h,
)

found-search :
    (mlflow : Mlflow) (runs : List Run) (r : Result (Option String))
    → mlflow.get_experiment ≡ r
    → get_latest_model_runs mlflow 100 ≡ ok runs
    → IsSearch mlflow.search_runs
    → IsSorted NotNewer runs × All IsFinished runs
unfolding get_latest_model_runs
found-search mlflow runs (err e) g h search = absurd (grind (arith, g, h))
found-search mlflow runs (ok o) g h search =
    found_runs-search mlflow runs o (grind (arith, g, h)) search

-- If the runs were found by a search that sorts and filters as MLflow documents, and `<` orders their ROC AUCs, a missing one
-- being lowest, then the comparison is sorted from the best ROC AUC to the worst, and it has, once each and nothing else, for
-- each supported model family the row of the newest run found, which is finished, or none if no run found is of the family.
pub compare_latest_models-exact :
    (mlflow : Mlflow) (runs : List Run) (rows : List ComparedModel)
    → get_latest_model_runs mlflow 100 ≡ ok runs
    → compare_latest_models mlflow ≡ ok rows
    → IsSearch mlflow.search_runs
    → ((a b c : ComparedModel) → NotAbove mlflow a b → NotAbove mlflow b c → NotAbove mlflow a c)
    → ((a b : ComparedModel) → better mlflow a b ≡ false → NotAbove mlflow b a)
    → (catboost lightgbm xgboost : Option ComparedModel) × NewestRow "catboost_baseline" runs
        catboost
      × NewestRow "lightgbm_baseline" runs lightgbm
      × NewestRow "xgboost_baseline" runs xgboost
      × IsSorted (NotAbove mlflow) rows
      × ((q : ComparedModel → Bool)
          → count_if q rows ≡ hit q catboost + (hit q lightgbm + hit q xgboost))
unfolding better
compare_latest_models-exact mlflow runs rows h h' search trans other =
    let e = sorted_models mlflow runs rows h h' in
    let (sorted, finished) = found-search mlflow runs mlflow.get_experiment refl h search in
    (
      newest "catboost_baseline" runs,
      newest "lightgbm_baseline" runs,
      newest "xgboost_baseline" runs,
      newest-NewestRow "catboost_baseline" runs sorted finished,
      newest-NewestRow "lightgbm_baseline" runs sorted finished,
      newest-NewestRow "xgboost_baseline" runs sorted finished,
      subst (IsSorted (NotAbove mlflow)) (sym e) (
          sort_by-IsSorted (better mlflow) (NotAbove mlflow) trans
            (λ a b above. ground (arith, above)) other (latest_models runs [])),
      λ q.
          ap (count_if q) e
          ∙ count_if-sort_by (better mlflow) q (latest_models runs [])
          ∙ latest_models-counted q runs,
    )
