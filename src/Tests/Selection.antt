-- ===== src/Tests/Selection.antt =====
-- The theorems on the selection and the promotion of a model, applied to three runs of two names.
use mathlib.Core.List.{Memᴰ}
use mathlib.Core.List.Memᴰ.{head, tail}
use credit_scoring_mlops.Prelude.{
  ℕ, String, ◌≡◌, refl, Bool, true, false, not, none, some, List, [], ◌∷◌, ltb, contains, string_eq,
  nat_eq, arith, ◌==◌, if◌then◌else◌,
}
use credit_scoring_mlops.Prelude.Sorting.{IsSorted, sort_by, sort_by-IsSorted, Memᴰ-sort_by}
use credit_scoring_mlops.Json
use credit_scoring_mlops.Json.{Value, end, field}
use credit_scoring_mlops.Exec.{ok}
use credit_scoring_mlops.Mlflow.{Run, supported}
use credit_scoring_mlops.ModelSelection.{
  Row, Logged, Frames, Client, select_best_model, promote_newest, find_version,
}
use credit_scoring_mlops.ModelSelection.Firsts.{firsts, NotNewer}
use credit_scoring_mlops.Promotion.{ModelVersion}
use credit_scoring_mlops.ModelSelection.Champion.{Ends, promote_newest-Ends}
use credit_scoring_mlops.Mlflow.Search.{IsSearch}
use credit_scoring_mlops.Tests.Searches.{constant-IsSearch}
use credit_scoring_mlops.ModelSelection.Best.{
  IsNewest, NotAbove, roc_auc_of, select_best_model-IsBest,
}

abbrev finished : String → String → ℕ → String → Run
finished run_id name start_time roc_auc = record {
  run_id = run_id;
  run_name = some name;
  status = "FINISHED";
  start_time = start_time;
  metrics = field "roc_auc" (Value.float roc_auc) end;
  params = end;
}

abbrev runs : List Run
runs =
    finished "r3" "lightgbm_baseline" 9 "0.9"
    ∷ finished "r2" "catboost_baseline" 8 "0.8"
    ∷ finished "r1" "catboost_baseline" 7 "0.9"
    ∷ []

rank : Value → ℕ
rank v = elim v [ Value.float s ↦ (if s == "0.9" then 9 else 8) | _ ↦ 0 ]

abbrev less : Value → Value → Bool
less a b = ltb (rank a) (rank b)

abbrev newer : Row → Row → Bool
newer a b = not (ltb a.start_time b.start_time)

abbrev higher : Row → Row → Bool
higher a b = not (less a.model.roc_auc b.model.roc_auc)

abbrev frames : Frames
frames = record {
  by_start_time = sort_by newer;
  drop_duplicates = firsts [];
  by_metric = sort_by higher;
  formatted = λ v. ok "0.9000";
}

abbrev versions : List ModelVersion
versions = record { version = "1"; run_id = "r1" } ∷ record { version = "2"; run_id = "r2" } ∷ []

abbrev client : Client
client = record {
  get_experiment = ok (some "1");
  search_runs = λ e q. ok runs;
  log = λ l. ok tt;
  search_model_versions = ok versions;
  set_alias = λ a v. ok tt;
}

by_start-IsSorted : (rows : List Row) → IsSorted NotNewer (sort_by newer rows)
by_start-IsSorted =
    sort_by-IsSorted newer NotNewer (λ a b c h h'. omega (arith, h, h'))
      (λ a b h. ground (arith, h)) (λ a b h. ground (arith, h))

by_metric-IsSorted : (rows : List Row) → IsSorted (NotAbove less) (sort_by higher rows)
by_metric-IsSorted =
    sort_by-IsSorted higher (NotAbove less) (λ a b c h h'. ground (arith, h, h'))
      (λ a b h. ground (arith, h)) (λ a b h. ground (arith, h))

select_best_model-IsBest_example :
    (logged : Logged) × (best : Run) × (select_best_model client frames ≡ ok logged)
    × (logged.best_run_id ≡ best.run_id)
    × (logged.best_roc_auc ≡ roc_auc_of best)
    × IsNewest logged.best_run_name runs best
    × ((other : String) (run : Run)
        → Memᴰ run runs
        → run.run_name ≡ some other
        → contains supported other ≡ true
        → (rival : Run) × IsNewest other runs rival
          × (less logged.best_roc_auc (roc_auc_of rival) ≡ false))
unfolding string_eq
select_best_model-IsBest_example =
    select_best_model-IsBest client frames less (Memᴰ-sort_by newer) by_start-IsSorted
      (λ rows. refl) (Memᴰ-sort_by higher) by_metric-IsSorted (λ v. ground arith) (λ l. refl) "1"
      runs (finished "r1" "catboost_baseline" 7 "0.9") "catboost_baseline" refl refl
      (λ run m. ("0.9000", refl)) (tail (tail (head refl))) refl refl

abbrev catboost_runs : List Run
catboost_runs =
    finished "r2" "catboost_baseline" 8 "0.8" ∷ finished "r1" "catboost_baseline" 7 "0.9" ∷ []

abbrev catboost_client : Client
catboost_client = record client { search_runs = λ e q. ok catboost_runs }

catboost_client-IsSearch : IsSearch catboost_client.search_runs
unfolding Json.get string_eq
catboost_client-IsSearch =
    constant-IsSearch catboost_runs ((omega arith, tt), (tt, tt))
      ((refl, refl, (Value.float "0.8", refl)), ((refl, refl, (Value.float "0.9", refl)), tt))

promote_newest-Ends_example :
    Ends catboost_client
      (λ v. ok "0.8000")
      none
      (promote_newest catboost_client (λ v. ok "0.8000") none)
promote_newest-Ends_example =
    promote_newest-Ends catboost_client (λ v. ok "0.8000") catboost_client-IsSearch none

-- There the alias moves to the version of the newest run.
promotes_second :
    (promote_newest catboost_client (λ v. ok "0.8000") none).1
    ≡ some (record { version = "2"; run_id = "r2" })
unfolding promote_newest find_version Json.get string_eq
promotes_second = refl
