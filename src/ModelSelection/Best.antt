-- ===== src/ModelSelection/Best.antt =====
-- src/training/select_best_model.py: which run is logged as the best.
use mathlib.Core.List.{Memᴰ}
use mathlib.Core.List.Memᴰ.{head, cases_cons}
use credit_scoring_mlops.Prelude.{
  ◌≤◌, String, ◌≡◌, refl, sym, ap, ◌∙◌, subst, Bool, true, false, Option, some, List, [], ◌∷◌,
  contains, string_eq, inl, inr,
}
use credit_scoring_mlops.Prelude.Sorting.{IsSorted}
use credit_scoring_mlops.Json.{Value}
use credit_scoring_mlops.Exec.{Result, ok, err}
use credit_scoring_mlops.Mlflow.{Run, supported, compared}
use credit_scoring_mlops.Mlflow.Search.{All-Memᴰ}
use credit_scoring_mlops.ModelSelection.{
  Row, Logged, Frames, Client, row_of, rows_of, logged_row, log_best, compare_rows, measured_query,
  select_in, select_from, select_best_model,
}
use credit_scoring_mlops.ModelSelection.Rows.{rows_of-has, rows_of-from}
use credit_scoring_mlops.ModelSelection.Firsts.{
  firsts, NotNewer, firsts-Memᴰ, firsts-newest, firsts_complete,
}

-- The run's value for the metric.
abbrev pub roc_auc_of : Run → Value
roc_auc_of run = (compared "" run).roc_auc

-- A run of the list, of a supported name, that no run of the name is newer than.
abbrev pub IsNewest : String → List Run → Run → Type 0
IsNewest name runs run =
    Memᴰ run runs
    × (run.run_name ≡ some name)
    × (contains supported name ≡ true)
    × ((other : Run)
        → Memᴰ other runs
        → other.run_name ≡ some name
        → other.start_time ≤ run.start_time)

abbrev pub Keeps : (List Row → List Row) → Type 0
Keeps by =
    (rows : List Row) (r : Row)
    → (Memᴰ r rows → Memᴰ r (by rows)) × (Memᴰ r (by rows) → Memᴰ r rows)

-- The second row's metric is not above the first's.
abbrev pub NotAbove : (Value → Value → Bool) → Row → Row → Type 0
NotAbove less a b = less a.model.roc_auc b.model.roc_auc ≡ false

module _ (client : Client) (frames : Frames) (less : Value → Value → Bool) where
  abbrev ordered : List Row → List Row
  ordered rows = frames.by_metric (frames.drop_duplicates (frames.by_start_time rows))

  abbrev IsShown : Value → Type 0
  IsShown v = (text : String) × (frames.formatted v ≡ ok text)

  compare_rows-some :
      (rows : List Row) (r : Row)
      → Memᴰ r rows
      → compare_rows client frames rows ≡ log_best client frames (ordered rows)
  unfolding compare_rows
  compare_rows-some [] r m = elim m [ ]
  compare_rows-some (x ∷ xs) r m = refl

  module _ (start_keeps : Keeps frames.by_start_time)
      (start_sorted : (rows : List Row) → IsSorted NotNewer (frames.by_start_time rows))
      (deduplicated : (rows : List Row) → frames.drop_duplicates rows ≡ firsts [] rows)
      (metric_keeps : Keeps frames.by_metric)
      (metric_sorted : (rows : List Row) → IsSorted (NotAbove less) (frames.by_metric rows))
      (irreflexive : (v : Value) → less v v ≡ false)
      (logs : (l : Logged) → client.log l ≡ ok tt) where
    -- A row that is left is of a newest run.
    ordered-IsNewest :
        (runs : List Run) (r : Row)
        → Memᴰ r (ordered (rows_of runs))
        → (run : Run) × (r ≡ row_of r.model.run_name run) × IsNewest r.model.run_name runs run
    unfolding row_of compared
    ordered-IsNewest runs r m =
        let rows = frames.by_start_time (rows_of runs) in
        let m' =
          subst (Memᴰ r) (deduplicated rows) ((metric_keeps (frames.drop_duplicates rows) r).1 m) in
        let (run, (here, e, k, same)) =
          rows_of-from runs r ((start_keeps (rows_of runs) r).1 (firsts-Memᴰ [] rows r m')) in
        (
          run,
          same,
          (
            here,
            e,
            k,
            λ other mo eo.
                subst (λ (q : Row). other.start_time ≤ q.start_time) same
                  (firsts-newest [] rows r (row_of r.model.run_name other)
                    (start_sorted (rows_of runs)) m'
                    ((start_keeps (rows_of runs) (row_of r.model.run_name other)).0
                      (rows_of-has runs other r.model.run_name mo eo k))
                    refl),
          ),
        )

    -- A supported name of a run is left.
    ordered-has :
        (runs : List Run) (run : Run) (name : String)
        → Memᴰ run runs
        → run.run_name ≡ some name
        → contains supported name ≡ true
        → (r : Row) × (Memᴰ r (ordered (rows_of runs))) × (r.model.run_name ≡ name)
    unfolding row_of compared
    ordered-has runs run name m e k =
        let rows = frames.by_start_time (rows_of runs) in
        let (r, m', e') =
          firsts_complete [] rows (row_of name run)
            ((start_keeps (rows_of runs) (row_of name run)).0 (rows_of-has runs run name m e k))
            refl in
        (
          r,
          (metric_keeps (frames.drop_duplicates rows) r).0
              (subst (Memᴰ r) (sym (deduplicated rows)) m'),
          e',
        )

    -- The script gets to the data frame.
    select_best_model-rows :
        (experiment : String) (runs : List Run) (one : Run) (name : String)
        → client.get_experiment ≡ ok (some experiment)
        → client.search_runs experiment measured_query ≡ ok runs
        → Memᴰ one runs
        → one.run_name ≡ some name
        → contains supported name ≡ true
        → select_best_model client frames ≡ log_best client frames (ordered (rows_of runs))
    unfolding select_best_model select_in select_from
    select_best_model-rows experiment [] one name found listed m e k = elim m [ ]
    select_best_model-rows experiment (x ∷ xs) one name found listed m e k =
        ap
          (λ (r : Result (Option String)). elim r [
            | err e' ↦ err e'
            | ok o ↦ select_in client frames o
          ])
          found
        ∙ ap
            (λ (r : Result (List Run)). elim r [
              | err e' ↦ err e'
              | ok l ↦ select_from client frames l
            ])
            listed
        ∙ compare_rows-some (rows_of (x ∷ xs)) (row_of name one)
            (rows_of-has (x ∷ xs) one name m e k)

    log_best-first :
        (rows : List Row) (r : Row)
        → Memᴰ r rows
        → IsSorted (NotAbove less) rows
        → ((other : Row) → Memᴰ other rows → IsShown other.model.roc_auc)
        → (best : Row) × (log_best client frames rows ≡ ok (logged_row best))
          × (Memᴰ best rows)
          × ((other : Row) → Memᴰ other rows → NotAbove less best other)
    unfolding log_best
    log_best-first [] r m s shown = elim m [ ]
    log_best-first (best ∷ rest) r m s shown = (
      best,
      rw (log_best, (shown best (head refl)).1, logs (logged_row best)) refl,
      head refl,
      λ other mo. elim (cases_cons mo) [
        | inl same ↦ subst (NotAbove less best) (sym same) (irreflexive best.model.roc_auc)
        | inr mo' ↦ All-Memᴰ (NotAbove less best) rest s.0 other mo'
      ],
    )

    -- If the experiment and its runs are found, one of them has a supported name, the metric of each can be
    -- printed and the log is accepted, and the data frame sorts and drops duplicates as documented, then the
    -- script logs a run that is the newest of its name; and each supported name that a run has also has a newest
    -- run whose metric is not above the logged one.
    pub select_best_model-IsBest :
        (experiment : String) (runs : List Run) (one : Run) (name : String)
        → client.get_experiment ≡ ok (some experiment)
        → client.search_runs experiment measured_query ≡ ok runs
        → ((run : Run) → Memᴰ run runs → IsShown (roc_auc_of run))
        → Memᴰ one runs
        → one.run_name ≡ some name
        → contains supported name ≡ true
        → (logged : Logged) × (best : Run) × (select_best_model client frames ≡ ok logged)
          × (logged.best_run_id ≡ best.run_id)
          × (logged.best_roc_auc ≡ roc_auc_of best)
          × IsNewest logged.best_run_name runs best
          × ((other : String) (run : Run)
              → Memᴰ run runs
              → run.run_name ≡ some other
              → contains supported other ≡ true
              → (rival : Run) × IsNewest other runs rival
                × (less logged.best_roc_auc (roc_auc_of rival) ≡ false))
    unfolding row_of compared logged_row select_best_model
    select_best_model-IsBest experiment runs one name found listed shown mo eo ko =
        let all = frames.by_start_time (rows_of runs) in
        let rows = ordered (rows_of runs) in
        let (first, mf, ef) = ordered-has runs one name mo eo ko in
        let (best, logs_best, mb, top) =
          log_best-first rows first mf (metric_sorted (frames.drop_duplicates all)) (λ r m.
            let (run, same, newest) = ordered-IsNewest runs r m in
            subst (λ (q : Row). IsShown q.model.roc_auc) (sym same) (shown run newest.0)) in
        let (run, same, newest) = ordered-IsNewest runs best mb in
        (
          logged_row best,
          run,
          select_best_model-rows experiment runs one name found listed mo eo ko ∙ logs_best,
          ap (λ (q : Row). q.model.run_id) same,
          ap (λ (q : Row). q.model.roc_auc) same,
          newest,
          λ other run' m' e' k'.
              let (r, mr, er) = ordered-has runs run' other m' e' k' in
              let (rival, same', newest') = ordered-IsNewest runs r mr in
              (
                rival,
                subst (λ (n : String). IsNewest n runs rival) er newest',
                subst (λ (q : Row). NotAbove less best q) same' (top r mr),
              ),
        )
