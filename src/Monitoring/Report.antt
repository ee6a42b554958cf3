-- ===== src/Monitoring/Report.antt =====
-- src/monitoring/drift_report.py: a drift report as data of its own, its JSON, and what `save_retrain_signal` reads in
-- that JSON.
use credit_scoring_mlops.Prelude.{
  String, ◌≡◌, refl, sym, ap, ◌∙◌, Bool, true, false, Option, none, some, List, [], ◌∷◌, ◌++◌,
  string_eq, if◌then◌else◌, arith,
}
use credit_scoring_mlops.Json
use credit_scoring_mlops.Json.{Value, Fields, end, field, Items, nil, cons, truthy, is_true}
use credit_scoring_mlops.Json.Access.{get_default, as_dict, has_key, item, iterate}
use credit_scoring_mlops.Exec.{ok}
use credit_scoring_mlops.Monitoring.{
  drifted_columns, dataset_drift, column_drift, column_drift_of, add_metric, add_metrics,
}
use mathlib.Core.List.{append-nil, append_assoc}

-- A metric of a report: whether the dataset drifted, and which columns were tested and did.
pub record Metric : Type 0 where
  pub dataset : Option Bool
  pub columns : Option (List (String × Bool))

-- Whether the dataset drifted: the last metric that says so decides, and without any it did not.
unfoldable pub has_drifted : Bool → List Metric → Bool
has_drifted before [] = before
has_drifted before (m ∷ ms) = elim m.dataset [
  | none ↦ has_drifted before ms
  | some drift ↦ has_drifted drift ms
]

drifted_of : List (String × Bool) → List String
drifted_of [] = []
drifted_of ((name, drift) ∷ columns) =
    let rest = drifted_of columns in if drift then name ∷ rest else rest

-- The columns that drifted, in the order of the report.
unfoldable pub drifted_names : List Metric → List String
unfolding drifted_of
drifted_names [] = []
drifted_names (m ∷ ms) = elim m.columns [
  | none ↦ drifted_names ms
  | some columns ↦ drifted_of columns ++ drifted_names ms
]

columns_json : List (String × Bool) → Fields
columns_json [] = end
columns_json ((name, drift) ∷ columns) =
    field name (Value.obj (field "drift_detected" (Value.bool drift) end)) (columns_json columns)

with_columns : Option (List (String × Bool)) → Fields
unfolding columns_json
with_columns none = end
with_columns (some columns) = field "drift_by_columns" (Value.obj (columns_json columns)) end

with_dataset : Option Bool → Fields → Fields
with_dataset none d = d
with_dataset (some drift) d = field "dataset_drift" (Value.bool drift) d

metric_json : Metric → Value
unfolding with_columns with_dataset
metric_json m =
    Value.obj (field "result" (Value.obj (with_dataset m.dataset (with_columns m.columns))) end)

unfoldable pub metrics_json : List Metric → Items
unfolding metric_json
metrics_json [] = nil
metrics_json (m ∷ ms) = cons (metric_json m) (metrics_json ms)

-- The dict of a report.
unfoldable pub report_json : List Metric → Fields
unfolding metrics_json
report_json ms = field "metrics" (Value.arr (metrics_json ms)) end

drifted_columns-json :
    (columns : List (String × Bool)) (found : List String)
    → drifted_columns (columns_json columns) found ≡ ok (found ++ drifted_of columns)
unfolding drifted_columns columns_json drifted_of as_dict is_true Json.get string_eq
drifted_columns-json [] found = ap ok (sym (append-nil found))
drifted_columns-json ((name, true) ∷ columns) found =
    drifted_columns-json columns (found ++ name ∷ [])
    ∙ ap ok (append_assoc found (name ∷ []) (drifted_of columns))
drifted_columns-json ((name, false) ∷ columns) found = drifted_columns-json columns found

abbrev read_dataset : Option Bool → Bool → Bool
read_dataset none before = before
read_dataset (some drift) before = drift

abbrev read_columns : Option (List (String × Bool)) → List String
read_columns none = []
read_columns (some columns) = drifted_of columns

dataset_drift-json :
    (dataset : Option Bool) (columns : Option (List (String × Bool))) (before : Bool)
    → dataset_drift (Value.obj (with_dataset dataset (with_columns columns))) before
      ≡ ok (read_dataset dataset before)
unfolding dataset_drift with_dataset with_columns has_key item Json.get truthy string_eq
dataset_drift-json none none before = refl
dataset_drift-json none (some columns) before = refl
dataset_drift-json (some true) columns before = refl
dataset_drift-json (some false) columns before = refl

column_drift-json :
    (dataset : Option Bool) (columns : Option (List (String × Bool))) (found : List String)
    → column_drift (Value.obj (with_dataset dataset (with_columns columns))) found
      ≡ ok (found ++ read_columns columns)
unfolding column_drift column_drift_of with_dataset with_columns has_key item Json.get string_eq
column_drift-json none none found = ap ok (sym (append-nil found))
column_drift-json (some drift) none found = ap ok (sym (append-nil found))
column_drift-json none (some columns) found = drifted_columns-json columns found
column_drift-json (some drift) (some columns) found = drifted_columns-json columns found

add_metric-json :
    (m : Metric) (before : Bool) (found : List String)
    → add_metric (metric_json m) (before, found)
      ≡ ok (read_dataset m.dataset before, found ++ read_columns m.columns)
unfolding add_metric metric_json as_dict Json.get string_eq
add_metric-json m before found =
    rw
      (
        add_metric,
        dataset_drift-json m.dataset m.columns before,
        column_drift-json m.dataset m.columns found,
      )
      refl

add_metrics-step :
    (m : Metric) (ms : List Metric) (before : Bool) (found : List String)
    → add_metrics (cons (metric_json m) (metrics_json ms)) (before, found)
      ≡ add_metrics
          (metrics_json ms)
          (read_dataset m.dataset before, found ++ read_columns m.columns)
unfolding add_metrics
add_metrics-step m ms before found = rw (add_metrics, add_metric-json m before found) refl

has_drifted-step :
    (m : Metric) (ms : List Metric) (before : Bool)
    → has_drifted (read_dataset m.dataset before) ms ≡ has_drifted before (m ∷ ms)
unfolding has_drifted
has_drifted-step m ms before = ground arith

drifted_names-step :
    (m : Metric) (ms : List Metric)
    → read_columns m.columns ++ drifted_names ms ≡ drifted_names (m ∷ ms)
unfolding drifted_names
drifted_names-step m ms = ground arith

-- The loop over the metrics reads whether the dataset drifted, and the columns that did.
pub add_metrics-json :
    (ms : List Metric) (before : Bool) (found : List String)
    → add_metrics (metrics_json ms) (before, found)
      ≡ ok (has_drifted before ms, found ++ drifted_names ms)
unfolding metrics_json add_metrics has_drifted drifted_names
add_metrics-json [] before found = ap (λ (l : List String). ok (before, l)) (sym (append-nil found))
add_metrics-json (m ∷ ms) before found =
    add_metrics-step m ms before found
    ∙ add_metrics-json ms (read_dataset m.dataset before) (found ++ read_columns m.columns)
    ∙ ap (λ (b : Bool). ok (b, (found ++ read_columns m.columns) ++ drifted_names ms))
        (has_drifted-step m ms before)
    ∙ ap (λ (l : List String). ok (has_drifted before (m ∷ ms), l))
        (append_assoc found (read_columns m.columns) (drifted_names ms)
          ∙ ap (λ (l : List String). found ++ l) (drifted_names-step m ms))

pub report-metrics :
    (ms : List Metric)
    → iterate (get_default "metrics" (Value.arr nil) (report_json ms)) ≡ ok (metrics_json ms)
unfolding report_json iterate Json.get string_eq
report-metrics ms = refl
