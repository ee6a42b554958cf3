-- ===== src/Features.antt =====
-- The features of the model: services/api/scoring.py (`build_features`) computes them for one application,
-- src/features/build_features.py (`add_features`) for the rows of the training data, and src/utils/config.py
-- reads the thresholds. A data frame is the list of its rows, with pandas' elementwise operations.
use credit_scoring_mlops.Prelude.{
  ℕ, String, ◌≡◌, Bool, Option, none, some, List, [], ◌∷◌, if◌then◌else◌, arith, refl,
}
use credit_scoring_mlops.Json.{Value, JsonCodec}
use credit_scoring_mlops.Json.Access.{item}
use credit_scoring_mlops.Exec.{value_error, file_not_found, Result, ok, err}
use credit_scoring_mlops.Scoring.{Floats}
use credit_scoring_mlops.CreditApplication.{CreditApplication}

-- `load_feature_config`: the file's text, if there is one
unfoldable pub load_feature_config : JsonCodec → Option String → Result Value
load_feature_config json none = err (file_not_found "Config not found: configs/feature_config.json")
load_feature_config json (some text) = elim (json.loads text) [
  | none ↦ err (value_error (json.decode_message text))
  | some v ↦ ok v
]

module _ (fl : Floats) where
  -- a row of the data frame: the columns of the application, then the new ones
  pub record FeatureRow : Type 0 where
    pub application : CreditApplication fl
    pub credit_amount_per_month : fl.Float
    pub credit_amount_per_age : fl.Float
    pub is_long_term_loan : ℕ
    pub is_high_amount_loan : ℕ

  -- `column >= threshold` of pandas, which raises for a threshold that is no number
  module _ (at_least : fl.Float → Value → Result Bool) where
    as_int : Bool → ℕ
    as_int b = if b then 1 else 0

    flag_of : fl.Float → Result Value → Result ℕ
    unfolding as_int
    flag_of column (err e) = err e
    flag_of column (ok threshold) = elim (at_least column threshold) [
      | err e ↦ err e
      | ok b ↦ ok (as_int b)
    ]

    feature_row : CreditApplication fl → ℕ → ℕ → FeatureRow
    feature_row application long high = record {
      application = application;
      credit_amount_per_month =
          fl.divide application.credit_amount (fl.of_nat application.duration_months);
      credit_amount_per_age = fl.divide application.credit_amount (fl.of_nat application.age);
      is_long_term_loan = long;
      is_high_amount_loan = high;
    }

    -- `build_features`, the one row of its frame
    unfoldable pub build_features : Result Value → CreditApplication fl → Result FeatureRow
    unfolding flag_of feature_row item
    build_features (err e) application = err e
    build_features (ok config) application =
        elim (flag_of (fl.of_nat application.duration_months) (item "long_term_threshold" config)) [
          | err e ↦ err e
          | ok long ↦
              elim (flag_of application.credit_amount (item "high_amount_threshold" config)) [
                | err e ↦ err e
                | ok high ↦ ok (feature_row application long high)
              ]
        ]

    -- `column >= threshold` and `.astype(int)` of a column
    flags_over : List fl.Float → Value → Result (List ℕ)
    unfolding as_int
    flags_over [] threshold = ok []
    flags_over (c ∷ column) threshold = elim (at_least c threshold) [
      | err e ↦ err e
      | ok b ↦ elim (flags_over column threshold) [
        | err e ↦ err e
        | ok flags ↦ ok (as_int b ∷ flags)
      ]
    ]

    flags : List fl.Float → Result Value → Result (List ℕ)
    unfolding flags_over
    flags column (err e) = err e
    flags column (ok threshold) = flags_over column threshold

    -- `a / b` of two columns
    quotients : List fl.Float → List fl.Float → List fl.Float
    quotients (x ∷ xs) (y ∷ ys) = fl.divide x y ∷ quotients xs ys
    quotients _ _ = []

    -- the rows of the frame, from its columns
    rows_of :
        List (CreditApplication fl)
        → List fl.Float
        → List fl.Float
        → List ℕ
        → List ℕ
        → List FeatureRow
    rows_of (a ∷ rows) (m ∷ per_month) (g ∷ per_age) (l ∷ long) (h ∷ high) =
        record {
          application = a;
          credit_amount_per_month = m;
          credit_amount_per_age = g;
          is_long_term_loan = l;
          is_high_amount_loan = h;
        }
        ∷ rows_of rows per_month per_age long high
    rows_of _ _ _ _ _ = []

    durations : List (CreditApplication fl) → List fl.Float
    durations [] = []
    durations (a ∷ rows) = fl.of_nat a.duration_months ∷ durations rows

    amounts : List (CreditApplication fl) → List fl.Float
    amounts [] = []
    amounts (a ∷ rows) = a.credit_amount ∷ amounts rows

    ages : List (CreditApplication fl) → List fl.Float
    ages [] = []
    ages (a ∷ rows) = fl.of_nat a.age ∷ ages rows

    -- the frame with its four new columns
    framed : List (CreditApplication fl) → List ℕ → List ℕ → List FeatureRow
    unfolding quotients rows_of durations amounts ages
    framed rows long high =
        rows_of rows (quotients (amounts rows) (durations rows))
          (quotients (amounts rows) (ages rows)) long high

    -- `add_features`
    unfoldable pub add_features :
        Result Value → List (CreditApplication fl) → Result (List FeatureRow)
    unfolding flags framed durations amounts item
    add_features (err e) rows = err e
    add_features (ok config) rows =
        elim (flags (durations rows) (item "long_term_threshold" config)) [
          | err e ↦ err e
          | ok long ↦ elim (flags (amounts rows) (item "high_amount_threshold" config)) [
            | err e ↦ err e
            | ok high ↦ ok (framed rows long high)
          ]
        ]

    -- What serving computes for one application after the other.
    unfoldable pub served : Result Value → List (CreditApplication fl) → Result (List FeatureRow)
    unfolding build_features
    served config [] = ok []
    served config (a ∷ rows) = elim (build_features config a) [
      | err e ↦ err e
      | ok row ↦ elim (served config rows) [ err e ↦ err e | ok frame ↦ ok (row ∷ frame) ]
    ]

    served-framed :
        (config long_at high_at : Value) (rows : List (CreditApplication fl)) (long high : List ℕ)
        → item "long_term_threshold" config ≡ ok long_at
        → item "high_amount_threshold" config ≡ ok high_at
        → flags_over (durations rows) long_at ≡ ok long
        → flags_over (amounts rows) high_at ≡ ok high
        → served (ok config) rows ≡ ok (framed rows long high)
    unfolding served build_features flag_of flags_over durations amounts ages quotients framed
        rows_of feature_row
    served-framed config long_at high_at [] long high hl hh el eh = refl
    served-framed config long_at high_at (a ∷ rows) long high hl hh el eh =
        grind (arith, served-framed config long_at high_at rows)

    -- If the training data gets its features, then serving computes for each of its rows the features that the row has
    -- in training.
    pub add_features-served :
        (config : Result Value) (rows : List (CreditApplication fl)) (frame : List FeatureRow)
        → add_features config rows ≡ ok frame
        → served config rows ≡ ok frame
    unfolding add_features flags
    add_features-served (err e) rows frame h = absurd (ground arith)
    add_features-served (ok config) rows frame h = grind (arith, served-framed config)
