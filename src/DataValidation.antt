-- ===== src/DataValidation.antt =====
-- src/data/validate_data.py and schema.py: the checks of the raw data. A data frame has named columns and rows
-- that give each column a cell; the cells, their `<` and their equality are pandas' and a parameter.
pub mod Lists
pub mod Clean
pub mod Passing
pub mod Exact
use credit_scoring_mlops.Prelude.{
  ℕ, String, ◌<>◌, Bool, true, false, not, ◌&&◌, ◌||◌, List, [], ◌∷◌, contains, string_eq,
  if◌then◌else◌,
}
use credit_scoring_mlops.Exec.{key_error, value_error, file_not_found, Result, ok, err}

pub record Cells : Type 1 where
  pub Cell : Type 0
  pub is_null : Cell → Bool
  pub less : Cell → Cell → Bool
  pub same : Cell → Cell → Bool
  pub number : ℕ → Cell

-- EXPECTED_COLUMNS and TARGET_COLUMN
abbrev pub expected_columns : List String
expected_columns =
    "laufkont" ∷ "laufzeit" ∷ "moral" ∷ "verw" ∷ "hoehe" ∷ "sparkont" ∷ "beszeit" ∷ "rate"
    ∷ "famges" ∷ "buerge" ∷ "wohnzeit" ∷ "verm" ∷ "alter" ∷ "weitkred" ∷ "wohn" ∷ "bishkred"
    ∷ "beruf" ∷ "pers" ∷ "telef" ∷ "gastarb" ∷ "kredit" ∷ []

abbrev pub target_column : String
target_column = "kredit"

-- A column with the smallest and the largest value
pub record Range : Type 0 where
  pub column : String
  pub min_value : ℕ
  pub max_value : ℕ

abbrev range : String → ℕ → ℕ → Range
range column low high = record { column = column; min_value = low; max_value = high }

-- `checks`
abbrev pub checks : List Range
checks =
    range "laufzeit" 1 100
    ∷ range "hoehe" 1 1000000
    ∷ range "alter" 18 100
    ∷ range "rate" 1 10
    ∷ range "wohnzeit" 1 10
    ∷ range "bishkred" 1 10
    ∷ []

-- Some element passes the test: `not selected.empty`
unfoldable pub any_of {ℓ} : {A : Type ℓ} → (A → Bool) → List A → Bool
any_of p [] = false
any_of p (x ∷ xs) = p x || any_of p xs

module _ (cells : Cells) where
  abbrev pub Row : Type 0
  Row = String → cells.Cell

  pub record Frame : Type 0 where
    pub columns : List String
    pub rows : List Row

  -- `validate_columns`
  unfoldable pub validate_columns : Frame → Result (Unit {0})
  unfolding any_of
  validate_columns f =
      if any_of (λ c. not (contains f.columns c)) expected_columns
      then err (value_error "Missing columns")
      else if any_of (λ c. not (contains expected_columns c)) f.columns
      then err (value_error "Extra columns")
      else ok tt

  -- `validate_not_null`
  unfoldable pub validate_not_null : Frame → Result (Unit {0})
  unfolding any_of
  validate_not_null f =
      if any_of (λ (r : Row). any_of (λ c. cells.is_null (r c)) f.columns) f.rows
      then err (value_error "Columns with nulls")
      else ok tt

  unfoldable pub out_of_range : Range → Row → Bool
  out_of_range check r =
      cells.less (r check.column) (cells.number check.min_value)
      || cells.less (cells.number check.max_value) (r check.column)

  -- one turn of the loop of `validate_ranges`
  unfoldable pub validate_range : Range → Frame → Result (Unit {0})
  unfolding any_of out_of_range
  validate_range check f =
      if not (contains f.columns check.column)
      then err (key_error check.column)
      else if any_of (out_of_range check) f.rows
      then err (value_error ("Column " <> check.column <> " has values outside range"))
      else ok tt

  -- `validate_ranges`
  unfoldable pub validate_ranges : List Range → Frame → Result (Unit {0})
  unfolding validate_range
  validate_ranges [] f = ok tt
  validate_ranges (check ∷ rest) f = elim (validate_range check f) [
    | err e ↦ err e
    | ok done ↦ validate_ranges rest f
  ]

  unfoldable pub unexpected_target : Row → Bool
  unexpected_target r = not (
      cells.same (r target_column) (cells.number 0)
      || cells.same (r target_column) (cells.number 1))

  -- `validate_target`
  unfoldable pub validate_target : Frame → Result (Unit {0})
  unfolding any_of unexpected_target
  validate_target f =
      if not (contains f.columns target_column)
      then err (key_error target_column)
      else if any_of unexpected_target f.rows
      then err (value_error "Unexpected target values in kredit")
      else ok tt

  unfoldable pub same_row : List String → Row → Row → Bool
  same_row [] r s = true
  same_row (c ∷ columns) r s = cells.same (r c) (s c) && same_row columns r s

  -- `df.duplicated().sum() > 0`: some row is one of the rows before it
  unfoldable pub has_duplicates : List String → List Row → Bool
  unfolding any_of same_row
  has_duplicates columns [] = false
  has_duplicates columns (r ∷ rows) =
      any_of (same_row columns r) rows || has_duplicates columns rows

  -- `validate_unique_rows`
  unfoldable pub validate_unique_rows : Frame → Result (Unit {0})
  unfolding has_duplicates
  validate_unique_rows f =
      if has_duplicates f.columns f.rows then err (value_error "Found duplicated rows") else ok tt

  then_check : Result (Unit {0}) → Result (Unit {0}) → Result (Unit {0})
  then_check (err e) next = err e
  then_check (ok done) next = next

  -- what `main` does with the frame that it read
  unfoldable pub validate : Frame → Result (Unit {0})
  unfolding validate_columns validate_not_null validate_ranges validate_target validate_unique_rows
      then_check
  validate f = then_check (validate_columns f) (
      then_check (validate_not_null f) (
        then_check (validate_ranges checks f)
          (then_check (validate_target f) (validate_unique_rows f))))
