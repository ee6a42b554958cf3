-- ===== src/DataValidation/Clean.antt =====
-- src/data/validate_data.py: the frames that pass, described without the checks.
use credit_scoring_mlops.Prelude.{
  String, ◌≡◌, ◌⊎◌, true, false, List, [], ◌∷◌, contains, string_eq, All,
}
use credit_scoring_mlops.DataValidation.{
  Cells, Row, Frame, Range, expected_columns, target_column, checks, same_row,
}

module _ (cells : Cells) where
  -- Each row has a cell of its own in some column.
  unfoldable pub Distinct : List String → List (Row cells) → Type 0
  Distinct columns [] = Unit
  Distinct columns (r ∷ rows) =
      All (λ s. same_row cells columns r s ≡ false) rows × Distinct columns rows

  abbrev pub InRange : Range → Row cells → Type 0
  InRange check r =
      (cells.less (r check.column) (cells.number check.min_value) ≡ false)
      × (cells.less (cells.number check.max_value) (r check.column) ≡ false)

  abbrev pub IsTarget : Row cells → Type 0
  IsTarget r =
      (cells.same (r target_column) (cells.number 0) ≡ true)
      ⊎ (cells.same (r target_column) (cells.number 1) ≡ true)

  -- A frame with exactly the expected columns, no null, the six columns in their ranges, the target 0 or 1,
  -- and no two rows alike.
  pub record IsClean (f : Frame cells) : Type 0 where
    pub has_columns : All (λ c. contains f.columns c ≡ true) expected_columns
    pub no_others : All (λ c. contains expected_columns c ≡ true) f.columns
    pub no_nulls : All (λ (r : Row cells). All (λ c. cells.is_null (r c) ≡ false) f.columns) f.rows
    pub in_ranges : All (λ (check : Range). All (InRange check) f.rows) checks
    pub targets : All IsTarget f.rows
    pub distinct : Distinct f.columns f.rows
