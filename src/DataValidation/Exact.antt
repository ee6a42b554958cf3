-- ===== src/DataValidation/Exact.antt =====
-- src/data/validate_data.py: a clean frame passes, so the clean frames are exactly those that pass.
use credit_scoring_mlops.Prelude.{
  String, ◌≡◌, ◌↔◌, refl, Bool, true, false, not, List, [], ◌∷◌, contains, string_eq, arith, All,
}
use credit_scoring_mlops.Exec.{ok}
use credit_scoring_mlops.DataValidation.{
  Cells, Row, Frame, Range, expected_columns, target_column, checks, any_of, validate_columns,
  validate_not_null, out_of_range, validate_range, validate_ranges, unexpected_target,
  validate_target, same_row, has_duplicates, validate_unique_rows, then_check, validate,
}
use credit_scoring_mlops.DataValidation.Lists.{none-any_of, All-map, All-contains}
use credit_scoring_mlops.DataValidation.Clean.{Distinct, InRange, IsTarget, IsClean}
use credit_scoring_mlops.DataValidation.Passing.{IsClean-if_valid}

module _ (cells : Cells) where
  not-has : (b : Bool) → b ≡ true → not b ≡ false
  not-has b h = ground (arith, h)

  module _ (f : Frame cells) where
    abbrev absent : String → Bool
    absent c = not (contains f.columns c)

    abbrev extra : String → Bool
    extra c = not (contains expected_columns c)

    abbrev null_row : Row cells → Bool
    null_row r = any_of (λ c. cells.is_null (r c)) f.columns

    not_absent : (c : String) → contains f.columns c ≡ true → absent c ≡ false
    not_absent c h = not-has (contains f.columns c) h

    not_extra : (c : String) → contains expected_columns c ≡ true → extra c ≡ false
    not_extra c h = not-has (contains expected_columns c) h

    not_null :
        (r : Row cells) → All (λ c. cells.is_null (r c) ≡ false) f.columns → null_row r ≡ false
    not_null r h = none-any_of (λ c. cells.is_null (r c)) f.columns h

    Distinct-duplicates :
        (rows : List (Row cells))
        → Distinct cells f.columns rows
        → has_duplicates cells f.columns rows ≡ false
    unfolding has_duplicates Distinct
    Distinct-duplicates [] d = refl
    Distinct-duplicates (r ∷ rows) (new, d) =
        ground
          (arith, none-any_of (same_row cells f.columns r) rows new, Distinct-duplicates rows d)

    InRange-back :
        (check : Range) (r : Row cells) → InRange cells check r → out_of_range cells check r ≡ false
    unfolding out_of_range
    InRange-back check r h = ground (arith, h)

    IsTarget-back : (r : Row cells) → IsTarget cells r → unexpected_target cells r ≡ false
    unfolding unexpected_target
    IsTarget-back r h = ground (arith, h)

    columns_complete :
        any_of absent expected_columns ≡ false
        → any_of extra f.columns ≡ false
        → validate_columns cells f ≡ ok tt
    unfolding validate_columns
    columns_complete a e = rw (validate_columns, a, e) refl

    nulls_complete : any_of null_row f.rows ≡ false → validate_not_null cells f ≡ ok tt
    unfolding validate_not_null
    nulls_complete h = rw (validate_not_null, h) refl

    range_complete :
        (check : Range)
        → contains f.columns check.column ≡ true
        → any_of (out_of_range cells check) f.rows ≡ false
        → validate_range cells check f ≡ ok tt
    unfolding validate_range
    range_complete check c h = rw (validate_range, c, h) refl

    ranges_complete :
        (list : List Range)
        → All (λ check. validate_range cells check f ≡ ok tt) list
        → validate_ranges cells list f ≡ ok tt
    unfolding validate_ranges
    ranges_complete [] h = refl
    ranges_complete (check ∷ list) (h, rest) = rw (validate_ranges, h) (ranges_complete list rest)

    target_complete :
        contains f.columns target_column ≡ true
        → any_of (unexpected_target cells) f.rows ≡ false
        → validate_target cells f ≡ ok tt
    unfolding validate_target
    target_complete c h = rw (validate_target, c, h) refl

    -- A column of `checks` is an expected one.
    checked-expected : All (λ (check : Range). contains expected_columns check.column ≡ true) checks
    unfolding string_eq
    checked-expected = (refl, (refl, (refl, (refl, (refl, (refl, tt))))))

    target-expected : contains expected_columns target_column ≡ true
    unfolding string_eq
    target-expected = refl

    has_column :
        IsClean cells f
        → (c : String) → contains expected_columns c ≡ true
        → contains f.columns c ≡ true
    has_column clean c h =
        All-contains (λ k. contains f.columns k ≡ true) expected_columns c clean.has_columns h

    passing :
        (list : List Range)
        → IsClean cells f
        → All (λ (check : Range). contains expected_columns check.column ≡ true) list
        → All (λ (check : Range). All (InRange cells check) f.rows) list
        → All (λ check. validate_range cells check f ≡ ok tt) list
    passing [] clean known ranges = tt
    passing (check ∷ list) clean (k, known) (r, ranges) = (
      range_complete check (has_column clean check.column k) (
          none-any_of (out_of_range cells check) f.rows
            (All-map _ _ f.rows (InRange-back check) r)),
      passing list clean known ranges,
    )

    columns-pass : IsClean cells f → validate_columns cells f ≡ ok tt
    columns-pass clean =
        columns_complete
          (none-any_of absent expected_columns
            (All-map _ _ expected_columns not_absent clean.has_columns))
          (none-any_of extra f.columns (All-map _ _ f.columns not_extra clean.no_others))

    nulls-pass : IsClean cells f → validate_not_null cells f ≡ ok tt
    nulls-pass clean =
        nulls_complete (none-any_of null_row f.rows (All-map _ _ f.rows not_null clean.no_nulls))

    target-pass : IsClean cells f → validate_target cells f ≡ ok tt
    target-pass clean = target_complete (has_column clean target_column target-expected) (
        none-any_of (unexpected_target cells) f.rows
          (All-map _ _ f.rows IsTarget-back clean.targets))

    unique-pass : IsClean cells f → validate_unique_rows cells f ≡ ok tt
    unfolding validate_unique_rows
    unique-pass clean = rw (validate_unique_rows, Distinct-duplicates f.rows clean.distinct) refl

    clean-validate : IsClean cells f → validate cells f ≡ ok tt
    unfolding validate then_check
    clean-validate clean = grind (
      arith,
      columns-pass clean,
      nulls-pass clean,
      ranges_complete checks (passing checks clean checked-expected clean.in_ranges),
      target-pass clean,
      unique-pass clean,
    )

    -- The raw data passes the validation exactly if it has the expected columns and no others, no null, the six checked
    -- columns in their ranges, 0 or 1 as the target of each row, and no two rows alike.
    pub validate-IsClean : (validate cells f ≡ ok tt) ↔ IsClean cells f
    validate-IsClean = (IsClean-if_valid cells f, clean-validate)
