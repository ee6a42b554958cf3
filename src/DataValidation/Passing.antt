-- ===== src/DataValidation/Passing.antt =====
-- src/data/validate_data.py: a frame that passes is clean.
use credit_scoring_mlops.Prelude.{
  String, ◌≡◌, Bool, true, false, not, List, [], ◌∷◌, contains, string_eq, arith, All,
}
use credit_scoring_mlops.Exec.{ok}
use credit_scoring_mlops.DataValidation.{
  Cells, Row, Frame, Range, expected_columns, checks, any_of, validate_columns, validate_not_null,
  out_of_range, validate_range, validate_ranges, unexpected_target, validate_target, same_row,
  has_duplicates, validate_unique_rows, then_check, validate,
}
use credit_scoring_mlops.DataValidation.Lists.{any_of-none, All-map}
use credit_scoring_mlops.DataValidation.Clean.{Distinct, InRange, IsTarget, IsClean}

module _ (cells : Cells) where
  has-not : (b : Bool) → not b ≡ false → b ≡ true
  has-not b h = ground (arith, h)

  module _ (f : Frame cells) where
    abbrev absent : String → Bool
    absent c = not (contains f.columns c)

    abbrev extra : String → Bool
    extra c = not (contains expected_columns c)

    abbrev null_row : Row cells → Bool
    null_row r = any_of (λ c. cells.is_null (r c)) f.columns

    present : (c : String) → absent c ≡ false → contains f.columns c ≡ true
    present c h = has-not (contains f.columns c) h

    expected : (c : String) → extra c ≡ false → contains expected_columns c ≡ true
    expected c h = has-not (contains expected_columns c) h

    no_null :
        (r : Row cells) → null_row r ≡ false → All (λ c. cells.is_null (r c) ≡ false) f.columns
    no_null r h = any_of-none (λ c. cells.is_null (r c)) f.columns h

    columns_sound :
        validate_columns cells f ≡ ok tt
        → (any_of absent expected_columns ≡ false) × (any_of extra f.columns ≡ false)
    unfolding validate_columns
    columns_sound h = ground (arith, h)

    nulls_sound : validate_not_null cells f ≡ ok tt → any_of null_row f.rows ≡ false
    unfolding validate_not_null
    nulls_sound h = ground (arith, h)

    range_sound :
        (check : Range)
        → validate_range cells check f ≡ ok tt
        → any_of (out_of_range cells check) f.rows ≡ false
    unfolding validate_range
    range_sound check h = ground (arith, h)

    ranges_sound :
        (list : List Range)
        → validate_ranges cells list f ≡ ok tt
        → All (λ check. validate_range cells check f ≡ ok tt) list
    unfolding validate_ranges
    ranges_sound [] h = tt
    ranges_sound (check ∷ list) h = (ground (arith, h), ranges_sound list (ground (arith, h)))

    target_sound : validate_target cells f ≡ ok tt → any_of (unexpected_target cells) f.rows ≡ false
    unfolding validate_target
    target_sound h = ground (arith, h)

    unique_sound :
        validate_unique_rows cells f ≡ ok tt → has_duplicates cells f.columns f.rows ≡ false
    unfolding validate_unique_rows
    unique_sound h = ground (arith, h)

    duplicates-Distinct :
        (rows : List (Row cells))
        → has_duplicates cells f.columns rows ≡ false
        → Distinct cells f.columns rows
    unfolding has_duplicates Distinct
    duplicates-Distinct [] h = tt
    duplicates-Distinct (r ∷ rows) h = (
      any_of-none (same_row cells f.columns r) rows (ground (arith, h)),
      duplicates-Distinct rows (ground (arith, h)),
    )

    -- What `validate` returned says of each check.
    all_passed :
        validate cells f ≡ ok tt
        → (validate_columns cells f ≡ ok tt)
          × (validate_not_null cells f ≡ ok tt)
          × (validate_ranges cells checks f ≡ ok tt)
          × (validate_target cells f ≡ ok tt)
          × (validate_unique_rows cells f ≡ ok tt)
    unfolding validate then_check
    all_passed h = grind (arith, h)

    InRange-if :
        (check : Range) (r : Row cells) → out_of_range cells check r ≡ false → InRange cells check r
    unfolding out_of_range
    InRange-if check r h = ground (arith, h)

    IsTarget-if : (r : Row cells) → unexpected_target cells r ≡ false → IsTarget cells r
    unfolding unexpected_target
    IsTarget-if r h = ground (arith, h)

    pub IsClean-if_valid : validate cells f ≡ ok tt → IsClean cells f
    IsClean-if_valid h =
        let (columns, nulls, ranges, target, unique) = all_passed h in
        record {
          has_columns =
              All-map _ _ expected_columns present
                (any_of-none absent expected_columns (columns_sound columns).0);
          no_others =
              All-map _ _ f.columns expected
                (any_of-none extra f.columns (columns_sound columns).1);
          no_nulls = All-map _ _ f.rows no_null (any_of-none null_row f.rows (nulls_sound nulls));
          in_ranges =
              All-map _ _ checks
                (λ check e.
                  All-map _ _ f.rows (InRange-if check)
                    (any_of-none (out_of_range cells check) f.rows (range_sound check e)))
                (ranges_sound checks ranges);
          targets =
              All-map _ _ f.rows IsTarget-if
                (any_of-none (unexpected_target cells) f.rows (target_sound target));
          distinct = duplicates-Distinct f.rows (unique_sound unique);
        }
