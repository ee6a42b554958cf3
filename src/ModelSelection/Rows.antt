-- ===== src/ModelSelection/Rows.antt =====
-- src/training/select_best_model.py: which runs have a row in the data frame.
use mathlib.Core.List.{Memᴰ}
use mathlib.Core.List.Memᴰ.{head, tail, cases_cons}
use credit_scoring_mlops.Prelude.{
  String, ◌≡◌, refl, sym, subst, Bool, true, Option, none, some, List, [], ◌∷◌, contains, string_eq,
  if◌then◌else◌, inl, inr, ◌⊎◌, Bool-cases,
}
use credit_scoring_mlops.Mlflow.{Run, supported, compared}
use credit_scoring_mlops.ModelSelection.{Row, row_of, add_row, rows_of}

add_row-other :
    (name : Option String) (run : Run) (rows : List Row) (r : Row)
    → Memᴰ r rows
    → Memᴰ r (add_row name run rows)
unfolding add_row
add_row-other none run rows r m = m
add_row-other (some name) run rows r m = elim (Bool-cases (contains supported name)) [
  | inl e ↦ rw (add_row, e) (tail m)
  | inr e ↦ rw (add_row, e) m
]

add_row-self :
    (name : String) (run : Run) (rows : List Row)
    → contains supported name ≡ true
    → Memᴰ (row_of name run) (add_row (some name) run rows)
unfolding add_row
add_row-self name run rows e = rw (add_row, e) (head refl)

-- A run of a supported name has a row.
pub rows_of-has :
    (runs : List Run) (run : Run) (name : String)
    → Memᴰ run runs
    → run.run_name ≡ some name
    → contains supported name ≡ true
    → Memᴰ (row_of name run) (rows_of runs)
unfolding rows_of
rows_of-has [] run name m e k = elim m [ ]
rows_of-has (x ∷ xs) run name (head same) e k =
    subst (λ (r : Run). Memᴰ (row_of name run) (add_row r.run_name r (rows_of xs))) same
      (subst (λ (o : Option String). Memᴰ (row_of name run) (add_row o run (rows_of xs))) (sym e)
        (add_row-self name run (rows_of xs) k))
rows_of-has (x ∷ xs) run name (tail m) e k =
    add_row-other x.run_name x (rows_of xs) (row_of name run) (rows_of-has xs run name m e k)

-- The run that a row is of.
abbrev pub IsRowOf : List Run → Row → Run → Type 0
IsRowOf runs r run =
    Memᴰ run runs
    × (run.run_name ≡ some r.model.run_name)
    × (contains supported r.model.run_name ≡ true)
    × (r ≡ row_of r.model.run_name run)

add_row-from :
    (name : Option String) (run : Run) (rows : List Row) (r : Row)
    → Memᴰ r (add_row name run rows)
    → ((s : String) × (name ≡ some s) × (contains supported s ≡ true) × (r ≡ row_of s run))
      ⊎ Memᴰ r rows
unfolding add_row
add_row-from none run rows r m = inr m
add_row-from (some name) run rows r m = elim (Bool-cases (contains supported name)) [
  | inl e ↦
      elim (cases_cons
        (subst (λ (b : Bool). Memᴰ r (if b then row_of name run ∷ rows else rows)) e m)) [
          | inl same ↦ inl (name, refl, e, same)
          | inr m' ↦ inr m'
        ]
  | inr e ↦ inr (subst (λ (b : Bool). Memᴰ r (if b then row_of name run ∷ rows else rows)) e m)
]

pub rows_of-from :
    (runs : List Run) (r : Row) → Memᴰ r (rows_of runs) → (run : Run) × IsRowOf runs r run
unfolding rows_of row_of compared
rows_of-from [] r m = elim m [ ]
rows_of-from (x ∷ xs) r m = elim (add_row-from x.run_name x (rows_of xs) r m) [
  | inl (s, e, k, same) ↦
      subst (λ (q : Row). (run : Run) × IsRowOf (x ∷ xs) q run) (sym same)
        (x, (head refl, e, k, refl))
  | inr m' ↦ let (run, (m'', e, k, same)) = rows_of-from xs r m' in (run, (tail m'', e, k, same))
]
