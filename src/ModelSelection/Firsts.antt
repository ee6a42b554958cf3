-- ===== src/ModelSelection/Firsts.antt =====
-- src/training/select_best_model.py: the first row of each name of a sorted data frame.
use mathlib.Core.List.{Memᴰ}
use mathlib.Core.List.Memᴰ.{head, tail, cases_cons}
use credit_scoring_mlops.Prelude.{
  ◌≤◌, String, ◌≡◌, refl, sym, ap, ◌∙◌, subst, Bool, true, false, List, [], ◌∷◌, contains,
  string_eq, arith, ◌⊎◌, inl, inr, Bool-cases,
}
use credit_scoring_mlops.Prelude.Sorting.{IsSorted}
use credit_scoring_mlops.Mlflow.Search.{All-Memᴰ}
use credit_scoring_mlops.ModelSelection.{Row}

-- The rows whose name none before has, nor the names in the list.
unfoldable pub firsts : List String → List Row → List Row
firsts seen [] = []
firsts seen (x ∷ xs) = elim (contains seen x.model.run_name) [
  | true ↦ firsts seen xs
  | false ↦ x ∷ firsts (x.model.run_name ∷ seen) xs
]

-- The second row is not newer.
abbrev pub NotNewer : Row → Row → Type 0
NotNewer a b = b.start_time ≤ a.start_time

abbrev name_of : Row → String
name_of r = r.model.run_name

firsts-skip :
    (seen : List String) (y : Row) (ys : List Row)
    → contains seen y.model.run_name ≡ true
    → firsts seen (y ∷ ys) ≡ firsts seen ys
unfolding firsts
firsts-skip seen y ys e = rw (firsts, e) refl

firsts-keep :
    (seen : List String) (y : Row) (ys : List Row)
    → contains seen y.model.run_name ≡ false
    → firsts seen (y ∷ ys) ≡ y ∷ firsts (y.model.run_name ∷ seen) ys
unfolding firsts
firsts-keep seen y ys e = rw (firsts, e) refl

-- What `firsts` keeps of a list, taken apart.
firsts-split :
    (seen : List String) (x y : Row) (ys : List Row)
    → Memᴰ x (firsts seen (y ∷ ys))
    → ((contains seen y.model.run_name ≡ true) × Memᴰ x (firsts seen ys))
      ⊎ ((contains seen y.model.run_name ≡ false)
          × ((x ≡ y) ⊎ Memᴰ x (firsts (y.model.run_name ∷ seen) ys)))
firsts-split seen x y ys m = elim (Bool-cases (contains seen y.model.run_name)) [
  | inl e ↦ inl (e, subst (Memᴰ x) (firsts-skip seen y ys e) m)
  | inr e ↦ inr (e, cases_cons (subst (Memᴰ x) (firsts-keep seen y ys e) m))
]

pub firsts-Memᴰ :
    (seen : List String) (xs : List Row) (x : Row) → Memᴰ x (firsts seen xs) → Memᴰ x xs
unfolding firsts
firsts-Memᴰ seen [] x m = m
firsts-Memᴰ seen (y ∷ ys) x m = elim (firsts-split seen x y ys m) [
  | inl (e, later) ↦ tail (firsts-Memᴰ seen ys x later)
  | inr (e, inl same) ↦ head same
  | inr (e, inr later) ↦ tail (firsts-Memᴰ (y.model.run_name ∷ seen) ys x later)
]

contains-other :
    (name other : String) (seen : List String)
    → contains (other ∷ seen) name ≡ false
    → (contains seen name ≡ false) × ((name ≡ other) → ⊥)
contains-other name other seen h = (grind (arith, h), λ e. grind (arith, h, e))

clash :
    (seen : List String) (a b : String)
    → a ≡ b
    → contains seen a ≡ true
    → contains seen b ≡ false
    → ⊥
clash seen a b e known new = absurd (
    subst (λ (v : Bool). elim v [ true ↦ ⊥ | false ↦ Unit ])
      (sym new ∙ ap (contains seen) (sym e) ∙ known) tt)

known_name :
    (a b : String) (seen : List String)
    → contains (a ∷ seen) b ≡ true
    → contains seen b ≡ false
    → a ≡ b
known_name a b seen h new = grind (arith, h, new)

-- No row has a name of the list.
firsts-unseen :
    (seen : List String) (xs : List Row) (x : Row)
    → Memᴰ x (firsts seen xs)
    → contains seen x.model.run_name ≡ false
unfolding firsts
firsts-unseen seen [] x m = elim m [ ]
firsts-unseen seen (y ∷ ys) x m = elim (firsts-split seen x y ys m) [
  | inl (e, later) ↦ firsts-unseen seen ys x later
  | inr (e, inl same) ↦ subst (λ (r : Row). contains seen r.model.run_name ≡ false) (sym same) e
  | inr (e, inr later) ↦
      (contains-other x.model.run_name y.model.run_name seen
        (firsts-unseen (y.model.run_name ∷ seen) ys x later)).0
]

-- In a data frame sorted by the start, the rows that are left are the newest of their names.
pub firsts-newest :
    (seen : List String) (xs : List Row) (x c : Row)
    → IsSorted NotNewer xs
    → Memᴰ x (firsts seen xs)
    → Memᴰ c xs
    → c.model.run_name ≡ x.model.run_name
    → c.start_time ≤ x.start_time
unfolding firsts
firsts-newest seen [] x c s m mc e = elim m [ ]
firsts-newest seen (y ∷ ys) x c s m mc e = elim (firsts-split seen x y ys m) [
  | inl (known, later) ↦ elim (cases_cons mc) [
    | inl same ↦ absurd (
        clash seen (name_of y) (name_of x) (ap name_of (sym same) ∙ e) known
          (firsts-unseen seen ys x later))
    | inr mc' ↦ firsts-newest seen ys x c s.1 later mc' e
  ]
  | inr (new, inl here) ↦ elim (cases_cons mc) [
    | inl same ↦
        omega (arith, ap (λ (r : Row). r.start_time) same, ap (λ (r : Row). r.start_time) here)
    | inr mc' ↦ subst (λ (r : Row). NotNewer r c) (sym here) (All-Memᴰ (NotNewer y) ys s.0 c mc')
  ]
  | inr (new, inr later) ↦ elim (cases_cons mc) [
    | inl same ↦ absurd (
        (contains-other (name_of x) (name_of y) seen
            (firsts-unseen (name_of y ∷ seen) ys x later)).1
          (sym e ∙ ap name_of same))
    | inr mc' ↦ firsts-newest (name_of y ∷ seen) ys x c s.1 later mc' e
  ]
]

-- A name that is new keeps a row.
pub firsts_complete :
    (seen : List String) (xs : List Row) (c : Row)
    → Memᴰ c xs
    → contains seen c.model.run_name ≡ false
    → (x : Row) × (Memᴰ x (firsts seen xs)) × (x.model.run_name ≡ c.model.run_name)
firsts_complete seen [] c mc h = elim mc [ ]
firsts_complete seen (y ∷ ys) c mc h = elim (Bool-cases (contains seen (name_of y))) [
  | inl known ↦ elim (cases_cons mc) [
    | inl same ↦ absurd (clash seen (name_of y) (name_of c) (ap name_of (sym same)) known h)
    | inr mc' ↦
        let (x, m, e) = firsts_complete seen ys c mc' h in
        (x, subst (Memᴰ x) (sym (firsts-skip seen y ys known)) m, e)
  ]
  | inr new ↦ elim (cases_cons mc) [
    | inl same ↦
        (y, subst (Memᴰ y) (sym (firsts-keep seen y ys new)) (head refl), ap name_of (sym same))
    | inr mc' ↦ elim (Bool-cases (contains (name_of y ∷ seen) (name_of c))) [
      | inl e ↦ (
        y,
        subst (Memᴰ y) (sym (firsts-keep seen y ys new)) (head refl),
        known_name (name_of y) (name_of c) seen e h,
      )
      | inr e ↦
          let (x, m, e') = firsts_complete (name_of y ∷ seen) ys c mc' e in
          (x, subst (Memᴰ x) (sym (firsts-keep seen y ys new)) (tail m), e')
    ]
  ]
]
