-- ===== src/Prelude/Sorting.antt =====
-- Sorting by a Boolean comparison: SQL's ORDER BY and Python's `sorted`, with what callers rely on.
use Prim.Native.Nat.{suc}
use mathlib.Core.Path.{◌≡◌, refl}
use mathlib.Core.Bool.{Bool, true, false}
use mathlib.Core.List.{List, [], ◌∷◌, Memᴰ}
use mathlib.Core.List.Memᴰ.{head, tail}
use mathlib.Core.Logic.{inl, inr}
use native.Mathlib.Omega.{arith}
use credit_scoring_mlops.Prelude.Tests.{if◌then◌else◌, Bool-cases}
use credit_scoring_mlops.Prelude.Lists.{length, count_if, All}

-- Each element is below all that follow.
abbrev pub IsSorted {ℓ κ} : {A : Type ℓ} → (A → A → Type κ) → List A → Type κ
IsSorted LE [] = Unit
IsSorted LE (x ∷ xs) = All (LE x) xs × IsSorted LE xs

module _ {ℓ} {A : Type ℓ} (before : A → A → Bool) where
  unfoldable pub insert_by : A → List A → List A
  insert_by x [] = x ∷ []
  insert_by x (y ∷ ys) = let rest = insert_by x ys in if before x y then x ∷ y ∷ ys else y ∷ rest

  -- Equal elements keep their order when `before` holds of them.
  unfoldable pub sort_by : List A → List A
  unfolding insert_by
  sort_by [] = []
  sort_by (x ∷ xs) = insert_by x (sort_by xs)

  pub All-insert_by {κ} :
      (P : A → Type κ) (x : A) (xs : List A) → P x → All P xs → All P (insert_by x xs)
  unfolding insert_by
  All-insert_by P x [] p h = (p, tt)
  All-insert_by P x (y ∷ ys) p h = elim (Bool-cases (before x y)) [
    | inl e ↦ rw e (p, h)
    | inr e ↦ rw e (h.0, All-insert_by P x ys p h.1)
  ]

  pub All-sort_by {κ} : (P : A → Type κ) (xs : List A) → All P xs → All P (sort_by xs)
  unfolding sort_by
  All-sort_by P [] h = tt
  All-sort_by P (x ∷ xs) h = All-insert_by P x (sort_by xs) h.0 (All-sort_by P xs h.1)

  count_if-insert_by :
      (p : A → Bool) (x : A) (xs : List A) → count_if p (insert_by x xs) ≡ count_if p (x ∷ xs)
  unfolding insert_by
  count_if-insert_by p x [] = refl
  count_if-insert_by p x (y ∷ ys) = ground (arith, count_if-insert_by p x ys)

  -- A sorted list has what it had, as often.
  pub count_if-sort_by : (p : A → Bool) (xs : List A) → count_if p (sort_by xs) ≡ count_if p xs
  unfolding sort_by
  count_if-sort_by p [] = refl
  count_if-sort_by p (x ∷ xs) =
      ground (arith, count_if-sort_by p xs, count_if-insert_by p x (sort_by xs))

  length-insert_by : (x : A) (xs : List A) → length (insert_by x xs) ≡ suc (length xs)
  unfolding insert_by
  length-insert_by x [] = refl
  length-insert_by x (y ∷ ys) = ground (arith, length-insert_by x ys)

  pub length-sort_by : (xs : List A) → length (sort_by xs) ≡ length xs
  unfolding sort_by
  length-sort_by [] = refl
  length-sort_by (x ∷ xs) = ground (arith, length-sort_by xs, length-insert_by x (sort_by xs))

  under :
      (x : A) (xs ys : List A) (a : A) → (Memᴰ a xs → Memᴰ a ys) → Memᴰ a (x ∷ xs) → Memᴰ a (x ∷ ys)
  under x xs ys a f (head e) = head e
  under x xs ys a f (tail m) = tail (f m)

  Memᴰ-insert_by :
      (x : A) (xs : List A) (a : A)
      → (Memᴰ a (x ∷ xs) → Memᴰ a (insert_by x xs)) × (Memᴰ a (insert_by x xs) → Memᴰ a (x ∷ xs))
  unfolding insert_by
  Memᴰ-insert_by x [] a = (λ m. m, λ m. m)
  Memᴰ-insert_by x (y ∷ ys) a = elim (Bool-cases (before x y)) [
    | inl e ↦ rw e (λ m. m, λ m. m)
    | inr e ↦ rw e (λ m. into (Memᴰ-insert_by x ys a).0 m, λ m. out (Memᴰ-insert_by x ys a).1 m)
  ]
    where
      into :
          (Memᴰ a (x ∷ ys) → Memᴰ a (insert_by x ys))
          → Memᴰ a (x ∷ y ∷ ys)
          → Memᴰ a (y ∷ insert_by x ys)
      into below (head e) = tail (below (head e))
      into below (tail (head e)) = head e
      into below (tail (tail m)) = tail (below (tail m))

      past : Memᴰ a (x ∷ ys) → Memᴰ a (x ∷ y ∷ ys)
      past (head e) = head e
      past (tail m) = tail (tail m)

      out :
          (Memᴰ a (insert_by x ys) → Memᴰ a (x ∷ ys))
          → Memᴰ a (y ∷ insert_by x ys)
          → Memᴰ a (x ∷ y ∷ ys)
      out below (head e) = tail (head e)
      out below (tail m) = past (below m)

  -- Sorting neither adds nor loses an element.
  pub Memᴰ-sort_by :
      (xs : List A) (a : A) → (Memᴰ a xs → Memᴰ a (sort_by xs)) × (Memᴰ a (sort_by xs) → Memᴰ a xs)
  unfolding sort_by
  Memᴰ-sort_by [] a = (λ m. m, λ m. m)
  Memᴰ-sort_by (x ∷ xs) a = (
    λ m. (Memᴰ-insert_by x (sort_by xs) a).0 (under x xs (sort_by xs) a (Memᴰ-sort_by xs a).0 m),
    λ m. under x (sort_by xs) xs a (Memᴰ-sort_by xs a).1 ((Memᴰ-insert_by x (sort_by xs) a).1 m),
  )

  module _ {κ} (LE : A → A → Type κ) (trans : (x y z : A) → LE x y → LE y z → LE x z)
      (if_before : (x y : A) → before x y ≡ true → LE x y)
      (if_not : (x y : A) → before x y ≡ false → LE y x) where
    All-weaken : (x y : A) (xs : List A) → LE x y → All (LE y) xs → All (LE x) xs
    All-weaken x y [] h a = tt
    All-weaken x y (z ∷ zs) h a = (trans x y z h a.0, All-weaken x y zs h a.1)

    insert_by-IsSorted : (x : A) (xs : List A) → IsSorted LE xs → IsSorted LE (insert_by x xs)
    unfolding insert_by
    insert_by-IsSorted x [] s = (tt, tt)
    insert_by-IsSorted x (y ∷ ys) s = elim (Bool-cases (before x y)) [
      | inl e ↦ rw e ((if_before x y e, All-weaken x y ys (if_before x y e) s.0), s)
      | inr e ↦ rw e (All-insert_by (LE y) x ys (if_not x y e) s.0, insert_by-IsSorted x ys s.1)
    ]

    pub sort_by-IsSorted : (xs : List A) → IsSorted LE (sort_by xs)
    unfolding sort_by
    sort_by-IsSorted [] = tt
    sort_by-IsSorted (x ∷ xs) = insert_by-IsSorted x (sort_by xs) (sort_by-IsSorted xs)
