-- ===== src/Prelude/Counts.antt =====
-- Counts by key: SQL's `SELECT key, COUNT(id) GROUP BY key` and Python's `dict.update` on its rows.
use Prim.Native.Nat.{ℕ, suc}
use mathlib.Core.Path.{◌≡◌, refl}
use mathlib.Core.Bool.{Bool, true, false}
use mathlib.Core.List.{List, [], ◌∷◌}
use native.Mathlib.Omega.{arith}
use credit_scoring_mlops.Prelude.Tests.{if◌then◌else◌}
use credit_scoring_mlops.Prelude.Equality.{Eq, ◌==◌}
use credit_scoring_mlops.Prelude.Lists.{count_if}

abbrev pub Counts {ℓ} : Type ℓ → Type ℓ
Counts K = List (K × ℕ)

module _ {ℓ} {K : Type ℓ} ⦃e : Eq K⦄ where
  -- `counts[k]`, and 0 for a key that is not there
  unfoldable pub count_at : K → Counts K → ℕ
  count_at k [] = 0
  count_at k ((j, n) ∷ c) = if j == k then n else count_at k c

  unfoldable pub has_key : K → Counts K → Bool
  has_key k [] = false
  has_key k ((j, n) ∷ c) = if j == k then true else has_key k c

  bump : K → Counts K → Counts K
  bump k [] = (k, 1) ∷ []
  bump k ((j, n) ∷ c) = if j == k then (j, suc n) ∷ c else (j, n) ∷ bump k c

  -- one row for each key that occurs
  unfoldable pub group_by : List K → Counts K
  unfolding bump
  group_by [] = []
  group_by (k ∷ ks) = bump k (group_by ks)

  -- `counts[k] = n`
  set_count : K → ℕ → Counts K → Counts K
  set_count k n [] = (k, n) ∷ []
  set_count k n ((j, m) ∷ c) = if j == k then (j, n) ∷ c else (j, m) ∷ set_count k n c

  -- `{k: 0 for k in keys}`, and `counts.update(rows)`
  unfoldable pub zeros : List K → Counts K
  zeros [] = []
  zeros (k ∷ ks) = (k, 0) ∷ zeros ks

  unfoldable pub update : Counts K → Counts K → Counts K
  unfolding set_count
  update c [] = c
  update c ((k, n) ∷ rows) = set_count k n (update c rows)

  count_at-bump :
      (j k : K) (c : Counts K)
      → count_at j (bump k c) ≡ (if k == j then suc (count_at j c) else count_at j c)
  unfolding count_at bump
  count_at-bump j k [] = ground arith
  count_at-bump j k ((i, n) ∷ c) = ground (arith, count_at-bump j k c)

  count_at-group_by : (k : K) (ks : List K) → count_at k (group_by ks) ≡ count_if (λ j. j == k) ks
  unfolding group_by
  count_at-group_by k [] = unfold count_at in refl
  count_at-group_by k (j ∷ ks) =
      ground (arith, count_at-bump k j (group_by ks), count_at-group_by k ks)

  has_key-bump :
      (j k : K) (c : Counts K) → has_key j (bump k c) ≡ (if k == j then true else has_key j c)
  unfolding has_key bump
  has_key-bump j k [] = ground arith
  has_key-bump j k ((i, n) ∷ c) = ground (arith, has_key-bump j k c)

  count_at-missing : (k : K) (c : Counts K) → has_key k c ≡ false → count_at k c ≡ 0
  unfolding count_at has_key
  count_at-missing k [] h = refl
  count_at-missing k ((j, n) ∷ c) h = ground (arith, count_at-missing k c)

  count_at-set_count :
      (j k : K) (n : ℕ) (c : Counts K)
      → count_at j (set_count k n c) ≡ (if k == j then n else count_at j c)
  unfolding count_at set_count
  count_at-set_count j k n [] = ground arith
  count_at-set_count j k n ((i, m) ∷ c) = ground (arith, count_at-set_count j k n c)

  count_at-update :
      (k : K) (c rows : Counts K)
      → count_at k (update c rows) ≡ (if has_key k rows then count_at k rows else count_at k c)
  unfolding update has_key count_at
  count_at-update k c [] = refl
  count_at-update k c ((j, n) ∷ rows) =
      ground (arith, count_at-set_count k j n (update c rows), count_at-update k c rows)

  count_at-zeros : (k : K) (ks : List K) → count_at k (zeros ks) ≡ 0
  unfolding count_at zeros
  count_at-zeros k [] = refl
  count_at-zeros k (j ∷ ks) = ground (arith, count_at-zeros k ks)

  -- The counts of the code: zeros for all keys, updated by the rows that the database groups.
  pub count_at-update-group_by :
      (k : K) (keys ks : List K)
      → count_at k (update (zeros keys) (group_by ks)) ≡ count_if (λ j. j == k) ks
  count_at-update-group_by k keys ks = ground (
    arith,
    count_at-update k (zeros keys) (group_by ks),
    count_at-missing k (group_by ks),
    count_at-group_by k ks,
    count_at-zeros k keys,
  )
