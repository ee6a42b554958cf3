-- ===== src/DataValidation/Lists.antt =====
-- Lists of which no element passes a test.
use credit_scoring_mlops.Prelude.{
  String, ◌≡◌, refl, Bool, true, false, List, [], ◌∷◌, contains, string_eq, arith, All,
}
use credit_scoring_mlops.DataValidation.{any_of}

pub any_of-none {ℓ} :
    {A : Type ℓ} (p : A → Bool) (xs : List A) → any_of p xs ≡ false → All (λ x. p x ≡ false) xs
unfolding any_of
any_of-none p [] h = tt
any_of-none p (x ∷ xs) h = (ground (arith, h), any_of-none p xs (ground (arith, h)))

pub none-any_of {ℓ} :
    {A : Type ℓ} (p : A → Bool) (xs : List A) → All (λ x. p x ≡ false) xs → any_of p xs ≡ false
unfolding any_of
none-any_of p [] h = refl
none-any_of p (x ∷ xs) (h, rest) = ground (arith, h, none-any_of p xs rest)

pub All-map {ℓ} :
    {A : Type ℓ} (P Q : A → Type 0) (xs : List A) → ((x : A) → P x → Q x) → All P xs → All Q xs
All-map P Q [] f h = tt
All-map P Q (x ∷ xs) f (h, rest) = (f x h, All-map P Q xs f rest)

pub All-contains :
    (P : String → Type 0) (xs : List String) (c : String) → All P xs → contains xs c ≡ true → P c
All-contains P [] c all h = absurd (ground (arith, h))
All-contains P (x ∷ xs) c (p, all) h = grind (arith, h, p, All-contains P xs c all)
