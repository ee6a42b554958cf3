-- ===== src/Exec.antt =====
-- Exceptions as values, and methods that read and write a state and may raise. The state comes back
-- after a raise too: what was committed stays committed.
use credit_scoring_mlops.Prelude.{ℕ, String, Bool, true, false, Option, none, some}

-- The exception classes that the program raises or tells apart. `type_error`, `os_error` and
-- `other` stand for what libraries raise; the text is the message.
pub data Error : Type 0 where
  key_error : String → Error
  value_error : String → Error
  invalid_transition : String → Error
  execution_unknown : String → Error
  permission_error : String → Error
  file_not_found : String → Error
  overflow_error : Error
  integrity_error : Error
  type_error : String → Error
  runtime_error : String → Error
  http : ℕ → String → Error
  other : String → Error

pub data Result {ℓ} (A : Type ℓ) : Type ℓ where
  ok : A → Result A
  err : Error → Result A

abbrev pub Exec : Type 0 → Type 0 → Type 0
Exec S A = S → Result A × S

module _ {S A : Type 0} where
  abbrev pub pure : A → Exec S A
  pure a s = (ok a, s)

  abbrev pub raise : Error → Exec S A
  raise e s = (err e, s)

  abbrev pub gets : (S → A) → Exec S A
  gets f s = (ok (f s), s)

  abbrev pub or_raise : Option A → Error → Exec S A
  or_raise none e = raise e
  or_raise (some a) e = pure a

  abbrev pub lift : Result A → Exec S A
  lift r s = (r, s)

abbrev pub modify : {S : Type 0} → (S → S) → Exec S (Unit {0})
modify f s = (ok tt, f s)

abbrev pub raise_if : {S : Type 0} → Bool → Error → Exec S (Unit {0})
raise_if true e = raise e
raise_if false e = pure tt

infixl 5 ◌>>=◌ ◌>>◌
abbrev pub ◌>>=◌ : {S A B : Type 0} → Exec S A → (A → Exec S B) → Exec S B
◌>>=◌ m f s = let (r, t) = m s in elim r [ ok a ↦ f a t | err e ↦ raise e t ]

abbrev pub ◌>>◌ : {S A B : Type 0} → Exec S A → Exec S B → Exec S B
m >> k = m >>= λ _. k

-- `try: m` with a handler that goes by the class of the exception
abbrev pub catch : {S A : Type 0} → Exec S A → (Error → Exec S A) → Exec S A
catch m h s = let (r, t) = m s in elim r [ ok a ↦ pure a t | err e ↦ h e t ]
