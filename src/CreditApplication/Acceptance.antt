-- ===== src/CreditApplication/Acceptance.antt =====
-- services/api/schemas.py: payloads that CreditApplication accepts.
use credit_scoring_mlops.Prelude.{ℕ, suc, String, ◌≡◌, ◌≤◌, refl, ap, ◌∙◌, true, some, arith}
use credit_scoring_mlops.Prelude.Int.{pos}
use credit_scoring_mlops.Json
use credit_scoring_mlops.Json.{Value, Fields}
use credit_scoring_mlops.Exec.{Result, ok, err, Exec, pure, ◌>>=◌}
use credit_scoring_mlops.Scoring.{Floats}
use credit_scoring_mlops.CreditApplication.{
  CreditApplication, Pydantic, validate, int_field, amount_field, in_range, int_of, amount_of,
  read_fields,
}

abbrev pub number : ℕ → Value
number n = Value.int (pos n)

-- What pydantic documents: an integer is an `int`, and a positive one a positive `float`.
pub record ReadsNumbers (fl : Floats) (pydantic : Pydantic fl) : Type 0 where
  pub as_int : (n : ℕ) → pydantic.as_int (number n) ≡ some (pos n)
  pub as_float :
      (n : ℕ)
      → (a : fl.Float) × (pydantic.as_float (number (suc n)) ≡ some a)
        × (fl.less (fl.percent 0) a ≡ true)

-- The payload has an integer of the range under the name.
abbrev pub Has : Fields → String → ℕ → ℕ → Type 0
Has d name low high = (n : ℕ) × (Json.get name d ≡ some (number n)) × ((low ≤ n) × (n ≤ high))

-- A payload with an integer of its range for each field.
pub record IsApplication (d : Fields) : Type 0 where
  pub checking_account_status : Has d "checking_account_status" 1 4
  pub duration_months : Has d "duration_months" 1 100
  pub credit_history : Has d "credit_history" 0 4
  pub purpose : Has d "purpose" 0 10
  pub credit_amount : (n : ℕ) × (Json.get "credit_amount" d ≡ some (number (suc n)))
  pub savings_account : Has d "savings_account" 1 5
  pub employment_since : Has d "employment_since" 1 5
  pub installment_rate : Has d "installment_rate" 1 4
  pub personal_status_sex : Has d "personal_status_sex" 1 4
  pub other_debtors : Has d "other_debtors" 1 3
  pub residence_since : Has d "residence_since" 1 4
  pub property : Has d "property" 1 4
  pub age : Has d "age" 18 100
  pub other_installment_plans : Has d "other_installment_plans" 1 3
  pub housing : Has d "housing" 1 3
  pub existing_credits : Has d "existing_credits" 1 4
  pub job : Has d "job" 1 4
  pub people_liable : Has d "people_liable" 1 2
  pub telephone : Has d "telephone" 1 2
  pub foreign_worker : Has d "foreign_worker" 1 2

-- An action that returns, and leaves the payload.
record Accepts (d : Fields) {A : Type 0} (m : Exec Fields A) : Type 0 where
  result : A
  returns : m d ≡ (ok result, d)

Accepts-pure : (d : Fields) {A : Type 0} (a : A) → Accepts d (pure a)
Accepts-pure d a = record { result = a; returns = refl }

abbrev then : {A B : Type 0} → (A → Exec Fields B) → Result A × Fields → Result B × Fields
then f o = elim o.0 [ ok a ↦ f a o.1 | err e ↦ (err e, o.1) ]

Accepts-bind :
    (d : Fields) {A B : Type 0} (m : Exec Fields A) (f : A → Exec Fields B)
    → Accepts d m
    → ((a : A) → Accepts d (f a))
    → Accepts d (m >>= f)
Accepts-bind d {A} {B} m f k l = record {
  result = (l k.result).result;
  returns = ap (then f) k.returns ∙ (l k.result).returns;
}

module _ (fl : Floats) (pydantic : Pydantic fl) (reads : ReadsNumbers fl pydantic) where
  int_field-Accepts :
      (name : String) (low high : ℕ) (d : Fields)
      → Has d name low high
      → Accepts d (int_field fl pydantic name low high)
  unfolding int_field in_range int_of
  int_field-Accepts name low high d (n, h, (l, u)) = record {
    result = n;
    returns = grind (arith, reads.as_int n, h, l, u);
  }

  amount_field-Accepts :
      (name : String) (n : ℕ) (d : Fields)
      → Json.get name d ≡ some (number (suc n))
      → Accepts d (amount_field fl pydantic name)
  unfolding amount_field amount_of
  amount_field-Accepts name n d h =
      let (a, e, positive) = reads.as_float n in
      record { result = a; returns = grind (arith, e, positive, h) }

  read_fields-Accepts : (d : Fields) → IsApplication d → Accepts d (read_fields fl pydantic)
  unfolding read_fields
  read_fields-Accepts d is =
      Accepts-bind d _ _
        (int_field-Accepts "checking_account_status" 1 4 d is.checking_account_status)
        (λ ch0.
          Accepts-bind d _ _ (int_field-Accepts "duration_months" 1 100 d is.duration_months)
            (λ du1.
              Accepts-bind d _ _ (int_field-Accepts "credit_history" 0 4 d is.credit_history)
                (λ cr2. Accepts-bind d _ _ (int_field-Accepts "purpose" 0 10 d is.purpose) (λ pu3.
                  Accepts-bind d _ _
                    (amount_field-Accepts "credit_amount" is.credit_amount.0 d is.credit_amount.1)
                    (λ amount.
                      Accepts-bind d _ _
                        (int_field-Accepts "savings_account" 1 5 d is.savings_account)
                        (λ sa5.
                          Accepts-bind d _ _
                            (int_field-Accepts "employment_since" 1 5 d is.employment_since)
                            (λ em6.
                              Accepts-bind d _ _
                                (int_field-Accepts "installment_rate" 1 4 d is.installment_rate)
                                (λ in7.
                                  Accepts-bind d _ _
                                    (int_field-Accepts "personal_status_sex" 1 4 d
                                      is.personal_status_sex)
                                    (λ pe8.
                                      Accepts-bind d _ _
                                        (int_field-Accepts "other_debtors" 1 3 d is.other_debtors)
                                        (λ ot9.
                                          Accepts-bind d _ _
                                            (int_field-Accepts "residence_since" 1 4 d
                                              is.residence_since)
                                            (λ re10.
                                              Accepts-bind d _ _
                                                (int_field-Accepts "property" 1 4 d is.property)
                                                (λ pr11.
                                                  Accepts-bind d _ _
                                                    (int_field-Accepts "age" 18 100 d is.age)
                                                    (λ ag12.
                                                      Accepts-bind d _ _
                                                        (int_field-Accepts "other_installment_plans"
                                                          1 3 d is.other_installment_plans)
                                                        (λ ot13.
                                                          Accepts-bind d _ _
                                                            (int_field-Accepts "housing" 1 3 d
                                                            is.housing)
                                                            (λ ho14.
                                                            Accepts-bind d _ _
                                                            (int_field-Accepts "existing_credits" 1
                                                            4 d is.existing_credits)
                                                            (λ ex15.
                                                            Accepts-bind d _ _
                                                            (int_field-Accepts "job" 1 4 d is.job)
                                                            (λ jo16.
                                                            Accepts-bind d _ _
                                                            (int_field-Accepts "people_liable" 1 2 d
                                                            is.people_liable)
                                                            (λ pe17.
                                                            Accepts-bind d _ _
                                                            (int_field-Accepts "telephone" 1 2 d
                                                            is.telephone)
                                                            (λ te18.
                                                            Accepts-bind d _ _
                                                            (int_field-Accepts "foreign_worker" 1 2
                                                            d is.foreign_worker)
                                                            (λ fo19.
                                                            Accepts-pure d _))))))))))))))))))))

  pub validate-accepts :
      (d : Fields)
      → IsApplication d
      → (application : CreditApplication fl) × (validate fl pydantic d ≡ ok application)
  unfolding validate
  validate-accepts d is =
      let accepted = read_fields-Accepts d is in (accepted.result, ap (λ o. o.0) accepted.returns)
