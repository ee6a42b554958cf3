-- ===== src/Producer.antt =====
-- services/kafka_producer/application_producer.py and scripts/kafka_producer.py: the producers of random
-- credit applications. The random numbers are a parameter: the n-th draw of one application.
pub mod Valid
use credit_scoring_mlops.Prelude.{ℕ, zero, suc, String, Bool, List, [], ◌∷◌, ◌++◌, if◌then◌else◌}
use credit_scoring_mlops.Prelude.Int.{pos}
use credit_scoring_mlops.Json.{Value, Fields, end, field}
use credit_scoring_mlops.CreditApplication.Acceptance.{number}

-- `random.randint(low, high)` and `random.choice(..)` at the n-th draw
pub record Random : Type 0 where
  pub randint : ℕ → ℕ → ℕ → ℕ
  pub choice : ℕ → List ℕ → ℕ

abbrev pub terms : List ℕ
terms = 6 ∷ 12 ∷ 18 ∷ 24 ∷ 36 ∷ 48 ∷ 60 ∷ []

-- the random part of the dict
drawn : Random → Fields
drawn rng = field "checking_account_status" (number (rng.randint 0 1 4)) (
    field "duration_months" (number (rng.choice 1 terms)) (
      field "credit_history" (number (rng.randint 2 0 4)) (
        field "purpose" (number (rng.randint 3 0 10)) (
          field "credit_amount" (number (rng.randint 4 500 15000)) (
            field "savings_account" (number (rng.randint 5 1 5)) (
              field "employment_since" (number (rng.randint 6 1 5)) (
                field "installment_rate" (number (rng.randint 7 1 4)) (
                  field "personal_status_sex" (number (rng.randint 8 1 4)) (
                    field "other_debtors" (number (rng.randint 9 1 3)) (
                      field "residence_since" (number (rng.randint 10 1 4)) (
                        field "property" (number (rng.randint 11 1 4)) (
                          field "age" (number (rng.randint 12 18 75)) (
                            field "other_installment_plans" (number (rng.randint 13 1 3)) (
                              field "housing" (number (rng.randint 14 1 3)) (
                                field "existing_credits" (number (rng.randint 15 1 4)) (
                                  field "job" (number (rng.randint 16 1 4)) (
                                    field "people_liable" (number (rng.randint 17 1 2)) (
                                      field "telephone" (number (rng.randint 18 1 2)) (
                                        field "foreign_worker" (number (rng.randint 19 1 2))
                                          (end))))))))))))))))))))

-- `generate_credit_application` of the service
unfoldable pub generate_credit_application : Random → String → String → Fields
unfolding drawn
generate_credit_application rng application_id created_at =
    field "application_id" (Value.str application_id)
      (field "created_at" (Value.str created_at) (drawn rng))

-- `generate_credit_application` of the script, which sets no time
unfoldable pub script_application : Random → String → Fields
unfolding drawn
script_application rng application_id =
    field "application_id" (Value.str application_id) (drawn rng)
