-- ===== src/CreditApplication.antt =====
-- services/api/schemas.py: class CreditApplication, with the ranges that pydantic checks. How pydantic reads
-- an integer or a float out of a JSON value is a parameter.
pub mod Acceptance
use credit_scoring_mlops.Prelude.{ℕ, String, ◌&&◌, Option, none, some, leb, if◌then◌else◌}
use credit_scoring_mlops.Prelude.Int.{ℤ, pos, negsuc}
use credit_scoring_mlops.Json
use credit_scoring_mlops.Json.{Value, Fields}
use credit_scoring_mlops.Exec.{Error, value_error, Result, ok, err, Exec, pure, gets, lift, ◌>>=◌}
use credit_scoring_mlops.Scoring.{Floats}

-- a value that satisfies `ge=low, le=high`
unfoldable pub in_range : ℕ → ℕ → ℤ → Option ℕ
in_range low high (pos n) = if leb low n && leb n high then some n else none
in_range low high (negsuc n) = none

invalid : Error
invalid = value_error "validation error for CreditApplication"

module _ (fl : Floats) where
  pub record CreditApplication : Type 0 where
    pub checking_account_status : ℕ
    pub duration_months : ℕ
    pub credit_history : ℕ
    pub purpose : ℕ
    pub credit_amount : fl.Float
    pub savings_account : ℕ
    pub employment_since : ℕ
    pub installment_rate : ℕ
    pub personal_status_sex : ℕ
    pub other_debtors : ℕ
    pub residence_since : ℕ
    pub property : ℕ
    pub age : ℕ
    pub other_installment_plans : ℕ
    pub housing : ℕ
    pub existing_credits : ℕ
    pub job : ℕ
    pub people_liable : ℕ
    pub telephone : ℕ
    pub foreign_worker : ℕ

  -- What pydantic reads as an `int` and as a `float`; the integers out of every range are among the errors
  pub record Pydantic : Type 0 where
    pub as_int : Value → Option ℤ
    pub as_float : Value → Option fl.Float

  module _ (pydantic : Pydantic) where
    int_of : ℕ → ℕ → Option Value → Result ℕ
    unfolding in_range invalid
    int_of low high none = err invalid
    int_of low high (some v) = elim (pydantic.as_int v) [
      | none ↦ err invalid
      | some z ↦ elim (in_range low high z) [ none ↦ err invalid | some n ↦ ok n ]
    ]

    -- `name: int = Field(..., ge=low, le=high)`
    unfoldable pub int_field : String → ℕ → ℕ → Exec Fields ℕ
    unfolding int_of Json.get
    int_field name low high = do v ← gets (Json.get name); lift (int_of low high v)

    amount_of : Option Value → Result fl.Float
    unfolding invalid
    amount_of none = err invalid
    amount_of (some v) = elim (pydantic.as_float v) [
      | none ↦ err invalid
      | some a ↦ if fl.less (fl.percent 0) a then ok a else err invalid
    ]

    -- `name: float = Field(..., gt=0)`
    unfoldable pub amount_field : String → Exec Fields fl.Float
    unfolding amount_of Json.get
    amount_field name = do v ← gets (Json.get name); lift (amount_of v)

    read_fields : Exec Fields CreditApplication
    unfolding int_field amount_field
    read_fields = do
      checking_account_status ← int_field "checking_account_status" 1 4
      duration_months ← int_field "duration_months" 1 100
      credit_history ← int_field "credit_history" 0 4
      purpose ← int_field "purpose" 0 10
      credit_amount ← amount_field "credit_amount"
      savings_account ← int_field "savings_account" 1 5
      employment_since ← int_field "employment_since" 1 5
      installment_rate ← int_field "installment_rate" 1 4
      personal_status_sex ← int_field "personal_status_sex" 1 4
      other_debtors ← int_field "other_debtors" 1 3
      residence_since ← int_field "residence_since" 1 4
      property ← int_field "property" 1 4
      age ← int_field "age" 18 100
      other_installment_plans ← int_field "other_installment_plans" 1 3
      housing ← int_field "housing" 1 3
      existing_credits ← int_field "existing_credits" 1 4
      job ← int_field "job" 1 4
      people_liable ← int_field "people_liable" 1 2
      telephone ← int_field "telephone" 1 2
      foreign_worker ← int_field "foreign_worker" 1 2
      pure record {
        checking_account_status = checking_account_status;
        duration_months = duration_months;
        credit_history = credit_history;
        purpose = purpose;
        credit_amount = credit_amount;
        savings_account = savings_account;
        employment_since = employment_since;
        installment_rate = installment_rate;
        personal_status_sex = personal_status_sex;
        other_debtors = other_debtors;
        residence_since = residence_since;
        property = property;
        age = age;
        other_installment_plans = other_installment_plans;
        housing = housing;
        existing_credits = existing_credits;
        job = job;
        people_liable = people_liable;
        telephone = telephone;
        foreign_worker = foreign_worker;
      }

    -- `CreditApplication(**payload)`; other keys are ignored
    unfoldable pub validate : Fields → Result CreditApplication
    unfolding read_fields
    validate payload = (read_fields payload).0
