-- ===== src/Producer/Valid.antt =====
-- services/kafka_producer/application_producer.py: what the producer sends, the scoring consumer accepts.
use credit_scoring_mlops.Prelude.{
  ℕ, zero, suc, String, ◌≡◌, ◌≤◌, refl, ap, ◌∙◌, true, some, arith, contains, nat_eq, string_eq,
}
use credit_scoring_mlops.Json
use credit_scoring_mlops.Json.{Value, Fields}
use credit_scoring_mlops.Exec.{ok}
use credit_scoring_mlops.Scoring.{Floats}
use credit_scoring_mlops.CreditApplication.{CreditApplication, Pydantic, validate}
use credit_scoring_mlops.CreditApplication.Acceptance.{
  number, ReadsNumbers, IsApplication, validate-accepts,
}
use credit_scoring_mlops.ScoringConsumer.{clean_payload}
use credit_scoring_mlops.Producer.{Random, terms, generate_credit_application, drawn}

-- What Python's `random` documents.
pub record IsRandom (rng : Random) : Type 0 where
  pub randint :
      (n low high : ℕ)
      → low ≤ high
      → (low ≤ rng.randint n low high) × (rng.randint n low high ≤ high)
  pub choice : (n : ℕ) → contains terms (rng.choice n terms) ≡ true

module _ (rng : Random) (random : IsRandom rng) where
  term-range : (n : ℕ) → (1 ≤ rng.choice n terms) × (rng.choice n terms ≤ 100)
  term-range n = grind (arith, random.choice n)

  positive : (n : ℕ) → 1 ≤ n → (m : ℕ) × (n ≡ suc m)
  positive zero h = elim h [ ]
  positive (suc m) h = (m, refl)

  drawn-IsApplication : IsApplication (drawn rng)
  unfolding drawn Json.get string_eq
  drawn-IsApplication = record {
    checking_account_status = (_, refl, random.randint 0 1 4 (omega arith));
    duration_months = (_, refl, term-range 1);
    credit_history = (_, refl, random.randint 2 0 4 (omega arith));
    purpose = (_, refl, random.randint 3 0 10 (omega arith));
    credit_amount =
        let (m, e) =
          positive (rng.randint 4 500 15000)
            (omega (arith, random.randint 4 500 15000 (omega arith))) in
        (m, ap (λ k. some (number k)) e);
    savings_account = (_, refl, random.randint 5 1 5 (omega arith));
    employment_since = (_, refl, random.randint 6 1 5 (omega arith));
    installment_rate = (_, refl, random.randint 7 1 4 (omega arith));
    personal_status_sex = (_, refl, random.randint 8 1 4 (omega arith));
    other_debtors = (_, refl, random.randint 9 1 3 (omega arith));
    residence_since = (_, refl, random.randint 10 1 4 (omega arith));
    property = (_, refl, random.randint 11 1 4 (omega arith));
    age = (
      _,
      refl,
      (
        omega (arith, random.randint 12 18 75 (omega arith)),
        omega (arith, random.randint 12 18 75 (omega arith)),
      ),
    );
    other_installment_plans = (_, refl, random.randint 13 1 3 (omega arith));
    housing = (_, refl, random.randint 14 1 3 (omega arith));
    existing_credits = (_, refl, random.randint 15 1 4 (omega arith));
    job = (_, refl, random.randint 16 1 4 (omega arith));
    people_liable = (_, refl, random.randint 17 1 2 (omega arith));
    telephone = (_, refl, random.randint 18 1 2 (omega arith));
    foreign_worker = (_, refl, random.randint 19 1 2 (omega arith));
  }

-- The dict without the keys that the consumer drops.
clean-generated :
    (rng : Random) (fl : Floats) (k t : String)
    → clean_payload fl (generate_credit_application rng k t) ≡ drawn rng
unfolding clean_payload generate_credit_application drawn string_eq
clean-generated rng fl k t = refl

-- If the random numbers lie in the ranges that are asked for, and pydantic reads integers as numbers, then the
-- consumer's schema accepts every application that the producer generates.
pub generated-validates :
    (rng : Random) (fl : Floats) (pydantic : Pydantic fl) (k t : String)
    → IsRandom rng
    → ReadsNumbers fl pydantic
    → (application : CreditApplication fl) × (validate fl pydantic
          (clean_payload fl (generate_credit_application rng k t))
        ≡ ok application)
generated-validates rng fl pydantic k t random reads =
    let (application, e) =
      validate-accepts fl pydantic reads (drawn rng) (drawn-IsApplication rng random) in
    (application, ap (validate fl pydantic) (clean-generated rng fl k t) ∙ e)
