-- ===== src/Tests/Applications.antt =====
-- The theorems on applications, features and the scoring API, applied to concrete inputs. Floats are whole
-- percents there.
use credit_scoring_mlops.Prelude.{
  ℕ, suc, ◌*◌, ◌/◌, ◌≡◌, refl, true, Option, none, some, [], ◌∷◌, ltb, arith, string_eq, nat_eq,
}
use credit_scoring_mlops.Prelude.Int.{ℤ, pos, ◌-ℤ◌}
use credit_scoring_mlops.Prelude.Sorting.{sort_by}
use credit_scoring_mlops.Json
use credit_scoring_mlops.Json.{Value, Fields, end, field, JsonCodec}
use credit_scoring_mlops.Json.Access.{item}
use credit_scoring_mlops.Exec.{Result, ok}
use credit_scoring_mlops.Scoring.{Floats, probability_to_score, get_risk_level, get_decision}
use credit_scoring_mlops.CreditApplication.{
  CreditApplication, Pydantic, validate, int_field, amount_field, in_range,
}
use credit_scoring_mlops.CreditApplication.Acceptance.{ReadsNumbers, number}
use credit_scoring_mlops.Features.{
  FeatureRow, add_features, add_features-served, served, build_features, load_feature_config,
}
use credit_scoring_mlops.ScoringLog.{Database, Model, default_probability, save_scoring_log}
use credit_scoring_mlops.ScoringConsumer
use credit_scoring_mlops.ScoringConsumer.{clean_payload}
use credit_scoring_mlops.ScoringApi
use credit_scoring_mlops.ScoringApi.Agreement.{api_agrees_consumer}
use credit_scoring_mlops.ScoringApi.Logs.{Answers, score_application-Answers}
use credit_scoring_mlops.Producer.{Random, generate_credit_application}
use credit_scoring_mlops.Producer.Valid.{IsRandom, generated-validates}

abbrev pub percents : Floats
percents = record {
  Float = ℕ;
  less = λ a b. ltb a b;
  percent = λ n. n;
  scaled = λ k p. ok (pos (k * p / 100));
  of_nat = λ n. n * 100;
  divide = λ a b. a / b;
  round4 = λ p. p;
  magnitude = λ p. p;
}

abbrev whole : Value → Option ℤ
whole (Value.int z) = some z
whole _ = none

abbrev amount : Value → Option ℕ
amount (Value.int (pos n)) = some n
amount _ = none

abbrev pydantic : Pydantic percents
pydantic = record { as_int = whole; as_float = amount }

positive : (n : ℕ) → ltb 0 (suc n) ≡ true
positive n = ground arith

pydantic-ReadsNumbers : ReadsNumbers percents pydantic
pydantic-ReadsNumbers = record { as_int = λ n. refl; as_float = λ n. (suc n, refl, positive n) }

abbrev thresholds : Fields
thresholds =
    field "long_term_threshold" (number 24) (field "high_amount_threshold" (number 5000) end)

abbrev json : JsonCodec
json = record {
  dumps = λ v. "{}";
  loads = λ s. some (Value.obj thresholds);
  decode_message = λ s. "Expecting value";
}

abbrev pub model : Model percents
model = record {
  name = "CreditScoringCatBoost";
  pydantic = pydantic;
  at_least = λ p v. ok (ltb 2000 p);
  json = json;
  feature_config = some "{}";
  predict_proba = λ row. ok 40;
}

abbrev pub database : Database percents
database = record { commit = λ rows row. ok tt; refresh = λ row. ok tt; utcnow = λ rows. 5 }

abbrev lowest : Random
lowest = record { randint = λ n low high. low; choice = λ n ts. 6 }

lowest-IsRandom : IsRandom lowest
unfolding nat_eq
lowest-IsRandom = record { randint = λ n low high h. (omega arith, h); choice = λ n. refl }

generated-validates_example :
    (application : CreditApplication percents) × (validate percents pydantic
        (clean_payload percents (generate_credit_application lowest "x1" "now"))
      ≡ ok application)
generated-validates_example =
    generated-validates lowest percents pydantic "x1" "now" lowest-IsRandom pydantic-ReadsNumbers

abbrev loan : CreditApplication percents
loan = record {
  checking_account_status = 1;
  duration_months = 6;
  credit_history = 0;
  purpose = 0;
  credit_amount = 500;
  savings_account = 1;
  employment_since = 1;
  installment_rate = 1;
  personal_status_sex = 1;
  other_debtors = 1;
  residence_since = 1;
  property = 1;
  age = 18;
  other_installment_plans = 1;
  housing = 1;
  existing_credits = 1;
  job = 1;
  people_liable = 1;
  telephone = 1;
  foreign_worker = 1;
}

abbrev config : Result Value
config = ok (Value.obj thresholds)

abbrev loan_row : FeatureRow percents
loan_row = record {
  application = loan;
  credit_amount_per_month = 0;
  credit_amount_per_age = 0;
  is_long_term_loan = 0;
  is_high_amount_loan = 0;
}

trained : add_features percents model.at_least config (loan ∷ []) ≡ ok (loan_row ∷ [])
unfolding add_features item Json.get string_eq
trained = refl

add_features-served_example : served percents model.at_least config (loan ∷ []) ≡ ok (loan_row ∷ [])
add_features-served_example =
    add_features-served percents model.at_least config (loan ∷ []) (loan_row ∷ []) trained

abbrev api : ScoringApi.Services percents
api = record { model = model; db = database; explain = λ row. ok [] }

abbrev consumer : ScoringConsumer.Services percents
consumer = record {
  model = model;
  db = database;
  now = λ st. "2026-01-01T00:00:00+00:00";
  produce = λ st r. ok tt;
  commit = λ st o. ok tt;
}

abbrev fresh : ScoringApi.State percents
fresh = record { logs = []; requests = 0; errors = 0; observed = []; decisions = [] }

score_application-Answers_example :
    let (r, st') = ScoringApi.score_application percents api loan fresh in
    (st'.requests ≡ 1) × Answers percents api loan fresh r st'
score_application-Answers_example = score_application-Answers percents api loan fresh

abbrev sent : Fields
sent = generate_credit_application lowest "x1" "now"

abbrev idle : ScoringConsumer.State percents
idle = record {
  logs = [];
  produced = [];
  committed = [];
  requests = 0;
  errors = 0;
  received = 0;
  invalid = 0;
}

abbrev answer : ScoringApi.ScoringResponse percents
answer = record {
  default_probability = 40;
  score = pos 630;
  risk_level = "medium";
  decision = "manual_review";
  model_name = "CreditScoringCatBoost";
  top_reasons = [];
}

abbrev result : ScoringConsumer.Scored percents
result = record {
  application_id = some (Value.str "x1");
  default_probability = 40;
  score = pos 630;
  risk_level = "medium";
  decision = "manual_review";
  model_name = "CreditScoringCatBoost";
  scored_at = "2026-01-01T00:00:00+00:00";
}

valid_sent : validate percents pydantic (clean_payload percents sent) ≡ ok loan
unfolding validate clean_payload generate_credit_application int_field amount_field in_range
    Json.get string_eq
valid_sent = refl

api_scores : (ScoringApi.score_application percents api loan fresh).0 ≡ ok answer
unfolding sort_by ScoringApi.score_application build_features load_feature_config save_scoring_log
    item Json.get string_eq probability_to_score ◌-ℤ◌ get_risk_level get_decision
api_scores = refl

consumer_scores : (ScoringConsumer.score_application percents consumer sent idle).0 ≡ ok result
unfolding ScoringConsumer.score_application ScoringConsumer.scored_as default_probability
    save_scoring_log validate clean_payload generate_credit_application int_field amount_field
    in_range Json.get item string_eq probability_to_score ◌-ℤ◌ get_risk_level get_decision
    build_features load_feature_config
consumer_scores = refl

api_agrees_consumer_example :
    (answer.default_probability ≡ result.default_probability)
    × (answer.score ≡ result.score)
    × (answer.risk_level ≡ result.risk_level)
    × (answer.decision ≡ result.decision)
    × (answer.model_name ≡ result.model_name)
api_agrees_consumer_example =
    api_agrees_consumer percents api consumer sent loan fresh idle answer result refl valid_sent
      api_scores consumer_scores
