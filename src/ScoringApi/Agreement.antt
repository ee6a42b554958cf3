-- ===== src/ScoringApi/Agreement.antt =====
-- services/api/main.py and services/kafka_consumer/scoring_consumer.py: the two ways to a score agree.
use credit_scoring_mlops.Prelude.{◌≡◌, arith}
use credit_scoring_mlops.Json.{Fields}
use credit_scoring_mlops.Exec.{ok}
use credit_scoring_mlops.Scoring.{Floats}
use credit_scoring_mlops.CreditApplication.{CreditApplication, validate}
use credit_scoring_mlops.ScoringLog.{default_probability}
use credit_scoring_mlops.ScoringConsumer
use credit_scoring_mlops.ScoringConsumer.{clean_payload}
use credit_scoring_mlops.ScoringApi.{
  Services, State, ScoringResponse, score_application, score, response, save_log, record_score,
  record_scored, count_success,
}

module _ (fl : Floats) (api : Services fl) where
  -- If the API and the consumer use the same model, and both score the same application, the API given it as its body and
  -- the consumer as the payload of a message, then they return the same probability, score, risk level, decision and
  -- model name.
  pub api_agrees_consumer :
      (consumer : ScoringConsumer.Services fl) (payload : Fields)
      (application : CreditApplication fl) (st : State fl) (st' : ScoringConsumer.State fl)
      (answer : ScoringResponse fl) (result : ScoringConsumer.Scored fl)
      → api.model ≡ consumer.model
      → validate fl consumer.model.pydantic (clean_payload fl payload) ≡ ok application
      → (score_application fl api application st).0 ≡ ok answer
      → (ScoringConsumer.score_application fl consumer payload st').0 ≡ ok result
      → (answer.default_probability ≡ result.default_probability)
        × (answer.score ≡ result.score)
        × (answer.risk_level ≡ result.risk_level)
        × (answer.decision ≡ result.decision)
        × (answer.model_name ≡ result.model_name)
  unfolding score_application score record_score record_scored response save_log count_success
      ScoringConsumer.score_application default_probability ScoringConsumer.scored_as
  api_agrees_consumer consumer payload application st st' answer result same valid scored scored' =
      grind arith
