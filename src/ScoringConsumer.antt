-- ===== src/ScoringConsumer.antt =====
-- services/kafka_consumer/scoring_consumer.py: the consumer that scores the applications of a Kafka topic.
-- Parameters stand for decoding, pydantic, the model, the database and the Kafka clients.
pub mod Commits
use credit_scoring_mlops.Prelude.{
  ℕ, zero, suc, ◌+◌, ◌≤◌, String, Bool, true, false, not, ◌||◌, Option, none, some, List, [], ◌∷◌,
  ◌++◌, ◌==◌, string_eq, if◌then◌else◌,
}
use credit_scoring_mlops.Prelude.Int.{ℤ}
use credit_scoring_mlops.Json
use credit_scoring_mlops.Json.{Value, Fields, end, field, truthy}
use credit_scoring_mlops.Exec.{
  Error, value_error, invalid_transition, Result, ok, err, Exec, pure, raise, gets, lift, modify,
  catch, ◌>>=◌, ◌>>◌,
}
use credit_scoring_mlops.CreditApplication.{CreditApplication, validate}
use credit_scoring_mlops.ScoringLog.{
  ScoringLog, Database, Model, save_scoring_log, default_probability,
}
use credit_scoring_mlops.Scoring.{Floats, probability_to_score, get_risk_level, get_decision}

module _ (fl : Floats) where
  -- The dict that `score_application` returns
  pub record Scored : Type 0 where
    pub application_id : Option Value
    pub default_probability : fl.Float
    pub score : ℤ
    pub risk_level : String
    pub decision : String
    pub model_name : String
    pub scored_at : String

  -- What the consumer shares: rows of the scoring log, results that were handed to the producer, the
  -- offsets of the messages that were committed, and the counters of requests, errors, messages received
  -- and messages found invalid.
  pub record State : Type 0 where
    pub logs : List (ScoringLog fl)
    pub produced : List (Option Value × Scored)
    pub committed : List ℕ
    pub requests : ℕ
    pub errors : ℕ
    pub received : ℕ
    pub invalid : ℕ

  -- The outside
  pub record Services : Type 0 where
    pub model : Model fl
    pub db : Database fl
    -- `datetime.now(timezone.utc).isoformat()`
    pub now : State → String
    -- `producer.produce(..)` and `producer.poll(0)`, and the commit of an offset
    pub produce : State → Scored → Result (Unit {0})
    pub commit : State → ℕ → Result (Unit {0})

  -- A message: its offset, and its value decoded and parsed
  pub record Message : Type 0 where
    pub offset : ℕ
    pub payload : Result Value

  -- An answer of `consumer.poll`
  pub data Polled : Type 0 where
    no_message : Polled
    partition_eof : Polled
    poll_error : Polled
    received_message : Message → Polled

  -- `{key: value for .. if key not in metadata_fields}`
  unfoldable pub clean_payload : Fields → Fields
  clean_payload end = end
  clean_payload (field k v d) =
      let rest = clean_payload d in
      if k == "application_id" || k == "created_at" then rest else field k v rest

  unfoldable pub scored_as : Option Value → fl.Float → ℤ → String → String → Scored
  unfolding get_risk_level get_decision
  scored_as k p score model_name now = record {
    application_id = k;
    default_probability = fl.round4 p;
    score = score;
    risk_level = get_risk_level fl p;
    decision = get_decision fl p;
    model_name = model_name;
    scored_at = now;
  }

  -- `key=str(application_id) if application_id else None`
  key_of : Option Value → Option Value
  key_of none = none
  key_of (some v) = if truthy v then some v else none

  -- `isinstance(application_payload, dict)`
  as_dict : Value → Result Fields
  as_dict (Value.obj d) = ok d
  as_dict _ = err (value_error "Kafka message payload must be a JSON object")

  -- The exception is a ValueError; UnicodeDecodeError, JSONDecodeError and ValidationError are too
  unfoldable pub is_value_error : Error → Bool
  is_value_error (value_error m) = true
  is_value_error (invalid_transition m) = true
  is_value_error e = false

  module _ (s : Services) where
    -- `save_scoring_log` on the shared table
    save_log : CreditApplication fl → fl.Float → ℤ → Exec State (Unit {0})
    unfolding get_risk_level get_decision
    save_log application p score st =
        let (r, rows) =
          save_scoring_log fl s.db application p score (get_risk_level fl p) (get_decision fl p)
            s.model.name st.logs in
        (r, record st { logs = rows })

    -- `score_application`
    unfoldable pub score_application : Fields → Exec State Scored
    unfolding clean_payload Json.get save_log scored_as probability_to_score
    score_application payload = do
      application ← lift (validate fl s.model.pydantic (clean_payload payload))
      p ← lift (default_probability fl s.model application)
      score ← lift (probability_to_score fl p)
      save_log application p score
      now ← gets s.now
      pure (scored_as (Json.get "application_id" payload) p score s.model.name now)

    -- `consumer.commit(message=message, asynchronous=False)`
    commit : Message → Exec State (Unit {0})
    commit message = do
      done ← gets (λ st. s.commit st message.offset)
      lift done
      modify (λ st. record st { committed = st.committed ++ message.offset ∷ [] })

    -- `producer.produce(..)` and `producer.poll(0)`
    produce : Scored → Exec State (Unit {0})
    unfolding key_of
    produce result = do
      done ← gets (λ st. s.produce st result)
      lift done
      modify (λ st. record st {
        produced = st.produced ++ (key_of result.application_id, result) ∷ [];
      })

    -- The `try` of `process_message`
    score_message : Message → Exec State (Unit {0})
    unfolding as_dict produce commit
    score_message message = do
      value ← lift message.payload
      payload ← lift (as_dict value)
      result ← score_application payload
      modify (λ st. record st { requests = suc st.requests })
      produce result
      commit message

    -- Its handlers
    handle_failure : Message → Error → Exec State (Unit {0})
    unfolding is_value_error commit
    handle_failure message e =
        if is_value_error e
        then (modify (λ st. record st { errors = suc st.errors; invalid = suc st.invalid })
            >> commit message)
        else modify (λ st. record st { errors = suc st.errors })

    -- `process_message`
    unfoldable pub process_message : Message → Exec State (Unit {0})
    unfolding score_message handle_failure produce commit
    process_message message = do
      modify (λ st. record st { received = suc st.received })
      catch (score_message message) (handle_failure message)

    -- One round of the loop of `main`
    unfoldable pub poll_once : Polled → Exec State (Unit {0})
    unfolding process_message
    poll_once no_message = pure tt
    poll_once partition_eof = pure tt
    poll_once poll_error = modify (λ st. record st { errors = suc st.errors })
    poll_once (received_message message) = process_message message

    -- The loop of `main` until it is interrupted, or an exception leaves it
    unfoldable pub poll_all : List Polled → Exec State (Unit {0})
    unfolding poll_once
    poll_all [] = pure tt
    poll_all (p ∷ ps) = poll_once p >> poll_all ps
