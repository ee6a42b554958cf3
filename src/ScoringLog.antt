-- ===== src/ScoringLog.antt =====
-- services/api/db/models.py and repository.py: the table of scoring logs, less its ids, and what the scoring
-- services share. The database is a parameter.
use credit_scoring_mlops.Prelude.{
  ℕ, String, Bool, Option, List, [], ◌∷◌, ◌++◌, ltb, take, ◌==◌, nat_eq, ◌||◌, ◌&&◌,
}
use credit_scoring_mlops.Prelude.Int.{ℤ}
use credit_scoring_mlops.Prelude.Sorting.{sort_by}
use credit_scoring_mlops.Json.{Value, JsonCodec}
use credit_scoring_mlops.Exec.{Result, ok, err, Exec, gets, lift, modify, ◌>>=◌, ◌>>◌}
use credit_scoring_mlops.Scoring.{Floats}
use credit_scoring_mlops.CreditApplication.{CreditApplication, Pydantic}
use credit_scoring_mlops.Features.{FeatureRow, load_feature_config, build_features}

module _ (fl : Floats) where
  -- class ScoringLog
  pub record ScoringLog : Type 0 where
    pub age : ℕ
    pub duration_months : ℕ
    pub credit_amount : fl.Float
    pub default_probability : fl.Float
    pub score : ℤ
    pub risk_level : String
    pub decision : String
    pub model_name : String
    pub created_at : ℕ

  -- The database: whether a row can be committed after the given ones and then refreshed, and the time of
  -- its insertion
  pub record Database : Type 0 where
    pub commit : List ScoringLog → ScoringLog → Result (Unit {0})
    pub refresh : ScoringLog → Result (Unit {0})
    pub utcnow : List ScoringLog → ℕ

  -- The model of services/api/model_loader.py, with what it needs: pydantic, pandas' `>=`, JSON and the file of
  -- the feature configuration.
  pub record Model : Type 0 where
    pub name : String
    pub pydantic : Pydantic fl
    pub at_least : fl.Float → Value → Result Bool
    pub json : JsonCodec
    pub feature_config : Option String
    -- `float(model.predict_proba(features)[:, 1][0])`
    pub predict_proba : FeatureRow fl → Result fl.Float

  predicted : Model → Result (FeatureRow fl) → Result fl.Float
  predicted m (err e) = err e
  predicted m (ok features) = m.predict_proba features

  -- `build_features` and the model's answer to it
  unfoldable pub default_probability : Model → CreditApplication fl → Result fl.Float
  unfolding predicted build_features
  default_probability m application =
      predicted m
        (build_features fl m.at_least (load_feature_config m.json m.feature_config) application)

  unfoldable pub log_row :
      CreditApplication fl → fl.Float → ℤ → String → String → String → ℕ → ScoringLog
  log_row application p score risk_level decision model_name now = record {
    age = application.age;
    duration_months = application.duration_months;
    credit_amount = application.credit_amount;
    default_probability = p;
    score = score;
    risk_level = risk_level;
    decision = decision;
    model_name = model_name;
    created_at = now;
  }

  -- `save_scoring_log`
  unfoldable pub save_scoring_log :
      Database
      → CreditApplication fl
      → fl.Float
      → ℤ
      → String
      → String
      → String
      → Exec (List ScoringLog) (Unit {0})
  unfolding log_row
  save_scoring_log db application p score risk_level decision model_name = do
    now ← gets db.utcnow
    let row = log_row application p score risk_level decision model_name now
    done ← gets (λ rows. db.commit rows row)
    lift done
    modify (λ rows. rows ++ row ∷ [])
    lift (db.refresh row)

  -- `get_latest_scoring_logs`; `tie` is the database's order of rows of one time
  unfoldable pub get_latest_scoring_logs :
      (ScoringLog → ScoringLog → Bool) → ℕ → List ScoringLog → List ScoringLog
  get_latest_scoring_logs tie limit rows = take limit (
      sort_by
        (λ (a b : ScoringLog).
          ltb b.created_at a.created_at || (a.created_at == b.created_at && tie a b))
        rows)
