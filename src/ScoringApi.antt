-- ===== src/ScoringApi.antt =====
-- services/api/main.py and explainability.py: the HTTP service that scores one application. The counters are
-- fields of the state; the latency histogram is left out. SHAP is a parameter.
pub mod Agreement
pub mod Logs
use credit_scoring_mlops.Prelude.{
  ℕ, suc, String, Bool, not, List, [], ◌∷◌, ◌++◌, if◌then◌else◌, take,
}
use credit_scoring_mlops.Prelude.Int.{ℤ}
use credit_scoring_mlops.Prelude.Sorting.{sort_by}
use credit_scoring_mlops.Exec.{
  Error, Result, ok, err, Exec, pure, raise, lift, modify, catch, ◌>>=◌, ◌>>◌,
}
use credit_scoring_mlops.Scoring.{Floats, probability_to_score, get_risk_level, get_decision}
use credit_scoring_mlops.CreditApplication.{CreditApplication}
use credit_scoring_mlops.Features.{FeatureRow, load_feature_config, build_features}
use credit_scoring_mlops.ScoringLog.{
  ScoringLog, Database, Model, save_scoring_log, get_latest_scoring_logs,
}

module _ (fl : Floats) where
  -- class ExplanationReason
  pub record ExplanationReason : Type 0 where
    pub feature : String
    pub value : fl.Float
    pub shap_value : fl.Float
    pub impact : String

  -- class ScoringResponse
  pub record ScoringResponse : Type 0 where
    pub default_probability : fl.Float
    pub score : ℤ
    pub risk_level : String
    pub decision : String
    pub model_name : String
    pub top_reasons : List ExplanationReason

  -- A column of the features with its value and its SHAP value
  pub record Contribution : Type 0 where
    pub feature : String
    pub value : fl.Float
    pub shap_value : fl.Float

  reason_of : Contribution → ExplanationReason
  reason_of c = record {
    feature = c.feature;
    value = c.value;
    shap_value = fl.round4 c.shap_value;
    impact = if fl.less (fl.percent 0) c.shap_value then "increased_risk" else "decreased_risk";
  }

  reasons_of : List Contribution → List ExplanationReason
  unfolding reason_of
  reasons_of [] = []
  reasons_of (c ∷ cs) = reason_of c ∷ reasons_of cs

  -- `sorted(.., key=abs(shap_value), reverse=True)`, which keeps the order of equal keys
  unfoldable pub stronger : ExplanationReason → ExplanationReason → Bool
  stronger a b = not (fl.less (fl.magnitude a.shap_value) (fl.magnitude b.shap_value))

  -- `get_top_reasons`, on what `zip` yields
  unfoldable pub get_top_reasons : ℕ → List Contribution → List ExplanationReason
  unfolding reasons_of stronger
  get_top_reasons top_n contributions = take top_n (sort_by stronger (reasons_of contributions))

  -- The table and the counters and gauges of services/api/metrics.py
  pub record State : Type 0 where
    pub logs : List (ScoringLog fl)
    pub requests : ℕ
    pub errors : ℕ
    pub observed : List (fl.Float × ℤ)
    pub decisions : List (String × String)

  pub record Services : Type 0 where
    pub model : Model fl
    pub db : Database fl
    -- the SHAP values of the features, by column
    pub explain : FeatureRow fl → Result (List Contribution)

  module _ (s : Services) where
    save_log : CreditApplication fl → fl.Float → ℤ → Exec State (Unit {0})
    unfolding get_risk_level get_decision
    save_log application p score st =
        let (r, rows) =
          save_scoring_log fl s.db application p score (get_risk_level fl p) (get_decision fl p)
            s.model.name st.logs in
        (r, record st { logs = rows })

    count_success : fl.Float → ℤ → Exec State (Unit {0})
    unfolding get_risk_level get_decision
    count_success p score = modify (λ st. record st {
      observed = st.observed ++ (p, score) ∷ [];
      decisions = st.decisions ++ (get_decision fl p, get_risk_level fl p) ∷ [];
    })

    response : fl.Float → ℤ → List Contribution → ScoringResponse
    unfolding get_top_reasons
    response p score contributions = record {
      default_probability = fl.round4 p;
      score = score;
      risk_level = get_risk_level fl p;
      decision = get_decision fl p;
      model_name = s.model.name;
      top_reasons = get_top_reasons 3 contributions;
    }

    record_scored :
        CreditApplication fl → fl.Float → List Contribution → ℤ → Exec State ScoringResponse
    unfolding save_log count_success response
    record_scored application p contributions score = do
      save_log application p score
      count_success p score
      pure (response p score contributions)

    record_score : CreditApplication fl → fl.Float → List Contribution → Exec State ScoringResponse
    unfolding record_scored probability_to_score
    record_score application p contributions =
        lift (probability_to_score fl p) >>= record_scored application p contributions

    -- The `try` of `score_application`
    score : CreditApplication fl → Exec State ScoringResponse
    unfolding record_score
    score application = do
      features ← lift (
          build_features fl s.model.at_least
            (load_feature_config s.model.json s.model.feature_config) application)
      p ← lift (s.model.predict_proba features)
      contributions ← lift (s.explain features)
      record_score application p contributions

    -- `score_application`
    unfoldable pub score_application : CreditApplication fl → Exec State ScoringResponse
    unfolding score
    score_application application = do
      modify (λ st. record st { requests = suc st.requests })
      catch (score application)
          (λ e. modify (λ st. record st { errors = suc st.errors }) >> raise e)

    -- `scoring_logs`
    unfoldable pub scoring_logs :
        (ScoringLog fl → ScoringLog fl → Bool) → ℕ → State → List (ScoringLog fl)
    scoring_logs tie limit st = get_latest_scoring_logs fl tie limit st.logs
