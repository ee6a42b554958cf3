-- ===== src/Reviewer.antt =====
-- ai_engineering/agents/reviewer_agent.py: the quality gates before a promotion. Floats are a parameter: a
-- carrier, Python's `>=` and `+`.
use credit_scoring_mlops.Prelude.{
  String, ◌≡◌, ◌⊎◌, ◌≢◌, Bool, true, false, not, ◌&&◌, Option, none, some, List, [], ◌∷◌, arith,
  if◌then◌else◌,
}

pub record Metrics (Float : Type 0) : Type 0 where
  pub roc_auc : Option Float
  pub recall : Option Float
  pub precision : Option Float

-- class QualityGateConfig
pub record QualityGateConfig (Float : Type 0) : Type 0 where
  pub min_roc_auc : Float
  pub min_recall : Float
  pub min_precision : Float
  pub min_roc_auc_improvement : Float

-- One entry of `checks`
pub record Check : Type 0 where
  pub name : String
  pub passed : Bool

-- The dict that `review` returns
pub record Review (Float : Type 0) : Type 0 where
  pub decision : String
  pub approved : Bool
  pub checks : List Check
  pub failed_checks : List String
  pub champion_roc_auc : Option Float
  pub candidate_roc_auc : Option Float
  pub reason : String

-- `all(checks.values())`
unfoldable pub all_passed : List Check → Bool
all_passed [] = true
all_passed (c ∷ checks) = c.passed && all_passed checks

-- `[name for name, passed in checks.items() if not passed]`
unfoldable pub failed_names : List Check → List String
failed_names [] = []
failed_names (c ∷ checks) =
    let rest = failed_names checks in if not c.passed then c.name ∷ rest else rest

module _ {Float : Type 0} (at_least : Float → Float → Bool) (plus : Float → Float → Float) where
  -- `_meets`
  unfoldable pub meets : Option Float → Float → Bool
  meets none threshold = false
  meets (some value) threshold = at_least value threshold

  -- The check `roc_auc_improvement`
  unfoldable pub improves : Option Float → Option Float → Float → Bool
  improves none candidate margin = false
  improves (some champion) none margin = false
  improves (some champion) (some candidate) margin = at_least candidate (plus champion margin)

  unfoldable pub checks_of : QualityGateConfig Float → Metrics Float → Metrics Float → List Check
  unfolding meets improves
  checks_of config champion candidate =
      record { name = "roc_auc_threshold"; passed = meets candidate.roc_auc config.min_roc_auc }
      ∷ record { name = "recall_threshold"; passed = meets candidate.recall config.min_recall }
      ∷ record {
        name = "precision_threshold";
        passed = meets candidate.precision config.min_precision;
      }
      ∷ record {
        name = "roc_auc_improvement";
        passed = improves champion.roc_auc candidate.roc_auc config.min_roc_auc_improvement;
      }
      ∷ []

  -- `review`
  unfoldable pub review : QualityGateConfig Float → Metrics Float → Metrics Float → Review Float
  unfolding checks_of all_passed failed_names
  review config champion candidate =
      let checks = checks_of config champion candidate in
      let approved = all_passed checks in
      record {
        decision = if approved then "PROMOTE" else "REJECT";
        approved = approved;
        checks = checks;
        failed_checks = failed_names checks;
        champion_roc_auc = champion.roc_auc;
        candidate_roc_auc = candidate.roc_auc;
        reason = if approved then "All quality gates passed" else "Quality gates failed";
      }

  -- An approved review decides PROMOTE and names no failed check; the candidate then has a ROC AUC, a recall
  -- and a precision that reach their gates, and the champion has a ROC AUC that the candidate's reaches
  -- with the margin. A review that is not approved decides REJECT and names a failed check.
  pub review_gates :
      (config : QualityGateConfig Float) (champion candidate : Metrics Float)
      → let r = review config champion candidate in
        ((r.approved ≡ true)
          × (r.decision ≡ "PROMOTE")
          × (r.failed_checks ≡ [])
          × ((auc : Float) × ((recall : Float) × ((precision : Float) × ((old : Float)
                    × (candidate.roc_auc ≡ some auc)
                    × (at_least auc config.min_roc_auc ≡ true)
                    × (candidate.recall ≡ some recall)
                    × (at_least recall config.min_recall ≡ true)
                    × (candidate.precision ≡ some precision)
                    × (at_least precision config.min_precision ≡ true)
                    × (champion.roc_auc ≡ some old)
                    × (at_least auc (plus old config.min_roc_auc_improvement) ≡ true))))))
        ⊎ ((r.approved ≡ false) × (r.decision ≡ "REJECT") × (r.failed_checks ≢ []))
  unfolding review checks_of meets improves all_passed failed_names
  review_gates config champion candidate = grind arith
