-- ===== src/Promotion.antt =====
-- ai_engineering/workflows/model_promotion_workflow.py, and `promote_model` of
-- ai_engineering/tools/mlflow_tools.py: moving the champion alias to an evaluated model. The MLflow client
-- is a parameter; the state is the model version that has the alias.
use credit_scoring_mlops.Prelude.{
  String, ◌<>◌, ◌≡◌, ◌⊎◌, Bool, true, false, not, ◌||◌, Option, none, some, arith, ◌==◌, string_eq,
  if◌then◌else◌, get_or,
}
use credit_scoring_mlops.Prelude.Text.{strip}
use credit_scoring_mlops.Json
use credit_scoring_mlops.Json.{Value, Fields, end, field, is_text, is_true, flag, says}
use credit_scoring_mlops.Exec.{Error, Result, ok, err}

-- What the client answers with
pub record ModelVersion : Type 0 where
  pub version : String
  pub run_id : String

abbrev pub Alias : Type 0
Alias = Option ModelVersion

pub record MlflowClient : Type 0 where
  pub model_name : String
  pub model_alias : String
  -- `get_model_version`, `get_model_version_by_alias`, `set_registered_model_alias`
  pub get_model_version : String → Result ModelVersion
  pub get_by_alias : Alias → Result ModelVersion
  pub set_alias : Alias → ModelVersion → Result (Unit {0})
  -- the text of an exception, and `{decision!r}`
  pub message : Error → String
  pub quoted : String → String

-- class PromotionResult
pub record PromotionResult : Type 0 where
  pub status : String
  pub reason : String
  pub details : Fields

-- A text of a dict; the reasons are texts
abbrev text_or : String → Value → String
text_or default (Value.str s) = s
text_or default _ = default

abbrev not_promoted : String → Fields
not_promoted reason = field "promoted" (Value.bool false) (field "reason" (Value.str reason) end)

unfoldable pub already_champion : ModelVersion → Fields
already_champion candidate = field "promoted" (Value.bool false) (
    field "already_champion" (Value.bool true) (
      field "reason" (Value.str ("Model version " <> candidate.version <> " is already champion"))
        (field "version" (Value.str candidate.version) end)))

module _ (client : MlflowClient) where
  unfoldable pub promoted : ModelVersion → Fields
  promoted candidate = field "promoted" (Value.bool true) (
      field "already_champion" (Value.bool false) (
        field "model_name" (Value.str client.model_name) (
          field "alias" (Value.str client.model_alias) (
            field "version" (Value.str candidate.version)
              (field "run_id" (Value.str candidate.run_id) end)))))

  -- `current.get("available") and str(current.get("version")) == str(candidate.version)`
  is_champion : Alias → ModelVersion → Bool
  is_champion alias candidate = elim (client.get_by_alias alias) [
    | err e ↦ false
    | ok current ↦ current.version == candidate.version
  ]

  set_champion : ModelVersion → Alias → Fields × Alias
  unfolding promoted
  set_champion candidate alias = elim (client.set_alias alias candidate) [
    | err e ↦ (not_promoted ("MLflow promotion failed: " <> client.message e), alias)
    | ok u ↦ (promoted candidate, some candidate)
  ]

  promote_candidate : Result ModelVersion → Alias → Fields × Alias
  unfolding is_champion set_champion already_champion
  promote_candidate (err e) alias =
      (not_promoted ("Candidate model version is unavailable: " <> client.message e), alias)
  promote_candidate (ok candidate) alias =
      if is_champion alias candidate
      then (already_champion candidate, alias)
      else set_champion candidate alias

  -- `promote_model`
  unfoldable pub promote_model : String → String → Bool → Alias → Fields × Alias
  unfolding strip promote_candidate set_champion is_champion
  promote_model candidate_version decision human_approved alias =
      if not (decision == "PROMOTE")
      then (
        not_promoted ("Promotion blocked because decision is " <> client.quoted decision),
        alias,
      )
      else if not human_approved
      then (not_promoted "Human approval is required before model promotion", alias)
      else if candidate_version == "" || strip candidate_version == ""
      then (not_promoted "Candidate model version is required", alias)
      else promote_candidate (client.get_model_version candidate_version) alias

  -- A value of a dict, None where it is missing
  value_of : String → Fields → Value
  unfolding Json.get
  value_of k d = get_or (Json.get k d) Value.null

  reason_of : String → Fields → String
  unfolding Json.get
  reason_of default d = elim (Json.get "reason" d) [ none ↦ default | some v ↦ text_or default v ]

  -- The end of `execute`
  outcome : Fields → PromotionResult
  unfolding flag reason_of
  outcome result =
      if flag "promoted" result
      then record {
        status = "promoted";
        reason = "Candidate model promoted to champion";
        details = result;
      }
      else if flag "already_champion" result
      then record { status = "already_champion"; reason = reason_of "" result; details = result }
      else record {
        status = "failed";
        reason = reason_of "Model promotion failed" result;
        details = result;
      }

  -- `execute`
  unfoldable pub execute : String → Fields → Bool → Alias → PromotionResult × Alias
  unfolding says is_true value_of outcome promote_model Json.get reason_of
  execute candidate_version evaluation human_approved alias =
      let decided = field "decision" (value_of "decision" evaluation) end in
      if says "decision" "MANUAL_REVIEW" evaluation
      then (
        record {
          status = "manual_review";
          reason = "Model evaluation requires manual review";
          details = decided;
        },
        alias,
      )
      else if says "decision" "REJECT" evaluation
      then (
        record {
          status = "rejected";
          reason = "Model evaluation rejected the candidate";
          details = decided;
        },
        alias,
      )
      else if not (says "decision" "PROMOTE" evaluation)
          || not (is_true (Json.get "approved" evaluation))
      then (
        record {
          status = "rejected";
          reason = "Candidate does not have a valid PROMOTE evaluation";
          details =
              field "decision" (value_of "decision" evaluation)
                (field "approved" (value_of "approved" evaluation) end);
        },
        alias,
      )
      else if not human_approved
      then (
        record {
          status = "approval_required";
          reason = "Human approval is required before promotion";
          details = decided;
        },
        alias,
      )
      else (let (result, alias') = promote_model candidate_version "PROMOTE" human_approved alias in
          (outcome result, alias'))

  -- The champion alias stays as it is, or it moves to the version that MLflow knows by the candidate's
  -- number; and that only after an evaluation with the decision PROMOTE that is approved, and with a human
  -- approval.
  pub execute_gate :
      (candidate_version : String) (evaluation : Fields) (human_approved : Bool) (alias : Alias)
      → let alias' = (execute candidate_version evaluation human_approved alias).1 in
        (alias' ≡ alias)
        ⊎ ((says "decision" "PROMOTE" evaluation ≡ true)
            × (is_true (Json.get "approved" evaluation) ≡ true)
            × (human_approved ≡ true)
            × ((candidate : ModelVersion) × (client.get_model_version candidate_version
                  ≡ ok candidate)
                × (alias' ≡ some candidate)))
  unfolding execute promote_model promote_candidate set_champion is_champion
  execute_gate candidate_version evaluation human_approved alias = grind arith
