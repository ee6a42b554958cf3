-- ===== src/Orchestrator/Bounds.antt =====
-- ai_engineering/agents/orchestrator.py: what the agent may recommend, whatever the model answers.
use credit_scoring_mlops.Prelude.{
  String, ◌≡◌, ◌⊎◌, inl, refl, true, Option, none, some, List, arith, string_eq, if◌then◌else◌,
}
use credit_scoring_mlops.Json
use credit_scoring_mlops.Json.{Value, Fields}
use credit_scoring_mlops.Json.Access.{get_default}
use credit_scoring_mlops.Exec.{Result, ok, err}
use credit_scoring_mlops.Schemas.{AgentDecision}
use credit_scoring_mlops.Orchestrator.{
  Llm, is_allowed_action, allowed_action, clamp, clamped, confidence_of, recommendation,
  recommended, judged, read_answer, reason,
}

module _ (llm : Llm) where
  -- A confidence from 0 to 1.
  abbrev InRange : String → Type 0
  InRange c = (c ≡ "0.0") ⊎ ((llm.less "0.0" c ≡ true) × ((c ≡ "1.0") ⊎ (llm.less c "1.0" ≡ true)))

  -- One of the four actions with a confidence in range, or a review by hand, which requires a human.
  unfoldable pub IsSafe : AgentDecision → Type 0
  IsSafe d =
      ((is_allowed_action d.action ≡ true)
        × ((c : String) × ((Json.get "confidence" d.parameters ≡ some (Value.float c))
              × InRange c)))
      ⊎ ((d.action ≡ "manual_review") × (d.requires_human_approval ≡ true))

  clamp-InRange : (x : String) → InRange (clamp llm x)
  unfolding clamp
  clamp-InRange x = grind arith

  clamped-InRange : (r : Result String) (c : String) → clamped llm r ≡ ok c → InRange c
  unfolding clamped
  clamped-InRange (ok x) c h = grind (arith, clamp-InRange x, h)
  clamped-InRange (err _) c h = grind (arith, h)

  recommendation-IsSafe :
      (action : String) (payload : Fields) (c : String)
      → is_allowed_action action ≡ true
      → InRange c
      → IsSafe (recommendation llm action payload c)
  unfolding recommendation IsSafe Json.get string_eq
  recommendation-IsSafe action payload c allowed h = inl (allowed, (c, (refl, h)))

  recommended-IsSafe :
      (action : String) (payload : Fields) (v : Value) (d : AgentDecision)
      → is_allowed_action action ≡ true
      → recommended llm action payload (confidence_of llm v) ≡ ok d
      → IsSafe d
  unfolding recommended confidence_of
  recommended-IsSafe action payload v d allowed h =
      grind (arith, clamped-InRange, recommendation-IsSafe)

  judged_option-IsSafe :
      (payload : Fields) (o : Option String) (d : AgentDecision)
      → ((action : String) → o ≡ some action → is_allowed_action action ≡ true)
      → judged llm payload (ok o) ≡ ok d
      → IsSafe d
  unfolding judged IsSafe
  judged_option-IsSafe payload none d allowed h = ground arith
  judged_option-IsSafe payload (some action) d allowed h =
      recommended-IsSafe action payload (get_default "confidence" (Value.float "0.0") payload) d
        (allowed action refl) h

  judged-IsSafe :
      (payload : Fields) (v : Value) (d : AgentDecision)
      → judged llm payload (allowed_action v) ≡ ok d
      → IsSafe d
  unfolding judged allowed_action IsSafe
  judged-IsSafe payload (Value.str s) d h =
      judged_option-IsSafe payload (if is_allowed_action s then some s else none) d
        (λ action e. ground arith) h
  judged-IsSafe payload _ d h = ground arith

  read_answer-IsSafe :
      (raw : String) (o : Option Value) (d : AgentDecision)
      → read_answer llm raw o ≡ ok d
      → IsSafe d
  unfolding read_answer IsSafe
  read_answer-IsSafe raw none d h = grind arith
  read_answer-IsSafe raw (some (Value.obj payload)) d h =
      judged-IsSafe payload (get_default "action" Value.null payload) d h
  read_answer-IsSafe raw (some _) d h = ground arith

  -- Whatever the language model answers to whatever task: the recommendation that comes back, if no exception
  -- does, is one of the four allowed actions with a confidence from 0 to 1, or a manual review that requires
  -- a human's approval.
  pub reason-IsSafe :
      (tools : List String) (task : String) (context : Fields) (d : AgentDecision)
      → reason llm tools task context ≡ ok d
      → IsSafe d
  unfolding reason
  reason-IsSafe tools task context d h = grind (arith, read_answer-IsSafe)
