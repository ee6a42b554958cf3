-- ===== src/AgentApi/Requests.antt =====
-- ai_engineering/api/agent_service.py and api/main.py: any sequence of the requests that change approvals,
-- sent by any clients to any instances of either API, one after the other.
use credit_scoring_mlops.Prelude.{
  ℕ, String, ◌≡◌, inl, inr, refl, ◌∙◌, ap, sym, true, some, List, [], ◌∷◌, ◌++◌, is_some,
}
use credit_scoring_mlops.Schemas.{ApprovalDecision}
use credit_scoring_mlops.ApprovalStore.Rows.{Row, Table, find}
use credit_scoring_mlops.ApprovalStore.Lifecycle.{Op, apply, run}
use credit_scoring_mlops.ApprovalStore.Invariant.{was_started, run-started_was_decided}
use credit_scoring_mlops.ApprovalStore.Evolution.{run_terminal, IsTerminal}
use credit_scoring_mlops.World.{External, World}
use credit_scoring_mlops.World.Effects.{run-append}
use credit_scoring_mlops.KubernetesExecutor.{Executor}
use credit_scoring_mlops.Orchestrator.{Llm}
use credit_scoring_mlops.ControlApi
use credit_scoring_mlops.ControlApi.Effects
use credit_scoring_mlops.AgentApi.Decision.{AgentDecisionRequest, create_agent_decision}
use credit_scoring_mlops.AgentApi.Decision.Proposals.{Submitted, create_agent_decision-Proposed}
use credit_scoring_mlops.AgentApi.{
  ApprovalCreateRequest, create_approval, decide_approval, execute_approval, reconcile_approval,
  retry_approval,
}
use credit_scoring_mlops.AgentApi.Effects.{
  create_approval-IsRun, decide_approval-IsRun, execute_approval-IsRun, reconcile_approval-IsRun,
  retry_approval-IsRun,
}

-- The requests that change approvals.
pub data Request : Type 0 where
  create : ApprovalCreateRequest → Request
  decide : String → ApprovalDecision → Request
  execute : String → Request
  reconcile : ℕ → String → Request
  retry : String → Request
  recommend : Llm → AgentDecisionRequest → Request
  control_decide : String → ApprovalDecision → Request
  control_execute : String → Request

module _ (ext : External) (x : Executor) where
  unfoldable pub handle : Request → World → World
  handle (create r) w = (create_approval ext x r w).1
  handle (decide k d) w = (decide_approval ext x k d w).1
  handle (execute k) w = (execute_approval ext x k w).1
  handle (reconcile lease k) w = (reconcile_approval ext x lease k w).1
  handle (retry k) w = (retry_approval ext x k w).1
  handle (recommend llm r) w = (create_agent_decision ext x llm r w).1
  handle (control_decide k d) w = (ControlApi.decide_approval ext x k d w).1
  handle (control_execute k) w = (ControlApi.execute_approval ext x k w).1

  unfoldable pub serve : List Request → World → World
  unfolding handle
  serve [] w = w
  serve (r ∷ rs) w = serve rs (handle r w)

  Submitted-run :
      (t t' : Table)
      → Submitted ext t t'
      → (ops : List Op) × (t' ≡ run ext.normalise ext.isoformat ops t)
  unfolding run apply
  Submitted-run t t' (inl same) = ([], same)
  Submitted-run t t' (inr (n, a, e, p, q)) = (Op.create n a ∷ [], e)

  handle-IsRun :
      (r : Request) (w : World)
      → (ops : List Op) × ((handle r w).approvals ≡ run ext.normalise ext.isoformat ops w.approvals)
  unfolding handle
  handle-IsRun (create r) w = (create_approval-IsRun ext x r).at w
  handle-IsRun (decide k d) w = (decide_approval-IsRun ext x k d).at w
  handle-IsRun (execute k) w = (execute_approval-IsRun ext x k).at w
  handle-IsRun (reconcile lease k) w = (reconcile_approval-IsRun ext x lease k).at w
  handle-IsRun (retry k) w = (retry_approval-IsRun ext x k).at w
  handle-IsRun (recommend llm r) w =
      Submitted-run w.approvals (create_agent_decision ext x llm r w).1.approvals
        (create_agent_decision-Proposed ext x llm r w).approvals
  handle-IsRun (control_decide k d) w = (ControlApi.Effects.decide_approval-IsRun ext x k d).at w
  handle-IsRun (control_execute k) w = (ControlApi.Effects.execute_approval-IsRun ext x k).at w

  serve-IsRun :
      (rs : List Request) (w : World)
      → (ops : List Op) × ((serve rs w).approvals ≡ run ext.normalise ext.isoformat ops w.approvals)
  unfolding serve run
  serve-IsRun [] w = ([], refl)
  serve-IsRun (r ∷ rs) w =
      let (ops, e) = handle-IsRun r w in
      let (ops', e') = serve-IsRun rs (handle r w) in
      (
        ops ++ ops',
        e'
            ∙ ap (run ext.normalise ext.isoformat ops') e
            ∙ sym (run-append ext ops ops' w.approvals),
      )

  -- Whatever requests arrive at a service that starts with no approvals, and however they end: a stored
  -- approval that is executing, unknown, completed or failed has its decision, its decider and the start
  -- of its execution recorded.
  pub serve-started_was_decided :
      (rs : List Request) (w : World) (k : String) (r : Row)
      → w.approvals ≡ []
      → find k (serve rs w).approvals ≡ some r
      → was_started r.status ≡ true
      → (is_some r.decided_at ≡ true)
        × (is_some r.decided_by ≡ true)
        × (is_some r.execution_started_at ≡ true)
  serve-started_was_decided rs w k r empty found started =
      let (ops, e) = serve-IsRun rs w in
      run-started_was_decided ext.normalise ext.isoformat ops k r
        (ap (find k) (sym (e ∙ ap (run ext.normalise ext.isoformat ops) empty)) ∙ found) started

  -- Whatever requests arrive, and however they end: an approval that is rejected, completed or failed
  -- keeps every column of its row.
  pub serve_terminal :
      (rs : List Request) (w : World) (k : String) (r : Row)
      → find k w.approvals ≡ some r
      → IsTerminal r.status
      → find k (serve rs w).approvals ≡ some r
  serve_terminal rs w k r found final =
      let (ops, e) = serve-IsRun rs w in
      ap (find k) e ∙ run_terminal ext.normalise ext.isoformat k ops w.approvals r found final
