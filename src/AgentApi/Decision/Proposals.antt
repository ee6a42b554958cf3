-- ===== src/AgentApi/Decision/Proposals.antt =====
-- ai_engineering/api/agent_service.py: what a recommendation of the language model may cause.
use credit_scoring_mlops.Prelude.{
  ℕ, String, ◌≡◌, ◌⊎◌, inl, inr, refl, ◌∙◌, sym, subst, Bool, true, false, Option, none, some,
  if◌then◌else◌,
}
use credit_scoring_mlops.Json.{Value, Fields}
use credit_scoring_mlops.Exec.{Result, ok, err, ◌>>=◌}
use credit_scoring_mlops.Schemas.{ApprovalRequest, pending, AuditEventType, AgentDecision}
use credit_scoring_mlops.ApprovalStore.Rows.{Table}
use credit_scoring_mlops.ApprovalStore
use credit_scoring_mlops.World.Quiet.{
  Kept, Quiet, Quiet-pure, Quiet-after, after, Quiet-record, Quiet-clock, Quiet-uuid, quiet_rules,
}
use credit_scoring_mlops.World.{External, World, App}
use credit_scoring_mlops.ApprovalService.{store_approval}
use credit_scoring_mlops.KubernetesExecutor.{Executor}
use credit_scoring_mlops.Orchestrator.{Llm}
use credit_scoring_mlops.AgentApi.{decision_trace, or_uuid, submit, log}
use credit_scoring_mlops.AgentApi.Decision.{AgentDecisionRequest, create_agent_decision, propose}

-- The table is as it was, or one approval was submitted to the store, a pending one of a training job.
abbrev pub Submitted : External → Table → Table → Type 0
Submitted ext t t' =
    (t' ≡ t)
    ⊎ ((n : ℕ) × (a : ApprovalRequest) × (t' ≡ (ApprovalStore.create ext.normalise n a t).1)
        × (a.status ≡ pending)
        × (a.action ≡ "create_training_job"))

-- No command ran, and at most one approval was submitted.
pub record Proposed (ext : External) (w w' : World) : Type 0 where
  pub commands : w'.commands ≡ w.commands
  pub approvals : Submitted ext w.approvals w'.approvals

record Proposing (ext : External) {A : Type 0} (m : App A) : Type 0 where
  at : (w : World) → Proposed ext w (m w).1

module _ (ext : External) where
  Kept-Proposed : {u v w : World} → Kept u v → Proposed ext v w → Proposed ext u w
  Kept-Proposed {u} {v} {w} k p = record {
    commands = p.commands ∙ k.commands;
    approvals = subst (λ t. Submitted ext t w.approvals) k.approvals p.approvals;
  }

  Proposed-Kept : {u v w : World} → Proposed ext u v → Kept v w → Proposed ext u w
  Proposed-Kept {u} {v} {w} p k = record {
    commands = k.commands ∙ p.commands;
    approvals = subst (λ t. Submitted ext u.approvals t) (sym k.approvals) p.approvals;
  }

  Proposed-Quiet : {A : Type 0} (m : App A) → Quiet m → Proposing ext m
  Proposed-Quiet m k = record {
    at = λ w. record { commands = (k.at w).commands; approvals = inl (k.at w).approvals };
  }

module _ {A : Type 0} where
  Proposing-if :
      (ext : External) (b : Bool) (m n : App A)
      → Proposing ext m
      → Quiet n
      → Proposing ext (if b then m else n)
  Proposing-if ext true m n km kn = km
  Proposing-if ext false m n km kn = Proposed-Quiet ext n kn

module _ {A B : Type 0} (m : App A) (f : A → App B) where
  module _ (ext : External) where
    Proposing-after :
        (w : World) (r : Result A)
        → ((a : A) → Proposing ext (f a))
        → Proposed ext w (after m f w r).1
    Proposing-after w (ok a) kf = (kf a).at w
    Proposing-after w (err e) kf = record { commands = refl; approvals = inl refl }

    -- What proposes may follow what is quiet, and the other way round.
    bind_after : Quiet m → ((a : A) → Proposing ext (f a)) → Proposing ext (m >>= f)
    bind_after km kf = record {
      at = λ w. Kept-Proposed ext (km.at w) (Proposing-after (m w).1 (m w).0 kf);
    }

    bind_before : Proposing ext m → ((a : A) → Quiet (f a)) → Proposing ext (m >>= f)
    bind_before km kf = record {
      at = λ w. Proposed-Kept ext (km.at w) (Quiet-after m f (m w).1 (m w).0 kf);
    }

module _ (ext : External) (x : Executor) where
  Quiet-log :
      (a : ApprovalRequest) (kind : AuditEventType) (s : String) (e : Option String) (d : Fields)
      → Quiet (log ext x a kind s e d)
  unfolding log
  Quiet-log a kind s e d = search (quiet_rules, Quiet-record)

  store_approval-Proposing :
      (a : ApprovalRequest)
      → a.status ≡ pending
      → a.action ≡ "create_training_job"
      → Proposing ext (store_approval ext x a)
  unfolding store_approval
  store_approval-Proposing a p q = record {
    at = λ w. record { commands = refl; approvals = inr (w.next_approval, a, refl, p, q) };
  }

  submit-Proposing :
      (a : ApprovalRequest)
      → a.status ≡ pending
      → a.action ≡ "create_training_job"
      → Proposing ext (submit ext x a)
  unfolding submit
  submit-Proposing a p q =
      search (quiet_rules, bind_before, store_approval-Proposing, Quiet-log) depth 9

  propose-Proposing :
      (k : String) (d : AgentDecision) (context : Fields)
      → Proposing ext (propose ext x k d context)
  unfolding propose
  propose-Proposing k d context =
      search (quiet_rules, bind_after, bind_before, Quiet-uuid, Quiet-clock, submit-Proposing) depth
        12

  or_uuid-Quiet : (o : Option String) → Quiet (or_uuid ext x o)
  unfolding or_uuid
  or_uuid-Quiet none = Quiet-uuid ext
  or_uuid-Quiet (some s) = Quiet-pure s

  decision_trace-Quiet :
      (text_of : Value → String) (context : Fields) → Quiet (decision_trace ext x text_of context)
  unfolding decision_trace
  decision_trace-Quiet text_of context = or_uuid-Quiet _

  create_agent_decision-Proposing :
      (llm : Llm) (request : AgentDecisionRequest)
      → Proposing ext (create_agent_decision ext x llm request)
  unfolding create_agent_decision
  create_agent_decision-Proposing llm request =
      search
        (
          quiet_rules, Quiet-record, decision_trace-Quiet, bind_after, bind_before, Proposing-if,
          propose-Proposing,
        )
        depth 15

  -- Whatever the language model answers and however the request ends: no command runs, and the approvals are
  -- as they were, or the store was asked once to add an approval, a pending one for a training job.
  pub create_agent_decision-Proposed :
      (llm : Llm) (request : AgentDecisionRequest) (w : World)
      → Proposed ext w (create_agent_decision ext x llm request w).1
  create_agent_decision-Proposed llm request w = (create_agent_decision-Proposing llm request).at w
