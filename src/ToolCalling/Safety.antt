-- ===== src/ToolCalling/Safety.antt =====
-- ai_engineering/llm/tool_calling.py: what a conversation may do to the cluster.
use credit_scoring_mlops.Prelude.{
  ℕ, suc, String, ◌≡◌, refl, inl, inr, Bool, true, false, Option, none, some, List, [], ◌∷◌, arith,
  All, Bool-cases, zero,
}
use credit_scoring_mlops.Json.{Value, Fields}
use credit_scoring_mlops.Exec.{Result, lift}
use credit_scoring_mlops.World.{External}
use credit_scoring_mlops.World.Effects.{
  IsReading, IsReading-pure, IsReading-raise, IsReading-if, IsReading-bind, IsReading-attempt,
  IsReading-quiet,
}
use credit_scoring_mlops.World.Rules.{IsReading-record, IsReading-inc, IsReading-uuid}
use credit_scoring_mlops.AuditService.{new_trace_id}
use credit_scoring_mlops.Tools.{
  Registry, RegisteredTool, execute, call_tool, call_found, lookup, approval_notice,
}
use credit_scoring_mlops.ToolCalling.Messages.{ToolCall, Reply, Provider, text_or}
use credit_scoring_mlops.ToolCalling.{
  finish, call_registered, call_parsed, report, after_call, run_call, run_calls, completed,
  exceeded, ask, rounds, missing_openai, run_agent, start,
}

ruleset agent_rules = (
  IsReading-pure, IsReading-raise, IsReading-if, IsReading-bind, IsReading-record, IsReading-inc,
  IsReading-uuid, IsReading-attempt,
)

-- Every tool that the model may run on its own only reads the cluster.
abbrev pub OnlyReads : External → Registry → Type 0
OnlyReads ext tools =
    All
      (λ (tool : RegisteredTool).
        tool.requires_human_approval ≡ false → (d : Fields) → IsReading ext (tool.handler d))
      tools

module _ (ext : External) where
  IsReading-lift : {A : Type 0} (r : Result A) → IsReading ext (lift r)
  IsReading-lift r = IsReading-quiet ext (lift r) (λ w. refl)

  All-lookup :
      (P : RegisteredTool → Type 0) (tools : Registry) (k : String) (tool : RegisteredTool)
      → All P tools
      → lookup k tools ≡ some tool
      → P tool
  unfolding lookup
  All-lookup P [] k tool all found = absurd (ground arith)
  All-lookup P (t ∷ ts) k tool (one, all) found = grind (arith, All-lookup P ts k tool all, one)

  call_tool-IsReading :
      (k : String) (tool : RegisteredTool) (v : Value)
      → (tool.requires_human_approval ≡ false → (d : Fields) → IsReading ext (tool.handler d))
      → IsReading ext (call_tool k tool v)
  unfolding call_tool
  call_tool-IsReading k tool (Value.obj d) h = elim (Bool-cases tool.requires_human_approval) [
    | inl gated ↦ rw gated (IsReading-pure ext (Value.obj (approval_notice k)))
    | inr free ↦ rw free (h free d)
  ]
  call_tool-IsReading k tool _ h = search agent_rules

  call_found-IsReading :
      (k : String) (v : Value) (o : Option RegisteredTool)
      → ((tool : RegisteredTool)
          → o ≡ some tool
          → tool.requires_human_approval ≡ false
          → (d : Fields) → IsReading ext (tool.handler d))
      → IsReading ext (call_found k v o)
  unfolding call_found
  call_found-IsReading k v none h = search agent_rules
  call_found-IsReading k v (some tool) h = call_tool-IsReading k tool v (h tool refl)

  execute-IsReading :
      (tools : Registry) (k : String) (v : Value)
      → OnlyReads ext tools
      → IsReading ext (execute tools k v)
  unfolding execute
  execute-IsReading tools k v reads = call_found-IsReading k v (lookup k tools) (λ tool found.
      All-lookup
        (λ (t : RegisteredTool).
          t.requires_human_approval ≡ false → (d : Fields) → IsReading ext (t.handler d))
        tools k tool reads found)

module _ (ext : External) (p : Provider) (tools : Registry) where
  finish-IsReading : (s : String) (o : Option String) → IsReading ext (finish ext p tools s o)
  unfolding finish
  finish-IsReading s none = search agent_rules
  finish-IsReading s (some r) = search agent_rules depth 9

  call_parsed-IsReading :
      (call : ToolCall) (o : Option Value)
      → OnlyReads ext tools
      → IsReading ext (call_parsed ext p tools call o)
  unfolding call_parsed
  call_parsed-IsReading call none reads = search agent_rules
  call_parsed-IsReading call (some v) reads =
      search (agent_rules, execute-IsReading ext tools call.name v reads) depth 9

  call_registered-IsReading :
      (call : ToolCall) → OnlyReads ext tools → IsReading ext (call_registered ext p tools call)
  unfolding call_registered
  call_registered-IsReading call reads =
      call_parsed-IsReading call (ext.json_loads (text_or "{}" call.arguments)) reads

  report-IsReading :
      (k : String) (call : ToolCall) (v : Value) (b : Bool)
      → IsReading ext (report ext p tools k call v b)
  unfolding report
  report-IsReading k call v true = search (agent_rules, IsReading-lift) depth 9
  report-IsReading k call v false = search agent_rules depth 9

  after_call-IsReading :
      (k : String) (call : ToolCall) (ms : List Fields) (used : List String) (e : Value × Bool)
      → IsReading ext (after_call ext p tools k call ms used e)
  unfolding after_call
  after_call-IsReading k call ms used (v, b) =
      search (agent_rules, IsReading-lift ext, report-IsReading) depth 12

  run_call-IsReading :
      (k : String) (call : ToolCall) (ms : List Fields) (used : List String)
      → OnlyReads ext tools
      → IsReading ext (run_call ext p tools k call ms used)
  unfolding run_call
  run_call-IsReading k call ms used reads =
      let registered = call_registered-IsReading call reads in
      IsReading-bind ext _ _ (IsReading-record ext _ _ _) (λ event.
        IsReading-bind ext _ _ registered (λ ended. after_call-IsReading k call ms used ended))

  run_calls-IsReading :
      (k : String) (calls : List ToolCall) (ms : List Fields) (used : List String)
      → OnlyReads ext tools
      → IsReading ext (run_calls ext p tools k calls ms used)
  unfolding run_calls
  run_calls-IsReading k [] ms used reads = search agent_rules
  run_calls-IsReading k (call ∷ calls) ms used reads =
      IsReading-bind ext (run_call ext p tools k call ms used) _
        (run_call-IsReading k call ms used reads) (λ s. run_calls-IsReading k calls s.0 s.1 reads)

  completed-IsReading :
      (k : String) (n : ℕ) (r : Reply) (used : List String)
      → IsReading ext (completed ext p tools k n r used)
  unfolding completed
  completed-IsReading k n r used = search (agent_rules, finish-IsReading) depth 9

  exceeded-IsReading :
      (k : String) (n : ℕ) (used : List String) → IsReading ext (exceeded ext p tools k n used)
  unfolding exceeded
  exceeded-IsReading k n used = search (agent_rules, finish-IsReading) depth 9

  ask-IsReading : (ms : List Fields) → IsReading ext (ask ext p tools ms)
  unfolding ask
  ask-IsReading ms = IsReading-quiet ext (ask ext p tools ms) (λ w. refl)

  missing_openai-IsReading : (k : String) → IsReading ext (missing_openai ext p tools k)
  unfolding missing_openai
  missing_openai-IsReading k = search (agent_rules, finish-IsReading) depth 9

  rounds-IsReading :
      (m left n : ℕ) (k : String) (ms : List Fields) (used : List String)
      → OnlyReads ext tools
      → IsReading ext (rounds ext p tools m left n k ms used)
  unfolding rounds
  rounds-IsReading m zero n k ms used reads = exceeded-IsReading k m used
  rounds-IsReading m (suc left) n k ms used reads =
      search
        (
          agent_rules,
          ask-IsReading,
          completed-IsReading,
          run_calls-IsReading,
          rounds-IsReading m left,
          reads,
        )
        depth 9

  -- In a conversation with any language model about any task, if the tools that it may run on its own only
  -- read the cluster, then no command that runs writes to the cluster.
  pub run_agent-IsReading :
      (max_rounds : ℕ) (task : String)
      → OnlyReads ext tools
      → IsReading ext (run_agent ext p tools max_rounds task)
  unfolding run_agent start new_trace_id
  run_agent-IsReading max_rounds task reads =
      search (agent_rules, missing_openai-IsReading, rounds-IsReading, reads) depth 12
