-- ===== src/ToolCalling.antt =====
-- ai_engineering/llm/tool_calling.py: the bounded loop in which a language model calls registered tools.
-- The model's answers come from a parameter: they may depend on the messages and on everything before.
pub mod Messages
pub mod Safety
use credit_scoring_mlops.Prelude.{
  ℕ, zero, suc, ◌+◌, String, ◌<>◌, Bool, true, false, not, ◌||◌, Option, none, some, List, [], ◌∷◌,
  ◌++◌, ltb, is_some, ◌==◌, string_eq, if◌then◌else◌, get_or, contains, map,
}
use credit_scoring_mlops.Prelude.Int.{pos}
use credit_scoring_mlops.Json
use credit_scoring_mlops.Json.{Value, Items, nil, cons, Fields, end, field, is_text}
use credit_scoring_mlops.Exec.{
  Error, key_error, value_error, type_error, invalid_transition, runtime_error, Result, ok, err,
  pure, raise, lift, ◌>>=◌, ◌>>◌,
}
use credit_scoring_mlops.Schemas.{
  agent_requested, tool_called, tool_result, execution_completed, execution_failed,
}
use credit_scoring_mlops.World.{External, World, App, attempt, inc}
use credit_scoring_mlops.AuditService.{record_event, entry, new_trace_id}
use credit_scoring_mlops.Tools.{Registry, definitions, execute}
use credit_scoring_mlops.ToolCalling.Messages.{
  ToolCall, Reply, Answer, Provider, check_rounds, text, optional_text, text_or, as_items,
  call_items, assistant_message, tool_message, first_messages, any_says_error, caught, no_calls,
  detail_of, error_result, is_argument_error,
}

module _ (ext : External) (p : Provider) (tools : Registry) where
  -- `"error" in result`
  has_error : Value → Result Bool
  unfolding any_says_error Json.get
  has_error (Value.obj d) = ok (is_some (Json.get "error" d))
  has_error (Value.arr r) = ok (any_says_error r)
  has_error (Value.str s) = ok (p.text_contains "error" s)
  has_error _ = err (type_error "argument is not iterable")

  -- `finish`
  finish : String → Option String → App (Unit {0})
  finish status none = do inc "agent_runs_total" (status ∷ []); inc "agent_run_duration_seconds" []
  finish status (some reason) = do
    inc "agent_runs_total" (status ∷ [])
    inc "agent_run_duration_seconds" []
    inc "agent_run_failures_total" (reason ∷ [])

  -- The two nested `try`: the arguments' JSON, then the tool
  call_parsed : ToolCall → Option Value → App (Value × Bool)
  unfolding caught
  call_parsed call none = pure (
    Value.obj (
        field "error" (text "Invalid JSON tool arguments")
          (field "detail" (text (p.decode_message (text_or "{}" call.arguments))) end)),
    false,
  )
  call_parsed call (some arguments) = do
    r ← attempt (execute tools call.name arguments)
    pure (caught ext.message p.type_name r)

  call_registered : ToolCall → App (Value × Bool)
  unfolding call_parsed
  call_registered call = call_parsed call (ext.json_loads (text_or "{}" call.arguments))

  -- The counter, the event and the result of one call
  report : String → ToolCall → Value → Bool → App (Unit {0})
  unfolding detail_of
  report trace_id call result true = do
    inc "tool_calls_total" (call.name ∷ "failed" ∷ [])
    detail ← lift (detail_of result)
    record_event ext tool_result trace_id (record entry {
      tool_name = some call.name;
      status = some "failed";
      payload = field "result" result end;
      error = detail;
    })
    pure tt
  report trace_id call result false = do
    inc "tool_calls_total" (call.name ∷ "completed" ∷ [])
    record_event ext tool_result trace_id (record entry {
      tool_name = some call.name;
      status = some "completed";
      payload = field "result" result end;
    })
    pure tt

  -- What follows a call with its result, which counts as used or not
  after_call :
      String → ToolCall → List Fields → List String → Value × Bool → App (List Fields × List String)
  unfolding has_error report
  after_call trace_id call messages used (result, counts) = do
    inc "tool_duration_seconds" (call.name ∷ [])
    failed ← lift (has_error result)
    report trace_id call result failed
    pure (
      messages ++ tool_message call.id (p.dumps result) ∷ [],
      (if counts then used ++ call.name ∷ [] else used),
    )

  -- One call of the inner loop, with the messages and the tools used so far
  run_call : String → ToolCall → List Fields → List String → App (List Fields × List String)
  unfolding after_call
  run_call trace_id call messages used = do
    record_event ext tool_called trace_id (record entry {
      tool_name = some call.name;
      status = some "requested";
      payload = field "arguments" (optional_text call.arguments) end;
    })
    ended ← call_registered call
    after_call trace_id call messages used ended

  run_calls : String → List ToolCall → List Fields → List String → App (List Fields × List String)
  unfolding run_call
  run_calls trace_id [] messages used = pure (messages, used)
  run_calls trace_id (call ∷ calls) messages used = do
    (more, used') ← run_call trace_id call messages used
    run_calls trace_id calls more used'

  completed : String → ℕ → Reply → List String → App Answer
  unfolding finish
  completed trace_id n reply used = do
    finish "completed" none
    record_event ext execution_completed trace_id (record entry {
      status = some "completed";
      payload = field "rounds" (Value.int (pos n)) (
          field "tools_used" (Value.arr (as_items used))
            (field "answer" (text (text_or "" reply.content)) end));
    })
    pure (record {
      status = "completed";
      answer = text_or "" reply.content;
      tools_used = used;
      trace_id = trace_id;
    })

  exceeded : String → ℕ → List String → App Answer
  unfolding finish
  exceeded trace_id max_rounds used = do
    finish "max_rounds_exceeded" (some "max_rounds_exceeded")
    record_event ext execution_failed trace_id (record entry {
      status = some "max_rounds_exceeded";
      error = some "The agent reached the maximum number of tool-calling rounds.";
      payload =
          field "rounds" (Value.int (pos max_rounds))
            (field "tools_used" (Value.arr (as_items used)) end);
    })
    pure (record {
      status = "max_rounds_exceeded";
      answer = "The agent reached the maximum number of tool-calling rounds.";
      tools_used = used;
      trace_id = trace_id;
    })

  ask : List Fields → App Reply
  ask messages w = (p.complete w messages (definitions tools), w)

  -- The outer loop: `left` rounds are left of `max_rounds`, the next one has the number `n`
  rounds : ℕ → ℕ → ℕ → String → List Fields → List String → App Answer
  unfolding completed exceeded ask run_calls no_calls
  rounds max_rounds zero n trace_id messages used = exceeded trace_id max_rounds used
  rounds max_rounds (suc left) n trace_id messages used = ask messages >>= λ reply.
      if no_calls reply.tool_calls
      then completed trace_id n reply used
      else (run_calls trace_id reply.tool_calls (messages ++ assistant_message reply ∷ []) used
          >>= λ state. rounds max_rounds left (suc n) trace_id state.0 state.1)

  missing_openai : String → App Answer
  unfolding finish
  missing_openai trace_id = do
    finish "failed" (some "missing_openai_dependency")
    record_event ext execution_failed trace_id (record entry {
      status = some "failed";
      error = some "Install the 'openai' package to use tool calling";
    })
    raise (runtime_error "Install the 'openai' package to use tool calling")

  start : ℕ → String → String → App Answer
  unfolding missing_openai rounds first_messages
  start max_rounds task trace_id =
      if p.is_installed
      then rounds max_rounds max_rounds 1 trace_id (first_messages task) []
      else missing_openai trace_id

  -- `run`
  unfoldable pub run_agent : ℕ → String → App Answer
  unfolding start missing_openai rounds call_registered
  run_agent max_rounds task = do
    trace_id ← new_trace_id ext
    record_event ext agent_requested trace_id
        (record entry { status = some "started"; payload = field "task" (text task) end })
    start max_rounds task trace_id
