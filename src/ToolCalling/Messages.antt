-- ===== src/ToolCalling/Messages.antt =====
-- ai_engineering/llm/tool_calling.py: the messages of the model and for it, and the results of calls.
use credit_scoring_mlops.Prelude.{
  ℕ, String, ◌<>◌, Bool, true, false, ◌||◌, Option, none, some, List, [], ◌∷◌, ltb, ◌==◌, string_eq,
  if◌then◌else◌,
}
use credit_scoring_mlops.Json
use credit_scoring_mlops.Json.{Value, Items, nil, cons, Fields, end, field, is_text}
use credit_scoring_mlops.Exec.{
  Error, key_error, value_error, type_error, invalid_transition, Result, ok, err,
}
use credit_scoring_mlops.World.{World}

-- One tool call of the model's message; `none` and "" are the arguments it left out
pub record ToolCall : Type 0 where
  pub id : String
  pub name : String
  pub arguments : Option String

-- `response.choices[0].message`
pub record Reply : Type 0 where
  pub content : Option String
  pub tool_calls : List ToolCall

-- What the loop returns
pub record Answer : Type 0 where
  pub status : String
  pub answer : String
  pub tools_used : List String
  pub trace_id : String

-- What comes from outside: the model's answer to the messages and tool definitions in a given world, an
-- error being what the client raises, json.dumps, and texts of exceptions.
pub record Provider : Type 0 where
  pub is_installed : Bool
  pub complete : World → List Fields → List Fields → Result Reply
  pub dumps : Value → String
  pub decode_message : String → String
  pub type_name : Error → String
  pub text_contains : String → String → Bool

-- `max_rounds < 1 or max_rounds > 10`
unfoldable pub check_rounds : ℕ → Result ℕ
check_rounds n =
    if ltb n 1 || ltb 10 n then err (value_error "max_rounds must be between 1 and 10") else ok n

abbrev pub text : String → Value
text s = Value.str s

abbrev pub optional_text : Option String → Value
optional_text none = Value.null
optional_text (some s) = text s

-- `x or default` for a text that may be missing or empty
abbrev pub text_or : String → Option String → String
text_or d none = d
text_or d (some s) = if s == "" then d else s

unfoldable pub as_items : List String → Items
as_items [] = nil
as_items (s ∷ ss) = cons (text s) (as_items ss)

unfoldable pub call_items : List ToolCall → Items
call_items [] = nil
call_items (call ∷ calls) =
    cons
      (Value.obj (
        field "id" (text call.id) (
          field "type" (text "function") (
            field "function"
              (Value.obj (
                field "name" (text call.name)
                  (field "arguments" (optional_text call.arguments) end)))
              end))))
      (call_items calls)

unfoldable pub assistant_message : Reply → Fields
unfolding call_items
assistant_message reply = field "role" (text "assistant") (
    field "content" (text (text_or "" reply.content))
      (field "tool_calls" (Value.arr (call_items reply.tool_calls)) end))

unfoldable pub tool_message : String → String → Fields
tool_message call_id content =
    field "role" (text "tool")
      (field "tool_call_id" (text call_id) (field "content" (text content) end))

unfoldable pub system_prompt : String
system_prompt =
    "You are the AI Engineering Command Center orchestrator. "
    <> "Analyze the engineering task using only registered tools. "
    <> "Never invent tool results. Never execute destructive actions. "
    <> "For actions that change infrastructure or models, request human approval."

unfoldable pub first_messages : String → List Fields
unfolding system_prompt
first_messages task =
    field "role" (text "system") (field "content" (text system_prompt) end)
    ∷ field "role" (text "user") (field "content" (text task) end)
    ∷ []

unfoldable pub any_says_error : Items → Bool
any_says_error nil = false
any_says_error (cons v r) = is_text "error" (some v) || any_says_error r

-- `except (KeyError, TypeError, ValueError)`; InvalidApprovalTransition is a ValueError
unfoldable pub is_argument_error : Error → Bool
is_argument_error (key_error m) = true
is_argument_error (type_error m) = true
is_argument_error (value_error m) = true
is_argument_error (invalid_transition m) = true
is_argument_error e = false

unfoldable pub error_result : (Error → String) → (Error → String) → Error → Fields
unfolding is_argument_error
error_result message type_name e =
    if is_argument_error e
    then field "error" (text (message e)) end
    else field "error" (text "Tool execution failed")
        (field "detail" (text (message e)) (field "error_type" (text (type_name e)) end))

-- The result of `self.registry.execute(..)` after its two handlers, and whether the tool counts as used
unfoldable pub caught : (Error → String) → (Error → String) → Result Value → Value × Bool
unfolding error_result is_argument_error
caught message type_name (ok v) = (v, true)
caught message type_name (err e) = (Value.obj (error_result message type_name e), false)

-- `not tool_calls`
unfoldable pub no_calls : List ToolCall → Bool
no_calls [] = true
no_calls (call ∷ calls) = false

-- `result.get("detail")` as the text of an event: what is no dict has no `get`, and what is no text does
-- not validate
unfoldable pub detail_of : Value → Result (Option String)
unfolding Json.get
detail_of (Value.obj d) = elim (Json.get "detail" d) [
  | none ↦ ok none
  | some v ↦ elim v [
    | Value.null ↦ ok none
    | Value.str s ↦ ok (some s)
    | _ ↦ err (value_error "error: Input should be a valid string")
  ]
]
detail_of _ = err (Error.other "no attribute 'get'")
