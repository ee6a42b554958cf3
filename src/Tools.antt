-- ===== src/Tools.antt =====
-- ai_engineering/tools/registry.py: the registry of the tools that a language model may call.
use credit_scoring_mlops.Prelude.{
  String, ◌<>◌, ◌≡◌, Bool, true, false, Option, none, some, List, [], ◌∷◌, ◌++◌, ◌==◌, string_eq,
  if◌then◌else◌, is_some, map, arith,
}
use credit_scoring_mlops.Prelude.Text.{strip}
use credit_scoring_mlops.Json.{Value, Fields, end, field}
use credit_scoring_mlops.Exec.{key_error, value_error, type_error, Result, ok, err, pure, raise}
use credit_scoring_mlops.World.{App}

-- class RegisteredTool
pub record RegisteredTool : Type 0 where
  pub name : String
  pub description : String
  pub parameters : Fields
  pub handler : Fields → App Value
  pub requires_human_approval : Bool

-- `_tools`, in the order of registration
abbrev pub Registry : Type 0
Registry = List RegisteredTool

unfoldable pub lookup : String → Registry → Option RegisteredTool
lookup k [] = none
lookup k (tool ∷ tools) = if tool.name == k then some tool else lookup k tools

-- `register`
unfoldable pub register : RegisteredTool → Registry → Result Registry
unfolding strip lookup
register tool tools =
    if strip tool.name == ""
    then err (value_error "Tool name must not be empty")
    else if is_some (lookup tool.name tools)
    then err (value_error ("Tool already registered: " <> tool.name))
    else ok (tools ++ tool ∷ [])

-- `__init__`
unfoldable pub register_all : List RegisteredTool → Registry → Result Registry
register_all [] tools = ok tools
register_all (tool ∷ rest) tools = elim (register tool tools) [
  | err e ↦ err e
  | ok more ↦ register_all rest more
]

-- `get`
unfoldable pub get_tool : String → Registry → Result RegisteredTool
unfolding lookup
get_tool k tools = elim (lookup k tools) [
  | none ↦ err (key_error ("Unknown tool: " <> k))
  | some tool ↦ ok tool
]

-- `definitions`
unfoldable pub definitions : Registry → List Fields
definitions tools =
    map
      (λ tool. field "type" (Value.str "function") (
        field "function"
          (Value.obj (
            field "name" (Value.str tool.name) (
              field "description" (Value.str tool.description)
                (field "parameters" (Value.obj tool.parameters) end))))
          end))
      tools

unfoldable pub approval_notice : String → Fields
approval_notice k = field "executed" (Value.bool false) (
    field "requires_human_approval" (Value.bool true) (
      field "tool" (Value.str k) (
        field "reason" (Value.str "This tool cannot be executed by the LLM without approval.")
          end)))

-- The call of a tool that was found
unfoldable pub call_tool : String → RegisteredTool → Value → App Value
unfolding approval_notice
call_tool k tool (Value.obj arguments) =
    if tool.requires_human_approval
    then pure (Value.obj (approval_notice k))
    else tool.handler arguments
call_tool k tool _ = raise (type_error "Tool arguments must be a JSON object")

unfoldable pub call_found : String → Value → Option RegisteredTool → App Value
unfolding call_tool
call_found k arguments none = raise (key_error ("Unknown tool: " <> k))
call_found k arguments (some tool) = call_tool k tool arguments

-- `execute`
unfoldable pub execute : Registry → String → Value → App Value
unfolding lookup call_found
execute tools k arguments = call_found k arguments (lookup k tools)

abbrev pub IsRegistered : Registry → String → Type 0
IsRegistered tools k = is_some (lookup k tools) ≡ true

-- No two tools of a registry share a name.
pub data IsDistinct : Registry → Type 0 where
  empty : IsDistinct []
  another :
      (tool : RegisteredTool) (tools : Registry)
      → IsDistinct tools
      → lookup tool.name tools ≡ none
      → IsDistinct (tools ++ tool ∷ [])

register-IsDistinct :
    (tool : RegisteredTool) (tools more : Registry)
    → IsDistinct tools
    → register tool tools ≡ ok more
    → IsDistinct more
unfolding register
register-IsDistinct tool tools more d h = grind (arith, IsDistinct.another)

-- Whatever tools a registry is built from, if its construction succeeds then every name was new when its
-- tool was added.
pub register_all-IsDistinct :
    (rest tools more : List RegisteredTool)
    → IsDistinct tools
    → register_all rest tools ≡ ok more
    → IsDistinct more
unfolding register_all
register_all-IsDistinct [] tools more d h = ground arith
register_all-IsDistinct (tool ∷ rest) tools more d h =
    grind (arith, register-IsDistinct, λ (next : Registry). register_all-IsDistinct rest next more)
