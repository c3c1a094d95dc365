-- ===== src/Tool.antt =====
-- tools.go and response.go: tools, the messages that answer a tool call, and the responses that ask
-- for one. What a handler does and what json.Marshal and fmt's %q print is a `Host`.
use Prim.Native.String.{String, ◌++◌ as str_append}
use text.Mathlib.Text.{◌==◌ as str_eq}
use llm_go_sdk.Base.{
  Bool, List, Option, [], false, if◌then◌else◌, inl, inr, none, not, some, true, ◌∷◌, ◌⊎◌,
}
use llm_go_sdk.Message.{Message, ReasoningContent, ToolCall, role_tool}
pub mod Registry
pub mod Loop
pub mod Calls
mod Examples

pub record FunctionDefinition : Type 0 where
  pub name : String
  pub description : String
  pub parameters : String
  pub strict : Bool

-- A tool as the registry holds it: it has a function.
pub record Tool : Type 0 where
  pub tool_type : String
  pub function : Option FunctionDefinition

-- The name of a tool, "" for one without a function.
abbrev pub tool_name : Tool → String
tool_name t = elim t.function [ none ↦ "" | some f ↦ f.name ]

-- `U` is the type of the usage figures, which the tool loop hands on. The search results, which it
-- does not read, are left out.
pub record Response (U : Type 0) : Type 0 where
  pub id : String
  pub content : String
  pub reasoning : Option ReasoningContent
  pub finish_reason : String
  pub usage : U
  pub tool_calls : List ToolCall
  pub service_tier : String
  pub provider : String
  pub model : String
  pub model_version : String
  pub adjustments : List String

-- What a handler returns: `any` is nil, a text (a string or the bytes of one) or another value.
pub data HandlerResult (V : Type 0) : Type 0 where
  result_nil : HandlerResult V
  result_text : String → HandlerResult V
  result_value : V → HandlerResult V

pub data HandlerOutcome (V : Type 0) : Type 0 where
  returned : HandlerResult V → HandlerOutcome V
  handler_failed handler_panicked : String → HandlerOutcome V

-- The code that the registry only calls. A handler is some `H`; an error is its text.
pub record Host (H V : Type 0) : Type 0 where
  pub run : H → String → HandlerOutcome V
  pub marshal : V → String ⊎ String
  pub quote : String → String

pub data ToolError : Type 0 where
  call_without_function nil_response : ToolError
  tool_not_found failed_to_marshal : String → ToolError

-- `Error()` of these errors.
abbrev pub tool_error_text : ToolError → String
tool_error_text call_without_function = "tool call failed: tool call has no function"
tool_error_text nil_response = "tool call failed: response is nil"
tool_error_text (tool_not_found name) = str_append "tool not found: " name
tool_error_text (failed_to_marshal e) =
    str_append "invalid tool response: failed to marshal result: " e

unfoldable pub tool_result_string : String → String → String → Message
tool_result_string id name result = record {
  role = role_tool;
  content = result;
  parts = [];
  tool_calls = [];
  tool_call_id = id;
  name = name;
  cache_control = none;
  reasoning = none;
}

unfoldable pub tool_result_error : String → String → String → Message
unfolding tool_result_string
tool_result_error id name error = tool_result_string id name (str_append "Error: " error)

unfoldable pub tool_result :
    {H V : Type 0} → Host H V → String → String → HandlerResult V → ToolError ⊎ Message
unfolding tool_result_string
tool_result host id name result_nil = inr (tool_result_string id name "null")
tool_result host id name (result_text s) = inr (tool_result_string id name s)
tool_result host id name (result_value v) = elim (host.marshal v) [
  | inl e ↦ inl (failed_to_marshal e)
  | inr data_ ↦ inr (tool_result_string id name data_)
]

abbrev pub tool_call_name : ToolCall → String
tool_call_name tc = elim tc.function [ none ↦ "" | some f ↦ f.name ]

abbrev pub has_tool_calls : {U : Type 0} → Response U → Bool
has_tool_calls resp = elim resp.tool_calls [ [] ↦ false | _ ∷ _ ↦ true ]

abbrev find_call : (ToolCall → Bool) → List ToolCall → Option ToolCall
find_call p [] = none
find_call p (tc ∷ tcs) = if p tc then some tc else find_call p tcs

-- The response's `ToolCall` by its id.
unfoldable pub tool_call : {U : Type 0} → Response U → String → Option ToolCall
tool_call resp id = find_call (λ tc. str_eq tc.id id) resp.tool_calls

abbrev is_named : String → ToolCall → Bool
is_named name tc = elim tc.function [ none ↦ false | some f ↦ str_eq f.name name ]

unfoldable pub tool_call_by_name : {U : Type 0} → Response U → String → Option ToolCall
tool_call_by_name resp name = find_call (is_named name) resp.tool_calls

abbrev names_of : List ToolCall → List String
names_of [] = []
names_of (tc ∷ tcs) = elim tc.function [ none ↦ names_of tcs | some f ↦ f.name ∷ names_of tcs ]

unfoldable pub tool_call_names : {U : Type 0} → Response U → List String
tool_call_names resp = names_of resp.tool_calls
