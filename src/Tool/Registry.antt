-- ===== src/Tool/Registry.antt =====
-- `ToolRegistry` of tools.go. A tool and its handler are values here, so the copies that keep a
-- caller from changing a registered tool have nothing to protect.
use Prim.Native.String.{String, ◌++◌ as str_append}
use text.Mathlib.Text.{◌==◌ as str_eq}
use llm_go_sdk.Base.{List, Option, [], if◌then◌else◌, inl, inr, none, some, ◌++◌, ◌∷◌, ◌⊎◌}
use llm_go_sdk.Base.Table.{has_key, insert, lookup}
use llm_go_sdk.Message.{Message, ToolCall}
use llm_go_sdk.Tool.{
  HandlerOutcome, Host, Response, Tool, ToolError, call_without_function, handler_failed,
  handler_panicked, nil_response, result_nil, returned, tool_call_name, tool_error_text,
  tool_not_found, tool_result, tool_result_error, tool_result_string,
}
pub mod Registered
pub mod Dispatch

pub record ToolRegistry (H : Type 0) : Type 0 where
  pub handlers : List (String × H)
  pub tools : List Tool

abbrev pub new_tool_registry : {H : Type 0} → ToolRegistry H
new_tool_registry = record { handlers = []; tools = [] }

-- The first tool with the name is replaced; a tool without a function is never one.
abbrev pub replace_tool : String → Tool → List Tool → List Tool
replace_tool name tool [] = []
replace_tool name tool (t ∷ ts) =
    let rest = replace_tool name tool ts in
    elim t.function [
      | none ↦ t ∷ rest
      | some f ↦ (if str_eq f.name name then tool ∷ ts else t ∷ rest)
    ]

-- `Register`; a nil handler is `none`.
unfoldable pub register : {H : Type 0} → Tool → Option H → ToolRegistry H → ToolRegistry H
register tool none r = r
register tool (some handler) r = elim tool.function [
  | none ↦ r
  | some f ↦
      (if has_key f.name r.handlers
        then record {
          handlers = insert f.name handler r.handlers;
          tools = replace_tool f.name tool r.tools;
        }
        else record { handlers = insert f.name handler r.handlers; tools = r.tools ++ (tool ∷ []) })
]

abbrev pub registered_tools : {H : Type 0} → ToolRegistry H → List Tool
registered_tools r = r.tools

abbrev pub handler : {H : Type 0} → String → ToolRegistry H → Option H
handler name r = lookup name r.handlers

-- What `Handle` does: a message, an error, or the panic of the handler.
pub data Handled : Type 0 where
  handled : Message → Handled
  unhandled : ToolError → Handled
  panicked : String → Handled

module _ {H V : Type 0} (host : Host H V) where
  -- The answer of a handler to the call with that id and tool name.
  unfoldable pub answered : String → String → HandlerOutcome V → Handled
  unfolding tool_result tool_result_error tool_result_string
  answered id name (handler_failed e) = handled (tool_result_error id name e)
  answered id name (handler_panicked p) = panicked p
  answered id name (returned result_nil) = handled (tool_result_string id name "")
  answered id name (returned result) = elim (tool_result host id name result) [
    | inl e ↦ unhandled e
    | inr m ↦ handled m
  ]

  unfoldable pub handle : ToolRegistry H → ToolCall → Handled
  unfolding answered
  handle r tc = elim tc.function [
    | none ↦ unhandled call_without_function
    | some f ↦ elim (handler f.name r) [
      | none ↦ unhandled (tool_not_found f.name)
      | some h ↦ answered tc.id f.name (host.run h f.arguments)
    ]
  ]

  -- The loop of `HandleAll`: the messages so far are dropped at the first error.
  unfoldable pub handle_each : ToolRegistry H → List ToolCall → Handled ⊎ List Message
  unfolding handle
  handle_each r [] = inr []
  handle_each r (tc ∷ tcs) = elim (handle r tc) [
    | handled m ↦ elim (handle_each r tcs) [ inl e ↦ inl e | inr ms ↦ inr (m ∷ ms) ]
    | other ↦ inl other
  ]

  -- A nil response is `none`.
  unfoldable pub handle_all :
      {U : Type 0} → ToolRegistry H → Option (Response U) → Handled ⊎ List Message
  unfolding handle_each
  handle_all r none = inl (unhandled nil_response)
  handle_all r (some resp) = handle_each r resp.tool_calls

  -- A round of the tool loop's goroutine: an error or a panic becomes a message.
  unfoldable pub reply : ToolRegistry H → ToolCall → Message
  unfolding handle tool_result_error
  reply r tc = elim (handle r tc) [
    | handled m ↦ m
    | unhandled e ↦ tool_result_error tc.id (tool_call_name tc) (tool_error_text e)
    | panicked p ↦ tool_result_error tc.id (tool_call_name tc) (
        str_append "tool "
          (str_append (host.quote (tool_call_name tc)) (str_append " panicked: " p)))
  ]
