-- ===== src/Message/Validate.antt =====
-- The validation of messages in message.go.
use mathlib.Core.Option
use Prim.Native.String.{}
use text.Mathlib.Text.{◌==◌ as str_eq}
use llm_go_sdk.Base.{
  Bool, List, Option, [], false, if◌then◌else◌, ltb, none, not, some, suc, true, ℕ, ◌&&◌, ◌++◌, ◌+◌,
  ◌==◌, ◌||◌, ◌∷◌,
}
use llm_go_sdk.Message.{Message, Role, is_system, is_tool, role_missing, role_other, same_role}

-- A `ValidationError`, by its message and the position of the message that it is about.
pub data MessageError : Type 0 where
  role_required role_invalid tool_starts_conversation : ℕ → MessageError
  tool_call_id_required multiple_system_messages system_not_first : ℕ → MessageError

pub data MessagesError : Type 0 where
  empty_messages : MessagesError
  invalid_messages : List MessageError → MessagesError

-- A non-empty collection of errors is returned, an empty one is no error.
abbrev pub collected : List MessageError → Option MessagesError
collected [] = none
collected (e ∷ es) = some (invalid_messages (e ∷ es))

abbrev pub is_valid_role : Role → Bool
is_valid_role role_missing = false
is_valid_role (role_other r) = false
is_valid_role _ = true

-- -1 is `none`.
unfoldable pub first_non_system_message : List Message → Option ℕ
first_non_system_message [] = none
first_non_system_message (m ∷ ms) =
    if is_system m then Option.map suc (first_non_system_message ms) else some 0

abbrev pub is_at : ℕ → Option ℕ → Bool
is_at i none = false
is_at i (some j) = i == j

-- The errors of one message; `first` is the position of the first message that is no system prompt.
unfoldable pub message_errors : Option ℕ → ℕ → Message → List MessageError
message_errors first i m =
    if same_role m.role role_missing
    then role_required i ∷ []
    else (if is_valid_role m.role then [] else role_invalid i ∷ [])
      ++ (if is_tool m && is_at i first then tool_starts_conversation i ∷ [] else [])

unfoldable pub errors_from : Option ℕ → ℕ → List Message → List MessageError
unfolding message_errors
errors_from first i [] = []
errors_from first i (m ∷ ms) = message_errors first i m ++ errors_from first (i + 1) ms

unfoldable pub validate_messages : List Message → Option MessagesError
unfolding errors_from first_non_system_message
validate_messages [] = some empty_messages
validate_messages (m ∷ ms) = collected (errors_from (first_non_system_message (m ∷ ms)) 0 (m ∷ ms))

unfoldable pub tool_call_id_errors : ℕ → List Message → List MessageError
tool_call_id_errors i [] = []
tool_call_id_errors i (m ∷ ms) =
    let rest = tool_call_id_errors (i + 1) ms in
    if is_tool m && str_eq m.tool_call_id "" then tool_call_id_required i ∷ rest else rest

unfoldable pub validate_tool_call_ids : List Message → Option MessagesError
unfolding tool_call_id_errors
validate_tool_call_ids ms = collected (tool_call_id_errors 0 ms)

-- `seen` is whether a system message came before.
unfoldable pub inline_system_errors : Bool → ℕ → List Message → List MessageError
inline_system_errors seen i [] = []
inline_system_errors seen i (m ∷ ms) =
    let rest = inline_system_errors (is_system m || seen) (i + 1) ms in
    if not (is_system m)
    then rest
    else if seen
    then multiple_system_messages i ∷ rest
    else if ltb 0 i
    then system_not_first i ∷ rest
    else rest

unfoldable pub validate_inline_system : List Message → Option MessagesError
unfolding inline_system_errors
validate_inline_system ms = collected (inline_system_errors false 0 ms)
