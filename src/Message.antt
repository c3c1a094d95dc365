-- ===== src/Message.antt =====
-- message.go: chat messages, their validation, and the merging that prepares them for a provider. A
-- slice that the code appends to is a list here; an append never writes into a caller's storage, since
-- the code copies the slices of a message before it merges into it.
use Prim.Native.String.{String}
use text.Mathlib.Text.{◌==◌ as str_eq}
use llm_go_sdk.Base.{Bool, List, Option, false, none, true, ℕ}
pub mod Validate
pub mod Merge
pub mod Accepted
pub mod Turn
mod Examples

-- The roles that the code knows, the empty role, and any other text.
pub data Role : Type 0 where
  role_missing role_system role_user role_assistant role_tool : Role
  role_other : String → Role

abbrev pub same_role : Role → Role → Bool
same_role role_missing role_missing = true
same_role role_system role_system = true
same_role role_user role_user = true
same_role role_assistant role_assistant = true
same_role role_tool role_tool = true
same_role (role_other r) (role_other s) = str_eq r s
same_role _ _ = false

pub data PartType : Type 0 where
  part_type_text part_type_image : PartType
  part_type_other : String → PartType

abbrev pub is_text : PartType → Bool
is_text part_type_text = true
is_text _ = false

pub record ImageContent : Type 0 where
  pub source : String
  pub media_type : String
  pub payload : String

pub record ContentPart : Type 0 where
  pub part_type : PartType
  pub text : String
  pub image : Option ImageContent

abbrev pub new_text_part : String → ContentPart
new_text_part t = record { part_type = part_type_text; text = t; image = none }

pub record FunctionCall : Type 0 where
  pub name : String
  pub arguments : String

pub record ToolCall : Type 0 where
  pub id : String
  pub tool_type : String
  pub function : Option FunctionCall
  pub signature : String
  pub signature_provider : String

pub record CacheControl : Type 0 where
  pub ttl : ℕ

-- The metadata of a reasoning turn, which nothing here reads, is left out.
pub record ReasoningContent : Type 0 where
  pub content : String
  pub signature : String

pub record Message : Type 0 where
  pub role : Role
  pub content : String
  pub parts : List ContentPart
  pub tool_calls : List ToolCall
  pub tool_call_id : String
  pub name : String
  pub cache_control : Option CacheControl
  pub reasoning : Option ReasoningContent

abbrev pub is_system : Message → Bool
is_system m = same_role m.role role_system

abbrev pub is_tool : Message → Bool
is_tool m = same_role m.role role_tool
