-- ===== src/Message/Merge.antt =====
-- The merging of messages in message.go.
use Prim.Native.String.{String, ◌++◌ as str_append}
use text.Mathlib.Text.{◌==◌ as str_eq}
use llm_go_sdk.Base.{
  Bool, List, Option, [], false, if◌then◌else◌, inl, inr, none, not, some, true, ◌&&◌, ◌++◌, ◌||◌,
  ◌∷◌, ◌⊎◌,
}
use llm_go_sdk.Message.{
  CacheControl, ContentPart, Message, is_system, is_text, is_tool, new_text_part, role_system,
  same_role,
}
use llm_go_sdk.Message.Validate.{MessagesError, validate_messages}
pub mod Settled
pub mod Systems
pub mod Idempotent
pub mod Kept
pub mod Accepts
pub mod Inline

-- The text that a system message, or a part of one, contributes.
abbrev pub part_texts : List ContentPart → List String
part_texts [] = []
part_texts (p ∷ ps) = if is_text p.part_type then p.text ∷ part_texts ps else part_texts ps

-- The parts that a system message contributes.
abbrev pub system_parts : Message → List ContentPart
system_parts m = elim m.parts [
  | [] ↦ (if str_eq m.content "" then [] else new_text_part m.content ∷ [])
  | p ∷ ps ↦ p ∷ ps
]

abbrev pub all_system_parts : List Message → List ContentPart
all_system_parts [] = []
all_system_parts (m ∷ ms) = system_parts m ++ all_system_parts ms

abbrev pub all_text : List ContentPart → Bool
all_text [] = true
all_text (p ∷ ps) = is_text p.part_type && all_text ps

-- `joinStrings`.
unfoldable pub join_strings : List String → String → String
join_strings [] sep = ""
join_strings (s ∷ []) sep = s
join_strings (s ∷ t ∷ ts) sep = str_append s (str_append sep (join_strings (t ∷ ts) sep))

unfoldable pub merge_system_content : List Message → String × List ContentPart
unfolding join_strings
merge_system_content ms =
    let parts = all_system_parts ms in
    if all_text parts then (join_strings (part_texts parts) "\n\n", []) else ("", parts)

abbrev pub system_messages : List Message → List Message
system_messages [] = []
system_messages (m ∷ ms) = if is_system m then m ∷ system_messages ms else system_messages ms

abbrev pub non_system_messages : List Message → List Message
non_system_messages [] = []
non_system_messages (m ∷ ms) =
    if is_system m then non_system_messages ms else m ∷ non_system_messages ms

-- The first cache breakpoint on a system message.
abbrev pub system_cache_control : List Message → Option CacheControl
system_cache_control [] = none
system_cache_control (m ∷ ms) = elim m.cache_control [
  | none ↦ system_cache_control ms
  | some c ↦ some c
]

unfoldable pub merged_system : List Message → Message
unfolding merge_system_content
merged_system ms = record {
  role = role_system;
  content = (merge_system_content ms).0;
  parts = (merge_system_content ms).1;
  tool_calls = [];
  tool_call_id = "";
  name = "";
  cache_control = system_cache_control ms;
  reasoning = none;
}

unfoldable pub consolidate_system_messages : List Message → List Message
unfolding merged_system
consolidate_system_messages ms = elim (system_messages ms) [
  | [] ↦ ms
  | s ∷ ss ↦ merged_system (s ∷ ss) ∷ non_system_messages ms
]

abbrev pub has_reasoning : Message → Bool
has_reasoning m = elim m.reasoning [ none ↦ false | some _ ↦ true ]

abbrev pub has_parts : Message → Bool
has_parts m = elim m.parts [ [] ↦ false | _ ∷ _ ↦ true ]

-- The text of the current message becomes its first part when either message has parts.
unfoldable pub content_to_part : Message → Message → Message
content_to_part c m =
    if not (str_eq c.content "") && (has_parts c || has_parts m)
    then record c { content = ""; parts = new_text_part c.content ∷ c.parts }
    else c

unfoldable pub add_content : Message → Message → Message
add_content c m =
    if str_eq m.content ""
    then c
    else if has_parts c
    then record c { parts = c.parts ++ (new_text_part m.content ∷ []) }
    else if not (str_eq c.content "")
    then record c { content = str_append c.content (str_append "\n" m.content) }
    else record c { content = m.content }

-- `msg` merged into `current`, which has the same role.
unfoldable pub merge_message : Message → Message → Message
unfolding content_to_part add_content
merge_message current msg =
    let c = add_content (content_to_part current msg) msg in
    record c {
      parts = c.parts ++ msg.parts;
      tool_calls = c.tool_calls ++ msg.tool_calls;
      cache_control = elim msg.cache_control [ none ↦ c.cache_control | some x ↦ some x ];
    }

abbrev pub flush : Option Message → List Message
flush none = []
flush (some c) = c ∷ []

abbrev pub reasons : Option Message → Bool
reasons none = false
reasons (some c) = has_reasoning c

-- One round of the loop: what it appends to the result, and the new `current`.
unfoldable pub merge_step : Option Message → Message → List Message × Option Message
unfolding merge_message
merge_step current msg =
    if is_tool msg || is_system msg
    then (flush current ++ (msg ∷ []), none)
    else if has_reasoning msg || reasons current
    then (flush current, some msg)
    else elim current [
      | none ↦ ([], some msg)
      | some c ↦
          (if same_role c.role msg.role
            then ([], some (merge_message c msg))
            else (c ∷ [], some msg))
    ]

unfoldable pub merge_from : Option Message → List Message → List Message
unfolding merge_step
merge_from current [] = flush current
merge_from current (m ∷ ms) = (merge_step current m).0 ++ merge_from (merge_step current m).1 ms

unfoldable pub merge_consecutive_messages : List Message → List Message
unfolding merge_from consolidate_system_messages
merge_consecutive_messages [] = []
merge_consecutive_messages (m ∷ []) = m ∷ []
merge_consecutive_messages (m ∷ n ∷ ms) = merge_from none (consolidate_system_messages (m ∷ n ∷ ms))

-- `disabled` is `opts.DisableMessageMerging`, false for nil options.
unfoldable pub prepare_messages : Bool → List Message → MessagesError ⊎ List Message
unfolding merge_consecutive_messages validate_messages
prepare_messages disabled ms =
    let processed = if disabled then ms else merge_consecutive_messages ms in
    elim (validate_messages processed) [ some e ↦ inl e | none ↦ inr processed ]
