-- ===== src/Message/Examples.antt =====
-- A chat with two system prompts, two user messages in a row and a tool call.
use Prim.Native.String.{String}
use llm_go_sdk.Base.{
  List, [], false, if◌then◌else◌, inl, inr, length, none, refl, some, true, ◌∷◌, ◌≡◌,
}
use llm_go_sdk.Message.{Message, Role, role_assistant, role_system, role_tool, role_user}
use llm_go_sdk.Message.Turn.{IsTurnStart, current_turn_start, current_turn_start-IsTurnStart}
use llm_go_sdk.Message.Validate.{MessagesError}
use llm_go_sdk.Message.Accepted.{accepted}
use llm_go_sdk.Message.Merge.{
  add_content, consolidate_system_messages, content_to_part, join_strings,
  merge_consecutive_messages, merge_from, merge_message, merge_step, merge_system_content,
  merged_system, prepare_messages,
}
use llm_go_sdk.Message.Merge.Settled.{SettledAfter, merge_consecutive_messages-SettledAfter}
use llm_go_sdk.Message.Merge.Idempotent.{merge_consecutive_messages_idem}
use llm_go_sdk.Message.Merge.Kept.{
  calls_of, gather, images_of, merge_consecutive_messages-keeps, result_of,
}
use llm_go_sdk.Message.Merge.Accepts.{prepare_messages-accepts}

abbrev said : Role → String → Message
said r text = record {
  role = r;
  content = text;
  parts = [];
  tool_calls = [];
  tool_call_id = "";
  name = "";
  cache_control = none;
  reasoning = none;
}

abbrev asking : Message
asking = record (said role_assistant "let me look") {
  tool_calls =
      record {
        id = "a";
        tool_type = "function";
        function = some (record { name = "find"; arguments = "{}" });
        signature = "";
        signature_provider = "";
      }
      ∷ [];
}

abbrev chat : List Message
chat =
    said role_system "be brief"
    ∷ said role_user "hello"
    ∷ said role_user "where?"
    ∷ said role_system "in English"
    ∷ asking
    ∷ record (said role_tool "here") { tool_call_id = "a" }
    ∷ []

merge_consecutive_messages-SettledAfter_example :
    SettledAfter none (merge_consecutive_messages chat)
merge_consecutive_messages-SettledAfter_example = merge_consecutive_messages-SettledAfter chat

merge_consecutive_messages_idem_example :
    merge_consecutive_messages (merge_consecutive_messages chat) ≡ merge_consecutive_messages chat
merge_consecutive_messages_idem_example = merge_consecutive_messages_idem chat

merge_consecutive_messages-keeps_example :
    (gather calls_of (merge_consecutive_messages chat) ≡ gather calls_of chat)
    × (gather result_of (merge_consecutive_messages chat) ≡ gather result_of chat)
    × (gather images_of (merge_consecutive_messages chat) ≡ gather images_of chat)
merge_consecutive_messages-keeps_example = merge_consecutive_messages-keeps chat

prepare_messages-accepts_example :
    (accepted chat ≡ true
      → prepare_messages false chat ≡ inr (if false then chat else merge_consecutive_messages chat))
    × (accepted chat ≡ false → (e : MessagesError) × (prepare_messages false chat ≡ inl e))
prepare_messages-accepts_example = prepare_messages-accepts false chat

-- What the merging makes of it.
merged_chat :
    merge_consecutive_messages chat
    ≡ said role_system "be brief\n\nin English"
      ∷ said role_user "hello\nwhere?"
      ∷ asking
      ∷ record (said role_tool "here") { tool_call_id = "a" }
      ∷ []
unfolding merge_consecutive_messages merge_from merge_step merge_message content_to_part add_content
    consolidate_system_messages merged_system merge_system_content join_strings
merged_chat = refl

current_turn_start-IsTurnStart_example : IsTurnStart chat (length chat) (current_turn_start chat)
current_turn_start-IsTurnStart_example = current_turn_start-IsTurnStart chat
