-- ===== src/Tests/ConversationRuns.antt =====
-- The theorems on conversations, at one of four messages, and a message that the tools prompt cannot be
-- added to.
use vfront.Common.{
  ℕ, List, [], ◌∷◌, map, true, false, not, none, some, ◌≡◌, ◌⊎◌, refl, codes, keep, String, str_eq,
  all,
}
use vfront.ResponseStream.{
  FunctionToolCall, OutputItem, message_item, call_item, reasoning_item, completed_status,
}
use vfront.Conversation.{
  text, parts, Message, FunctionToolDefinition, is_system, build_tools_prompt, tool_lines,
  extend_first, inject_tools_prompt, truncate_messages_for_context, without_marks,
  build_generation_messages, count_tokens, shrink,
}
use vfront.Conversation.Truncation.{is_writable, fits, Shortened, truncate_messages_for_context_lem}

abbrev said : String → String → Message
said role content = record {
  role = codes role;
  content = text (codes content);
  is_instructions = false;
  tool_calls = [];
}

abbrev messages : List Message
messages = said "user" "a" ∷ said "system" "b" ∷ said "assistant" "c" ∷ said "user" "d" ∷ []

-- One token for each message.
abbrev tokenize : List Message → List ℕ
tokenize given = map (λ m. 0) given

writable : all is_writable messages ≡ true
unfolding str_eq
writable = refl

truncate_messages_for_context_lem_example :
    (result : List Message) × (truncate_messages_for_context tokenize [] messages 2 ≡ some result)
    × ((◌≡◌ {A = ℕ} 2 0 ⊎ (fits tokenize [] 2 messages ≡ true)) × (result ≡ messages)
        ⊎ Shortened tokenize [] 2
            (keep is_system messages)
            (keep (λ m. not (is_system m)) messages)
            result)
truncate_messages_for_context_lem_example =
    truncate_messages_for_context_lem tokenize [] messages 2 writable

two_messages_left :
    truncate_messages_for_context tokenize [] messages 2
    ≡ some (said "system" "b" ∷ said "user" "d" ∷ [])
unfolding truncate_messages_for_context count_tokens shrink build_generation_messages without_marks
    inject_tools_prompt build_tools_prompt str_eq
two_messages_left = refl

abbrev search_call : FunctionToolCall
search_call = record {
  id = codes "fc_1";
  call_id = codes "call_1";
  name = codes "search";
  arguments = codes "{}";
  status = some completed_status;
}

abbrev output : List OutputItem
output =
    reasoning_item (record { id = codes "rs_1"; summary = codes "hm" ∷ [] })
    ∷ call_item search_call
    ∷ message_item
        (record { id = codes "msg_1"; status = completed_status; content = codes "ok" ∷ [] })
    ∷ []

abbrev tool : FunctionToolDefinition
tool = record { name = codes "f"; description = []; parameters = none }

-- A developer message with an image becomes a message of the system with a list of parts.
parts_raise :
    inject_tools_prompt
      (record (said "system" "") { content = parts (codes "[]") } ∷ [])
      (tool ∷ [])
    ≡ none
unfolding inject_tools_prompt build_tools_prompt tool_lines extend_first str_eq
parts_raise = refl
