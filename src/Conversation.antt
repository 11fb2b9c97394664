-- ===== src/Conversation.antt =====
-- The messages of a request to the responses API (adapter/response.py). The items of the input are
-- taken as the messages that they become.
pub mod Truncation
pub mod History
use vfront.Common.{
  ℕ, Str, List, [], ◌∷◌, ◌++◌, Bool, true, false, not, ◌||◌, Option, none, some, codes, str_eq, leb,
  length, any, keep, String, if◌then◌else◌,
}
use vfront.Output.{is_empty}
use vfront.Output.Streamed.{joined}
use vfront.ResponseStream.{FunctionToolCall, OutputItem, message_item, call_item, reasoning_item}

-- The content of a message: a text, a list of parts as its JSON text, or None.
pub data Content : Type 0 where
  text parts : Str → Content
  absent : Content

-- A chat message. `is_instructions` is the mark under _INSTRUCTIONS_MESSAGE_KEY.
-- Its tool_call_id, which nothing here reads, is left out.
pub record Message : Type 0 where
  pub role : Str
  pub content : Content
  pub is_instructions : Bool
  pub tool_calls : List FunctionToolCall

abbrev pub is_system : Message → Bool
is_system m = str_eq m.role (codes "system")

abbrev new_message : String → Content → Message
new_message role content = record {
  role = codes role;
  content = content;
  is_instructions = false;
  tool_calls = [];
}

-- FunctionToolDefinition, with the JSON text of its parameters
pub record FunctionToolDefinition : Type 0 where
  pub name : Str
  pub description : Str
  pub parameters : Option Str

abbrev line_break : Str
line_break = 10 ∷ []

-- `"\n".join(lines)`
abbrev join_lines : List Str → Str
join_lines [] = []
join_lines (s ∷ []) = s
join_lines (s ∷ t ∷ lines) = s ++ line_break ++ join_lines (t ∷ lines)

abbrev line_if : Bool → Str → List Str
line_if b s = if b then s ∷ [] else []

abbrev parameter_lines : Option Str → List Str
parameter_lines none = []
parameter_lines (some json) = (codes "  Parameters: " ++ json) ∷ []

-- The lines of the tools.
unfoldable pub tool_lines : List FunctionToolDefinition → List Str
tool_lines [] = []
tool_lines (tool ∷ tools) =
    (codes "- " ++ tool.name) ∷ []
    ++ line_if (not (is_empty tool.description)) (codes "  Description: " ++ tool.description)
    ++ parameter_lines tool.parameters
    ++ [] ∷ []
    ++ tool_lines tools

unfoldable pub build_tools_prompt : List FunctionToolDefinition → Str
build_tools_prompt [] = []
build_tools_prompt (tool ∷ tools) = join_lines (
    (codes "You have access to the following functions:" ++ line_break) ∷ []
    ++ tool_lines (tool ∷ tools)
    ++ codes
        "When you want to call a function, respond with a JSON array of objects with \"name\" and \"arguments\" keys."
      ∷ [])

-- `content + "\n\n" + tools_prompt`: with `none` it raises a TypeError.
abbrev extended : Str → Content → Option Content
extended prompt (text s) = some (text (s ++ line_break ++ line_break ++ prompt))
extended prompt _ = none

-- The first message of the system gets the prompt.
unfoldable pub extend_first : Str → List Message → Option (List Message)
extend_first prompt [] = some []
extend_first prompt (m ∷ messages) =
    let rest = extend_first prompt messages in
    if is_system m
    then elim (extended prompt m.content) [
      | none ↦ none
      | some content ↦ some (record m { content = content } ∷ messages)
    ]
    else elim rest [ none ↦ none | some others ↦ some (m ∷ others) ]

unfoldable pub inject_tools_prompt :
    List Message → List FunctionToolDefinition → Option (List Message)
inject_tools_prompt messages tools =
    let prompt = build_tools_prompt tools in
    if is_empty prompt
    then some messages
    else (if any is_system messages
        then extend_first prompt messages
        else some (new_message "system" (text prompt) ∷ messages))

abbrev unmarked : Message → Message
unmarked m = record m { is_instructions = false }

unfoldable pub without_marks : List Message → List Message
without_marks [] = []
without_marks (m ∷ messages) = unmarked m ∷ without_marks messages

unfoldable pub build_generation_messages :
    List Message → List FunctionToolDefinition → Option (List Message)
build_generation_messages messages tools = inject_tools_prompt (without_marks messages) tools

-- The marks are popped with the messages that have them.
unfoldable pub messages_for_response_continuation : List Message → List Message
messages_for_response_continuation messages = keep (λ m. not m.is_instructions) messages

abbrev instruction_messages : Str → List Message
instruction_messages [] = []
instruction_messages (c ∷ s) =
    record {
      role = codes "system";
      content = text (c ∷ s);
      is_instructions = true;
      tool_calls = [];
    }
    ∷ []

-- `calls` are the pending calls, in the order in which they came.
abbrev assistant_message : Content → List FunctionToolCall → Message
assistant_message content calls = record {
  role = codes "assistant";
  content = content;
  is_instructions = false;
  tool_calls = calls;
}

-- A message of the output without texts and without calls before it gives none.
abbrev answer_message : List Str → List FunctionToolCall → List Message
answer_message [] [] = []
answer_message [] (call ∷ calls) = assistant_message absent (call ∷ calls) ∷ []
answer_message (s ∷ texts) calls = assistant_message (text (joined (s ∷ texts))) calls ∷ []

abbrev pending_message : List FunctionToolCall → List Message
pending_message [] = []
pending_message (call ∷ calls) = assistant_message absent (call ∷ calls) ∷ []

-- `_response_to_history_messages`, over the items of the output; of a call only what the message keeps
-- matters.
unfoldable pub history_from : List FunctionToolCall → List OutputItem → List Message
history_from pending [] = pending_message pending
history_from pending (call_item call ∷ items) = history_from (pending ++ call ∷ []) items
history_from pending (message_item m ∷ items) =
    answer_message m.content pending ++ history_from [] items
history_from pending (reasoning_item m ∷ items) = history_from pending items

-- The messages before the request: those that were stored, or else those of the output before.
unfoldable pub previous_messages : Option (List OutputItem) → Option (List Message) → List Message
previous_messages response (some messages) = messages
previous_messages (some output) none = history_from [] output
previous_messages none none = []

-- `input_to_messages`; `input` is what the items of the input become.
unfoldable pub input_to_messages :
    Str → List Message → Option (List OutputItem) → Option (List Message) → List Message
input_to_messages instructions input response messages =
    previous_messages response messages ++ instruction_messages instructions ++ input

-- The messages if their tokens are at most the limit, or else the alternative.
abbrev pub if_room : ℕ → List Message → Option (List Message) → Option ℕ → Option (List Message)
if_room limit messages otherwise none = none
if_room limit messages otherwise (some n) = if leb n limit then some messages else otherwise

-- `tokenize` is the engine's tokenizer.
module _ (tokenize : List Message → List ℕ) (tools : List FunctionToolDefinition) where
  abbrev pub count : Option (List Message) → Option ℕ
  count none = none
  count (some given) = some (length (tokenize given))

  -- The tokens of what the model would be given.
  unfoldable pub count_tokens : List Message → Option ℕ
  count_tokens messages = count (build_generation_messages messages tools)

  -- The loop that drops the oldest message until the rest fits.
  unfoldable pub shrink : ℕ → List Message → List Message → Option (List Message)
  shrink limit system [] = some system
  shrink limit system (m ∷ conversation) =
      let rest = shrink limit system conversation in
      if_room limit (system ++ conversation) rest (count_tokens (system ++ conversation))

  unfoldable pub truncate_messages_for_context : List Message → ℕ → Option (List Message)
  truncate_messages_for_context messages limit =
      if leb limit 0
      then some messages
      else if_room limit messages
          (shrink limit (keep is_system messages) (keep (λ m. not (is_system m)) messages))
          (count_tokens messages)
