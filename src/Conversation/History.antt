-- ===== src/Conversation/History.antt =====
-- What a later request knows of the output of a response (adapter/response.py).
use vfront.Common.{Str, List, [], ◌∷◌, ◌++◌, Bool, not}
use vfront.Output.Streamed.{joined}
use vfront.ResponseStream.{FunctionToolCall, OutputItem, message_item, call_item}
use vfront.Conversation.{Content, text, Message}

-- The calls and the text of the output, in their order.
abbrev pub output_calls : List OutputItem → List FunctionToolCall
output_calls [] = []
output_calls (call_item call ∷ items) = call ∷ output_calls items
output_calls (_ ∷ items) = output_calls items

abbrev pub output_text : List OutputItem → Str
output_text [] = []
output_text (message_item m ∷ items) = joined m.content ++ output_text items
output_text (_ ∷ items) = output_text items

-- The same of messages.
abbrev pub told_calls : List Message → List FunctionToolCall
told_calls [] = []
told_calls (m ∷ messages) = m.tool_calls ++ told_calls messages

abbrev text_of : Content → Str
text_of (text s) = s
text_of _ = []

abbrev pub told_text : List Message → Str
told_text [] = []
told_text (m ∷ messages) = text_of m.content ++ told_text messages

abbrev pub is_unmarked : Message → Bool
is_unmarked m = not m.is_instructions
