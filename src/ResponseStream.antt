-- ===== src/ResponseStream.antt =====
-- The events of a streamed response (adapter/response_streaming.py, and its items in
-- protocol/response.py). An event is what it says and its sequence number; its JSON text is left
-- out. A text is its code points.
pub mod Builders
pub mod Steps
pub mod Semantic
pub mod Text
pub mod Generate
pub mod Numbers
pub mod Sequence
pub mod Endings
pub mod Chunks
pub mod Client
pub mod Heard
pub mod Following
pub mod ItemSteps
pub mod InStep
pub mod Reasoning
pub mod Opening
pub mod Speaking
pub mod Assembled
use vfront.Common.{
  ℕ, zero, suc, ◌+◌, Str, List, [], ◌∷◌, ◌++◌, map, Bool, true, false, Option, none, some, codes,
  ltb, length, take, drop, if◌then◌else◌,
}

-- The statuses that the generator gives to an item or a response.
pub data Status : Type 0 where
  in_progress completed_status failed_status : Status

pub record OutputMessage : Type 0 where
  pub id : Str
  pub status : Status
  -- the texts of its parts
  pub content : List Str

pub record FunctionToolCall : Type 0 where
  pub id : Str
  pub call_id : Str
  pub name : Str
  pub arguments : Str
  pub status : Option Status

pub record ReasoningItem : Type 0 where
  pub id : Str
  -- the texts of its summaries
  pub summary : List Str

-- ResponseOutputItem
pub data OutputItem : Type 0 where
  message_item : OutputMessage → OutputItem
  call_item : FunctionToolCall → OutputItem
  reasoning_item : ReasoningItem → OutputItem

-- ResponseUsage; no token is counted as cached
pub record ResponseUsage : Type 0 where
  pub input_tokens : ℕ
  pub output_tokens : ℕ
  pub total_tokens : ℕ
  pub cached_tokens : ℕ
  pub reasoning_tokens : ℕ

-- ResponseCreateRequest: the fields that a response repeats as they are are one value, `settings`.
pub record ResponseCreateRequest : Type 0 where
  pub settings : Str
  pub parallel_tool_calls : Option Bool
  pub tools : List Str

pub record ResponseError : Type 0 where
  pub code : Str
  pub message : Str

pub record ResponseObject : Type 0 where
  pub id : Str
  pub created_at : ℕ
  pub completed_at : Option ℕ
  pub status : Status
  pub settings : Str
  pub tools : List Str
  pub parallel_tool_calls : Bool
  pub output : List OutputItem
  pub usage : Option ResponseUsage
  pub error : Option ResponseError

-- The events that the generator sends, with their `output_index`, `item_id` and `content_index`
-- in this order. It sends no incomplete or refusal event.
pub data Event : Type 0 where
  response_created response_in_progress : ResponseObject → Event
  item_added item_done : ℕ → OutputItem → Event
  part_added part_done text_delta text_done : ℕ → Str → ℕ → Str → Event
  arguments_delta : ℕ → Str → Str → Event
  -- the name comes before the arguments
  arguments_done : ℕ → Str → Str → Str → Event
  response_error : ResponseError → Event
  response_failed response_completed : ResponseObject → Event

-- An event as it is sent, under its sequence number.
abbrev pub Sent : Type 0
Sent = ℕ × Event

-- _ActiveResponseItemState: which item is open, if any
pub data ActiveKind : Type 0 where
  no_item message tool_call : ActiveKind

pub record ActiveResponseItemState : Type 0 where
  pub kind : ActiveKind
  pub output_index : ℕ
  pub item_id : Str
  pub content_index : ℕ
  pub text_parts : List Str
  pub tool_call_index : Option ℕ
  pub tool_call_name : Str
  pub tool_call_id : Str
  pub tool_call_argument_parts : List Str

-- `_ActiveResponseItemState(output_index=…)`
unfoldable pub fresh_item : ℕ → ActiveResponseItemState
fresh_item output_index = record {
  kind = no_item;
  output_index = output_index;
  item_id = [];
  content_index = 0;
  text_parts = [];
  tool_call_index = none;
  tool_call_name = [];
  tool_call_id = [];
  tool_call_argument_parts = [];
}
