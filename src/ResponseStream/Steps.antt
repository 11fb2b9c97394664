-- ===== src/ResponseStream/Steps.antt =====
-- `generate_response_stream_events` of adapter/response_streaming.py: its variables, its steps and their
-- composition, and what is sent before the engine speaks.
use vfront.Common.{
  ℕ, suc, ◌+◌, ◌/◌, max, Str, List, [], ◌∷◌, ◌++◌, map, Bool, true, false, not, ◌&&◌, Option, none,
  some, codes, str_eq, length, drop, ◌==◌, if◌then◌else◌,
}
use vfront.Output.{StreamState, is_empty, new_state}
use vfront.Output.Streamed.{joined}
use vfront.ResponseStream.{
  FunctionToolCall, OutputItem, call_item, reasoning_item, ResponseCreateRequest, Event, item_added,
  text_delta, response_completed, Sent, ActiveKind, message, tool_call, ActiveResponseItemState,
  fresh_item,
}
use vfront.ResponseStream.Builders.{
  build_response_prelude_events, build_function_tool_call_events, completed_response,
  close_message_item, close_tool_call_item,
}

-- The arguments of the generator. `draw k` is the hexadecimal text of the k-th uuid that it draws,
-- and `completed_at` the time that it reads at the end.
pub record Call : Type 0 where
  pub request : ResponseCreateRequest
  pub response_id : Str
  pub created_at : ℕ
  pub completed_at : ℕ
  pub prompt_tokens : ℕ
  pub prefix_tool_calls : List FunctionToolCall
  pub initial_sequence_number : ℕ
  pub emit_prelude : Bool
  pub emit_prefix_tool_call_events : Bool
  pub draw : ℕ → Str

-- How the engine's stream stops: at its end, by an Exception with its text, or by another
-- BaseException.
pub data EngineEnd : Type 0 where
  exhausted cancelled : EngineEnd
  raised : Str → EngineEnd

-- The local variables.
pub record Run : Type 0 where
  pub seq : ℕ
  pub draws : ℕ
  pub accumulated_text : Str
  pub accumulated_reasoning : Str
  pub completion_tokens : ℕ
  pub reasoning_tokens : ℕ
  pub previous_reasoning_len : ℕ
  pub completed_output_items : List OutputItem
  pub output_index : ℕ
  pub next_output_index : ℕ
  pub text_state : StreamState
  pub semantic_emitted : Bool
  pub active_item : ActiveResponseItemState
  pub reasoning_item_emitted : Bool
  pub text_item_emitted : Bool

-- A piece of the generator: what it makes of the variables, and the events that it yields.
abbrev pub Step : Type 0
Step = Run → Run × List Sent

infixl 5 ◌▷◌
unfoldable pub ◌▷◌ : Step → Step → Step
f ▷ g = λ r. let (r1, sent) = f r in let (r2, more) = g r1 in (r2, sent ++ more)

abbrev pub nothing : Step
nothing r = (r, [])

abbrev pub set : (Run → Run) → Step
set f r = (f r, [])

-- `yield` of an event under `seq`, and `seq += 1`
abbrev pub yields : (Run → Event) → Step
yields e r = (record r { seq = suc r.seq }, (r.seq, e r) ∷ [])

-- `events, seq = build(…, seq)`, and the events are yielded
abbrev pub emits : (Run → ℕ → List Sent × ℕ) → Step
emits build r = let (events, seq) = build r r.seq in (record r { seq = seq }, events)

-- The same for a builder that also returns the item, which is appended to the finished ones.
abbrev pub emits_item : (Run → ℕ → List Sent × OutputItem × ℕ) → Step
emits_item build r =
    let (events, item, seq) = build r r.seq in
    (record r { seq = seq; completed_output_items = r.completed_output_items ++ item ∷ [] }, events)

abbrev pub decide : (Run → Bool) → Step → Step → Step
decide test f g r = if test r then f r else g r

abbrev pub when : (Run → Bool) → Step → Step
when test f = decide test f nothing

abbrev pub estimate : Str → ℕ
estimate s = max 1 (length s / 4)

abbrev pub is_message : ActiveKind → Bool
is_message message = true
is_message _ = false

abbrev pub is_tool_call : ActiveKind → Bool
is_tool_call tool_call = true
is_tool_call _ = false

-- `tool_call_index != index`
abbrev pub differs : Option ℕ → ℕ → Bool
differs none index = true
differs (some i) index = not (i == index)

unfoldable pub close_message : Step
close_message = emits_item λ r.
    close_message_item r.active_item.output_index r.active_item.item_id r.active_item.content_index
      (joined r.active_item.text_parts)

unfoldable pub close_tool_call : Step
close_tool_call = emits_item λ r.
    close_tool_call_item r.active_item.output_index r.active_item.item_id r.active_item.tool_call_id
      r.active_item.tool_call_name (joined r.active_item.tool_call_argument_parts)

unfoldable pub next_item : Step
next_item = set λ r. record r { active_item = fresh_item (1 + r.active_item.output_index) }

module _ (c : Call) where
  abbrev pub reasoning_id : Str
  reasoning_id = codes "rs_" ++ c.draw 0

  abbrev pub msg_id : Str
  msg_id = codes "msg_" ++ c.draw 1

  abbrev pub reasoning_of : Run → OutputItem
  reasoning_of r =
      reasoning_item (record { id = reasoning_id; summary = r.accumulated_reasoning ∷ [] })

  unfoldable pub start : Run
  start =
      let index = length c.prefix_tool_calls in
      record {
        seq = c.initial_sequence_number;
        draws = 2;
        accumulated_text = [];
        accumulated_reasoning = [];
        completion_tokens = 0;
        reasoning_tokens = 0;
        previous_reasoning_len = 0;
        completed_output_items = map call_item c.prefix_tool_calls;
        output_index = index;
        next_output_index = index;
        text_state = new_state (not (has_none c.request.tools));
        semantic_emitted = false;
        active_item = fresh_item index;
        reasoning_item_emitted = false;
        text_item_emitted = false;
      }
    where
      has_none : List Str → Bool
      has_none [] = true
      has_none (t ∷ ts) = false

  -- The events of the tool calls before the engine's, from `output_index` on.
  unfoldable pub tool_call_items : ℕ → List FunctionToolCall → Step
  tool_call_items output_index [] = nothing
  tool_call_items output_index (item ∷ items) =
      emits (λ r seq. build_function_tool_call_events item output_index seq 32)
      ▷ tool_call_items (suc output_index) items

  unfoldable pub prelude : Step
  prelude =
      when (λ r. c.emit_prelude)
        (emits λ r. build_response_prelude_events c.request c.response_id c.created_at)
      ▷ when (λ r. c.emit_prefix_tool_call_events) (tool_call_items 0 c.prefix_tool_calls)

  unfoldable pub open_reasoning : Step
  open_reasoning =
      when (λ r. not r.reasoning_item_emitted)
        (yields (λ r.
            item_added r.output_index (reasoning_item (record { id = reasoning_id; summary = [] })))
          ▷ set (λ r. record r { reasoning_item_emitted = true }))

  unfoldable pub send_reasoning : Str → Step
  send_reasoning text =
      when (λ r. not (is_empty (drop r.previous_reasoning_len text)))
        (yields λ r. text_delta r.output_index reasoning_id 0 (drop r.previous_reasoning_len text))
      ▷ set (λ r. record r { previous_reasoning_len = length text; accumulated_reasoning = text })

  unfoldable pub on_reasoning : Str → Step
  on_reasoning text =
      when (λ r. not (is_empty text) && not (str_eq text r.accumulated_reasoning))
        (open_reasoning ▷ send_reasoning text)

  unfoldable pub complete : Step
  complete = yields λ r. response_completed (
      completed_response c.request r.completed_output_items c.prompt_tokens r.completion_tokens
        c.response_id c.created_at r.reasoning_tokens c.completed_at)
