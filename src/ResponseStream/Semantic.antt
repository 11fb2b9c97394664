-- ===== src/ResponseStream/Semantic.antt =====
-- `generate_response_stream_events` of adapter/response_streaming.py, where the semantic parser of the engine
-- tells the text from the tool calls.
use vfront.Common.{
  ℕ, ◌+◌, Str, List, [], ◌∷◌, ◌++◌, true, false, not, ◌&&◌, Option, none, some, codes,
}
use vfront.Output.Streamed.{or_nothing}
use vfront.Streams.{SemanticOutputDelta, SemanticToolCallDelta}
use vfront.Streams.Chat.{tool_deltas, semantic_content}
use vfront.ResponseStream.{
  item_done, text_delta, arguments_delta, message, tool_call, ActiveResponseItemState, fresh_item,
}
use vfront.ResponseStream.Builders.{open_message_item, open_tool_call_item}
use vfront.ResponseStream.Steps.{
  Call, Step, ◌▷◌, nothing, set, yields, emits, decide, when, estimate, is_message, is_tool_call,
  differs, close_message, close_tool_call, next_item, reasoning_of,
}

abbrev with_part : Str → ActiveResponseItemState → ActiveResponseItemState
with_part s item = record item { text_parts = item.text_parts ++ s ∷ [] }

abbrev with_argument : Str → ActiveResponseItemState → ActiveResponseItemState
with_argument s item = record item {
  tool_call_argument_parts = item.tool_call_argument_parts ++ s ∷ [];
}

-- `if tool_delta.arguments_delta: …`
unfoldable pub send_arguments : Str → Step
send_arguments [] = nothing
send_arguments (c ∷ s) =
    yields (λ r. arguments_delta r.active_item.output_index r.active_item.item_id (c ∷ s))
    ▷ set (λ r. record r { active_item = with_argument (c ∷ s) r.active_item })

unfoldable pub send_content : Str → Step
send_content s =
    yields (λ r.
      text_delta r.active_item.output_index r.active_item.item_id r.active_item.content_index s)
    ▷ set (λ r. record r { active_item = with_part s r.active_item })

module _ (c : Call) where
  -- The reasoning item is finished before what the semantic parser gives, and at the end after it.
  unfoldable pub close_reasoning : Step
  close_reasoning =
      when (λ r. r.reasoning_item_emitted)
        (yields (λ r. item_done r.active_item.output_index (reasoning_of c r))
          ▷ set (λ r. record r {
            completed_output_items = r.completed_output_items ++ reasoning_of c r ∷ [];
            active_item = record r.active_item { output_index = 1 + r.active_item.output_index };
            reasoning_tokens = estimate r.accumulated_reasoning;
          }))

  unfoldable pub open_tool_call : ℕ → Str → Step
  open_tool_call index name =
      emits (λ r.
        open_tool_call_item r.active_item.output_index (codes "fc_" ++ c.draw r.draws)
          (codes "call_" ++ c.draw (1 + r.draws)) name)
      ▷ set (λ r. record r {
        draws = 2 + r.draws;
        active_item = record (fresh_item r.active_item.output_index) {
          kind = tool_call;
          item_id = codes "fc_" ++ c.draw r.draws;
          tool_call_index = some index;
          tool_call_name = name;
          tool_call_id = codes "call_" ++ c.draw (1 + r.draws);
        };
      })

  unfoldable pub open_message : Step
  open_message =
      emits (λ r. open_message_item r.active_item.output_index (codes "msg_" ++ c.draw r.draws) 0)
      ▷ set (λ r. record r {
        draws = 1 + r.draws;
        active_item = record (fresh_item r.active_item.output_index) {
          kind = message;
          item_id = codes "msg_" ++ c.draw r.draws;
        };
      })

  -- `if active_item.kind == "message": …`
  unfoldable pub leave_message : Step
  leave_message = when (λ r. is_message r.active_item.kind) (close_message ▷ next_item)

  unfoldable pub leave_other_call : ℕ → Step
  leave_other_call index =
      when (λ r. is_tool_call r.active_item.kind && differs r.active_item.tool_call_index index)
        (close_tool_call ▷ next_item)

  -- A delta without a name opens no call, and is passed over where none is open.
  unfoldable pub open_and_send : ℕ → Option Str → Str → Step
  open_and_send index none arguments = nothing
  open_and_send index (some name) arguments = open_tool_call index name ▷ send_arguments arguments

  unfoldable pub on_tool_delta : SemanticToolCallDelta → Step
  on_tool_delta d =
      let arguments = or_nothing d.arguments_delta in
      leave_message
      ▷ leave_other_call d.index
      ▷ decide (λ r. is_tool_call r.active_item.kind) (send_arguments arguments)
          (open_and_send d.index d.name arguments)

  unfoldable pub on_tool_deltas : List SemanticToolCallDelta → Step
  on_tool_deltas [] = nothing
  on_tool_deltas (d ∷ ds) = on_tool_delta d ▷ on_tool_deltas ds

  -- `if semantic_delta.content_delta: …`
  unfoldable pub on_content : Str → Step
  on_content [] = nothing
  on_content (d ∷ s) =
      when (λ r. is_tool_call r.active_item.kind) (close_tool_call ▷ next_item)
      ▷ when (λ r. not (is_message r.active_item.kind)) open_message
      ▷ send_content (d ∷ s)

  unfoldable pub on_semantic : Option SemanticOutputDelta → Step
  on_semantic semantic =
      set (λ r. record r { semantic_emitted = true })
      ▷ (close_reasoning ▷ set (λ r. record r { reasoning_item_emitted = false }))
      ▷ on_tool_deltas (tool_deltas semantic)
      ▷ on_content (or_nothing (semantic_content semantic))

  -- The end where the semantic parser has spoken.
  unfoldable pub close_semantic : Step
  close_semantic =
      close_reasoning
      ▷ decide (λ r. is_message r.active_item.kind) close_message
          (when (λ r. is_tool_call r.active_item.kind) close_tool_call)
