-- ===== src/ResponseStream/Text.antt =====
-- `generate_response_stream_events` of adapter/response_streaming.py, where the engine gives text only.
use vfront.Common.{
  ℕ, ◌+◌, Str, List, [], ◌∷◌, ◌++◌, map, Bool, true, false, not, ◌&&◌, ◌||◌, some, codes,
  if◌then◌else◌,
}
use vfront.Output.{AssistantOutput, text_output, tool_output, is_empty, is_text}
use vfront.Streams.{ToolCall}
use vfront.ResponseStream.{
  completed_status, FunctionToolCall, OutputItem, call_item, item_added, item_done, part_added,
  part_done, text_delta, text_done,
}
use vfront.ResponseStream.Builders.{begun_message, done_message}
use vfront.ResponseStream.Steps.{
  Call, Run, Step, ◌▷◌, nothing, set, yields, decide, when, estimate, msg_id, reasoning_of,
  tool_call_items,
}

abbrev pub calls_of : AssistantOutput ToolCall → List ToolCall
calls_of (tool_output calls) = calls
calls_of (text_output s) = []

-- `deferred_text or accumulated_text`
abbrev pub or_text : Str → Str → Str
or_text [] whole = whole
or_text (d ∷ s) whole = d ∷ s

module _ (c : Call) where
  -- The reasoning item before the text: it is finished, but goes on counting as emitted.
  unfoldable pub close_reasoning_for_text : Step
  close_reasoning_for_text =
      yields (λ r. item_done r.output_index (reasoning_of c r))
      ▷ set (λ r. record r {
        output_index = 1 + r.output_index;
        reasoning_tokens = estimate r.accumulated_reasoning;
      })

  unfoldable pub open_text : Step
  open_text =
      when (λ r. r.reasoning_item_emitted) close_reasoning_for_text
      ▷ yields (λ r. item_added r.output_index (begun_message (msg_id c)))
      ▷ yields (λ r. part_added r.output_index (msg_id c) 0 [])
      ▷ set (λ r. record r { text_item_emitted = true })

  unfoldable pub on_text : Str → Step
  on_text [] = nothing
  on_text (d ∷ s) =
      when (λ r. not r.text_item_emitted) open_text
      ▷ when (λ r. is_text r.text_state.kind && r.text_item_emitted)
          (yields λ r. text_delta r.output_index (msg_id c) 0 (d ∷ s))

  -- The reasoning was the only output.
  unfoldable pub close_reasoning_alone : Step
  close_reasoning_alone =
      when (λ r. r.reasoning_item_emitted && not r.text_item_emitted) close_reasoning_for_text
      ▷ set (λ r. record r { next_output_index = r.output_index })

  -- `text_done`, `part_done` and `item_done` of the text item
  unfoldable pub end_text_item : (Run → ℕ) → (Run → Str) → Step
  end_text_item index text =
      yields (λ r. text_done (index r) (msg_id c) 0 (text r))
      ▷ yields (λ r. part_done (index r) (msg_id c) 0 (text r))
      ▷ yields (λ r. item_done (index r) (done_message (msg_id c) (text r)))

  unfoldable pub send_deferred : Str → Step
  send_deferred [] = nothing
  send_deferred (d ∷ s) =
      when (λ r. not r.text_item_emitted)
        (yields (λ r. item_added r.next_output_index (begun_message (msg_id c)))
          ▷ yields (λ r. part_added r.next_output_index (msg_id c) 0 [])
          ▷ yields (λ r. text_delta r.next_output_index (msg_id c) 0 (d ∷ s))
          ▷ end_text_item (λ r. r.next_output_index) (λ r. d ∷ s)
          ▷ set (λ r. record r { next_output_index = 1 + r.next_output_index }))

  unfoldable pub close_text_item : Step
  close_text_item =
      when (λ r. r.text_item_emitted)
        (end_text_item (λ r. r.output_index) (λ r. r.accumulated_text)
          ▷ set (λ r. record r { next_output_index = 1 + r.next_output_index }))

  -- `FunctionToolCall(id=tc_id, name=…, call_id=tc.id, status="completed")`
  unfoldable pub generated_items : ℕ → List ToolCall → List FunctionToolCall
  generated_items k [] = []
  generated_items k (call ∷ calls) =
      record {
        id = codes "fc_" ++ c.draw k;
        call_id = call.id;
        name = call.name;
        arguments = call.arguments;
        status = some completed_status;
      }
      ∷ generated_items (1 + k) calls

  abbrev text_items : Run → Str → List OutputItem
  text_items r deferred =
      if r.text_item_emitted || not (is_empty deferred)
      then done_message (msg_id c) (or_text deferred r.accumulated_text) ∷ []
      else []

  -- What the response lists after the items that were finished before.
  unfoldable pub list_text_items : Str → List FunctionToolCall → Step
  list_text_items deferred generated = set λ r. record r {
    completed_output_items =
        r.completed_output_items
        ++ (if r.reasoning_item_emitted then reasoning_of c r ∷ [] else [])
        ++ text_items r deferred
        ++ map call_item generated;
  }

  unfoldable pub close_text : List ToolCall → Str → Step
  close_text calls deferred r =
      let generated = generated_items r.draws calls in
      (decide (λ _. has_none calls) (send_deferred deferred) nothing
          ▷ close_text_item
          ▷ (λ r. tool_call_items c r.next_output_index generated r)
          ▷ list_text_items deferred generated)
        r
    where
      has_none : List ToolCall → Bool
      has_none [] = true
      has_none (t ∷ ts) = false
