-- ===== src/ResponseStream/Sequence.antt =====
-- All events of a streamed response are numbered one by one (adapter/response_streaming.py).
use vfront.Common.{ℕ, suc, Str, List, [], ◌∷◌, Bool, Option, none, some, refl}
use vfront.Streams.{
  CompletionDelta, GenerateOutput, SemanticOutputDelta, SemanticToolCallDelta, ToolCall,
}
use vfront.ResponseStream.{FunctionToolCall}
use vfront.ResponseStream.Steps.{
  Call, Run, tool_call_items, prelude, open_reasoning, send_reasoning, on_reasoning,
}
use vfront.ResponseStream.Semantic.{
  close_reasoning, open_tool_call, open_message, leave_message, leave_other_call, open_and_send,
  on_tool_delta, on_tool_deltas, on_content, on_semantic, close_semantic,
}
use vfront.ResponseStream.Text.{
  close_reasoning_for_text, open_text, on_text, close_reasoning_alone, end_text_item, send_deferred,
  close_text_item, list_text_items, close_text,
}
use vfront.ResponseStream.Generate.{
  count_output, on_output, on_completion, on_completions, on_outputs,
}
use vfront.ResponseStream.Numbers.{
  IsNumbered, build_function_tool_call_events-Ongoing, build_response_prelude_events-Ongoing,
  open_tool_call_item-Ongoing, open_message_item-Ongoing, ▷-IsNumbered, decide-IsNumbered,
  nothing-IsNumbered, when-IsNumbered, yields-IsNumbered, set-IsNumbered, emits-IsNumbered,
  next_item-IsNumbered, close_message-IsNumbered, close_tool_call-IsNumbered,
  send_arguments-IsNumbered, send_content-IsNumbered,
}

module _ (c : Call) where
  pub tool_call_items-IsNumbered :
      (i : ℕ) (items : List FunctionToolCall) → IsNumbered (tool_call_items c i items)
  unfolding tool_call_items IsNumbered
  tool_call_items-IsNumbered i [] = nothing-IsNumbered
  tool_call_items-IsNumbered i (item ∷ items) =
      ▷-IsNumbered _ _
        (emits-IsNumbered _ (λ r seq. build_function_tool_call_events-Ongoing item i seq 32))
        (tool_call_items-IsNumbered (suc i) items)

  pub prelude-IsNumbered : IsNumbered (prelude c)
  unfolding prelude
  prelude-IsNumbered =
      ▷-IsNumbered _ _
        (when-IsNumbered _ _ (
          emits-IsNumbered _
            (λ r. build_response_prelude_events-Ongoing c.request c.response_id c.created_at)))
        (when-IsNumbered _ _ (tool_call_items-IsNumbered 0 c.prefix_tool_calls))

  pub open_reasoning-IsNumbered : IsNumbered (open_reasoning c)
  unfolding open_reasoning
  open_reasoning-IsNumbered =
      when-IsNumbered _ _
        (▷-IsNumbered _ _ (yields-IsNumbered _ (λ r. refl)) (set-IsNumbered _ (λ r. refl)))

  pub on_reasoning-IsNumbered : (s : Str) → IsNumbered (on_reasoning c s)
  unfolding on_reasoning send_reasoning
  on_reasoning-IsNumbered s = when-IsNumbered _ _ (
      ▷-IsNumbered _ _ open_reasoning-IsNumbered (
        ▷-IsNumbered _ _ (when-IsNumbered _ _ (yields-IsNumbered _ (λ r. refl)))
          (set-IsNumbered _ (λ r. refl))))

  pub close_reasoning-IsNumbered : IsNumbered (close_reasoning c)
  unfolding close_reasoning
  close_reasoning-IsNumbered =
      when-IsNumbered _ _
        (▷-IsNumbered _ _ (yields-IsNumbered _ (λ r. refl)) (set-IsNumbered _ (λ r. refl)))

  pub open_tool_call-IsNumbered : (i : ℕ) (name : Str) → IsNumbered (open_tool_call c i name)
  unfolding open_tool_call
  open_tool_call-IsNumbered i name =
      ▷-IsNumbered _ _ (emits-IsNumbered _ (λ r. open_tool_call_item-Ongoing _ _ _ _))
        (set-IsNumbered _ (λ r. refl))

  pub open_message-IsNumbered : IsNumbered (open_message c)
  unfolding open_message
  open_message-IsNumbered =
      ▷-IsNumbered _ _ (emits-IsNumbered _ (λ r. open_message_item-Ongoing _ _ _))
        (set-IsNumbered _ (λ r. refl))

  pub open_and_send-IsNumbered :
      (i : ℕ) (name : Option Str) (s : Str) → IsNumbered (open_and_send c i name s)
  unfolding open_and_send
  open_and_send-IsNumbered i none s = nothing-IsNumbered
  open_and_send-IsNumbered i (some name) s =
      ▷-IsNumbered _ _ (open_tool_call-IsNumbered i name) (send_arguments-IsNumbered s)

  pub on_tool_delta-IsNumbered : (d : SemanticToolCallDelta) → IsNumbered (on_tool_delta c d)
  unfolding on_tool_delta leave_message leave_other_call
  on_tool_delta-IsNumbered d =
      ▷-IsNumbered _ _
        (▷-IsNumbered _ _
          (when-IsNumbered _ _ (▷-IsNumbered _ _ close_message-IsNumbered next_item-IsNumbered))
          (when-IsNumbered _ _ (▷-IsNumbered _ _ close_tool_call-IsNumbered next_item-IsNumbered)))
        (decide-IsNumbered _ _ _ (send_arguments-IsNumbered _)
          (open_and_send-IsNumbered d.index d.name _))

  pub on_tool_deltas-IsNumbered :
      (ds : List SemanticToolCallDelta) → IsNumbered (on_tool_deltas c ds)
  unfolding on_tool_deltas
  on_tool_deltas-IsNumbered [] = nothing-IsNumbered
  on_tool_deltas-IsNumbered (d ∷ ds) =
      ▷-IsNumbered _ _ (on_tool_delta-IsNumbered d) (on_tool_deltas-IsNumbered ds)

  pub on_content-IsNumbered : (s : Str) → IsNumbered (on_content c s)
  unfolding on_content
  on_content-IsNumbered [] = nothing-IsNumbered
  on_content-IsNumbered (d ∷ s) =
      ▷-IsNumbered _ _
        (▷-IsNumbered _ _
          (when-IsNumbered _ _ (▷-IsNumbered _ _ close_tool_call-IsNumbered next_item-IsNumbered))
          (when-IsNumbered _ _ open_message-IsNumbered))
        (send_content-IsNumbered (d ∷ s))

  pub on_semantic-IsNumbered :
      (semantic : Option SemanticOutputDelta) → IsNumbered (on_semantic c semantic)
  unfolding on_semantic
  on_semantic-IsNumbered semantic =
      ▷-IsNumbered _ _
        (▷-IsNumbered _ _
          (▷-IsNumbered _ _ (set-IsNumbered _ (λ r. refl))
            (▷-IsNumbered _ _ close_reasoning-IsNumbered (set-IsNumbered _ (λ r. refl))))
          (on_tool_deltas-IsNumbered _))
        (on_content-IsNumbered _)

  pub close_reasoning_for_text-IsNumbered : IsNumbered (close_reasoning_for_text c)
  unfolding close_reasoning_for_text
  close_reasoning_for_text-IsNumbered =
      ▷-IsNumbered _ _ (yields-IsNumbered _ (λ r. refl)) (set-IsNumbered _ (λ r. refl))

  pub on_text-IsNumbered : (s : Str) → IsNumbered (on_text c s)
  unfolding on_text open_text
  on_text-IsNumbered [] = nothing-IsNumbered
  on_text-IsNumbered (d ∷ s) =
      ▷-IsNumbered _ _
        (when-IsNumbered _ _ (
          ▷-IsNumbered _ _
            (▷-IsNumbered _ _
              (▷-IsNumbered _ _ (when-IsNumbered _ _ close_reasoning_for_text-IsNumbered)
                (yields-IsNumbered _ (λ r. refl)))
              (yields-IsNumbered _ (λ r. refl)))
            (set-IsNumbered _ (λ r. refl))))
        (when-IsNumbered _ _ (yields-IsNumbered _ (λ r. refl)))

  pub count_output-IsNumbered : (m : CompletionDelta) → IsNumbered (count_output m)
  unfolding count_output
  count_output-IsNumbered m = set-IsNumbered _ (λ r. refl)

  pub on_output-IsNumbered :
      (is_space : ℕ → Bool) (m : CompletionDelta) → IsNumbered (on_output c is_space m)
  unfolding on_output IsNumbered
  on_output-IsNumbered is_space m r =
      ▷-IsNumbered _ _
        (decide-IsNumbered _ _ _ (on_semantic-IsNumbered m.semantic) (on_text-IsNumbered _))
        (count_output-IsNumbered m) _

  pub on_completions-IsNumbered :
      (is_space : ℕ → Bool) (ms : List CompletionDelta) → IsNumbered (on_completions c is_space ms)
  unfolding on_completions on_completion
  on_completions-IsNumbered is_space [] = nothing-IsNumbered
  on_completions-IsNumbered is_space (m ∷ ms) =
      ▷-IsNumbered _ _
        (▷-IsNumbered _ _ (on_reasoning-IsNumbered _) (on_output-IsNumbered is_space m))
        (on_completions-IsNumbered is_space ms)

  pub on_outputs-IsNumbered :
      (is_space : ℕ → Bool) (outputs : List GenerateOutput)
      → IsNumbered (on_outputs c is_space outputs)
  unfolding on_outputs
  on_outputs-IsNumbered is_space [] = nothing-IsNumbered
  on_outputs-IsNumbered is_space (output ∷ outputs) =
      ▷-IsNumbered _ _ (on_completions-IsNumbered is_space output.outputs)
        (on_outputs-IsNumbered is_space outputs)

  pub close_semantic-IsNumbered : IsNumbered (close_semantic c)
  unfolding close_semantic
  close_semantic-IsNumbered = ▷-IsNumbered _ _ close_reasoning-IsNumbered (
      decide-IsNumbered _ _ _ close_message-IsNumbered
        (when-IsNumbered _ _ close_tool_call-IsNumbered))

  pub close_reasoning_alone-IsNumbered : IsNumbered (close_reasoning_alone c)
  unfolding close_reasoning_alone
  close_reasoning_alone-IsNumbered =
      ▷-IsNumbered _ _ (when-IsNumbered _ _ close_reasoning_for_text-IsNumbered)
        (set-IsNumbered _ (λ r. refl))

  pub end_text_item-IsNumbered : (i : Run → ℕ) (s : Run → Str) → IsNumbered (end_text_item c i s)
  unfolding end_text_item
  end_text_item-IsNumbered i s =
      ▷-IsNumbered _ _
        (▷-IsNumbered _ _ (yields-IsNumbered _ (λ r. refl)) (yields-IsNumbered _ (λ r. refl)))
        (yields-IsNumbered _ (λ r. refl))

  pub send_deferred-IsNumbered : (s : Str) → IsNumbered (send_deferred c s)
  unfolding send_deferred
  send_deferred-IsNumbered [] = nothing-IsNumbered
  send_deferred-IsNumbered (d ∷ s) = when-IsNumbered _ _ (
      ▷-IsNumbered _ _
        (▷-IsNumbered _ _
          (▷-IsNumbered _ _
            (▷-IsNumbered _ _ (yields-IsNumbered _ (λ r. refl)) (yields-IsNumbered _ (λ r. refl)))
            (yields-IsNumbered _ (λ r. refl)))
          (end_text_item-IsNumbered _ _))
        (set-IsNumbered _ (λ r. refl)))

  pub close_text_item-IsNumbered : IsNumbered (close_text_item c)
  unfolding close_text_item
  close_text_item-IsNumbered =
      when-IsNumbered _ _
        (▷-IsNumbered _ _ (end_text_item-IsNumbered _ _) (set-IsNumbered _ (λ r. refl)))

  pub list_text_items-IsNumbered :
      (held : Str) (items : List FunctionToolCall) → IsNumbered (list_text_items c held items)
  unfolding list_text_items
  list_text_items-IsNumbered held items = set-IsNumbered _ (λ r. refl)

  pub close_text-IsNumbered :
      (calls : List ToolCall) (held : Str) → IsNumbered (close_text c calls held)
  unfolding close_text IsNumbered
  close_text-IsNumbered calls held r =
      ▷-IsNumbered _ _
        (▷-IsNumbered _ _
          (▷-IsNumbered _ _
            (decide-IsNumbered _ _ _ (send_deferred-IsNumbered held) nothing-IsNumbered)
            close_text_item-IsNumbered)
          (λ s. tool_call_items-IsNumbered s.next_output_index _ s))
        (list_text_items-IsNumbered held _) r
