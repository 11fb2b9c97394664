-- ===== src/ResponseStream/Generate.antt =====
-- `generate_response_stream_events` of adapter/response_streaming.py, put together.
use vfront.Common.{
  ℕ, Str, List, [], ◌∷◌, ◌++◌, Bool, true, false, not, ◌||◌, Option, codes, length, if◌then◌else◌,
}
use vfront.Output.{AssistantOutput, tool_output, is_empty, update, finalize}
use vfront.Output.Streamed.{or_nothing}
use vfront.Streams.{
  SemanticOutputDelta, SemanticToolCallDelta, CompletionDelta, GenerateOutput, ToolCall,
}
use vfront.Streams.Chat.{Outcome, ended, failed, interrupted, tool_deltas, semantic_content}
use vfront.ResponseStream.{Sent}
use vfront.ResponseStream.Builders.{build_response_failure_events}
use vfront.ResponseStream.Steps.{
  Call, EngineEnd, exhausted, cancelled, raised, Run, Step, ◌▷◌, nothing, set, decide, start,
  prelude, on_reasoning, complete,
}
use vfront.ResponseStream.Semantic.{on_semantic, close_semantic}
use vfront.ResponseStream.Text.{on_text, close_reasoning_alone, calls_of, close_text}

-- `semantic_delta.content_delta or semantic_delta.tool_call_deltas`
unfoldable pub speaks : Option SemanticOutputDelta → Bool
speaks semantic =
    not (is_empty (or_nothing (semantic_content semantic))) || not (has_none (tool_deltas semantic))
  where
    has_none : List SemanticToolCallDelta → Bool
    has_none [] = true
    has_none (d ∷ ds) = false

-- `request.tools and normalized.kind == "tool_calls" and normalized.tool_calls`
abbrev pub is_unexpected : List Str → AssistantOutput ToolCall → Bool
is_unexpected (t ∷ tools) (tool_output calls) = true
is_unexpected _ _ = false

-- `accumulated_text = current_text`, and the count of the tokens
unfoldable pub count_output : CompletionDelta → Step
count_output m =
    set λ r. record r { accumulated_text = m.text; completion_tokens = length m.token_ids }

module _ (c : Call) where
  module _ (is_space : ℕ → Bool) where
    -- After the reasoning, the text is counted and then given to one of the two branches.
    unfoldable pub on_output : CompletionDelta → Step
    on_output m r =
        let (state, delta_text) = update is_space r.text_state m.text m.finish_reason in
        (decide (λ _. speaks m.semantic) (on_semantic c m.semantic)
              (on_text c (or_nothing delta_text))
            ▷ count_output m)
          (record r { text_state = state })

    unfoldable pub on_completion : CompletionDelta → Step
    on_completion m = on_reasoning c (or_nothing m.reasoning_text) ▷ on_output m

    unfoldable pub on_completions : List CompletionDelta → Step
    on_completions [] = nothing
    on_completions (m ∷ ms) = on_completion m ▷ on_completions ms

    unfoldable pub on_outputs : List GenerateOutput → Step
    on_outputs [] = nothing
    on_outputs (output ∷ outputs) = on_completions output.outputs ▷ on_outputs outputs

  module _ (is_space : ℕ → Bool) (build_tool_calls_from_text : Str → Option (List ToolCall)) where
    -- What the parser makes of the whole text, and the text that was held back.
    abbrev pub final_output : Run → AssistantOutput ToolCall × Option Str
    final_output r = finalize is_space build_tool_calls_from_text r.text_state

    abbrev pub finish_text : AssistantOutput ToolCall × Option Str → Step
    finish_text (normalized, held) =
        close_text c (calls_of normalized) (or_nothing held) ▷ complete c

    -- The end of a stream of text: a RuntimeError where the text holds tool calls.
    unfoldable pub conclude_text : Run → List Sent × Outcome
    conclude_text r =
        let (r1, sent) = close_reasoning_alone c r in
        if is_unexpected c.request.tools (final_output r1).0
        then (sent, failed)
        else (sent ++ (finish_text (final_output r1) r1).1, ended)

    unfoldable pub conclude : Run → List Sent × Outcome
    conclude r =
        if r.semantic_emitted
        then (((close_semantic c ▷ complete c) r).1, ended)
        else conclude_text r

    -- What is yielded when the engine's stream has stopped, and how the generator is left. After an
    -- Exception it returns.
    unfoldable pub stop : EngineEnd → Run → List Sent × Outcome
    stop exhausted r = conclude r
    stop cancelled r = ([], interrupted)
    stop (raised reason) r = (
      (build_response_failure_events c.request reason c.response_id c.created_at r.seq
          (codes "stream_error")).0,
      ended,
    )

    unfoldable pub generate_response_stream_events :
        List GenerateOutput → EngineEnd → List Sent × Outcome
    generate_response_stream_events outputs engine =
        let (r, sent) = (prelude c ▷ on_outputs is_space outputs) (start c) in
        let (more, outcome) = stop engine r in (sent ++ more, outcome)
