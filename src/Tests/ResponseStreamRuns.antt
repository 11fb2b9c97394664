-- ===== src/Tests/ResponseStreamRuns.antt =====
-- The theorems on the streamed response, at a stream with reasoning, a tool call and a message, and
-- two streams that break the protocol.
use vfront.Common.{
  ◌+◌, Str, List, [], ◌∷◌, ◌++◌, map, Bool, true, false, Option, none, some, ◌≡◌, refl, codes,
  length, str_eq, starts_with, arith,
}
use vfront.Output.{new_state, update, decided, looks_like_tool_call_prefix, lstrip}
use vfront.Streams.{CompletionDelta, GenerateOutput, SemanticOutputDelta, ToolCall}
use vfront.Streams.Chat.Alone.{all_completions}
use vfront.ResponseStream.{
  FunctionToolCall, ResponseCreateRequest, ResponseObject, completed_status, Sent, fresh_item,
}
use vfront.ResponseStream.Builders.{
  build_response_prelude_events, build_function_tool_call_events, numbered, argument_chunks,
  chunk_starts, range_from, open_message_item, close_message_item, open_tool_call_item,
  close_tool_call_item, completed_response,
}
use vfront.ResponseStream.Steps.{
  Call, exhausted, raised, ◌▷◌, start, tool_call_items, prelude, open_reasoning, send_reasoning,
  on_reasoning, complete, close_message, close_tool_call, next_item,
}
use vfront.ResponseStream.Semantic.{
  send_arguments, send_content, close_reasoning, open_tool_call, open_message, leave_message,
  leave_other_call, open_and_send, on_tool_delta, on_tool_deltas, on_content, on_semantic,
  close_semantic,
}
use vfront.ResponseStream.Text.{on_text, open_text}
use vfront.ResponseStream.Generate.{
  speaks, count_output, on_output, on_completion, on_completions, on_outputs, conclude, stop,
  generate_response_stream_events,
}
use vfront.ResponseStream.Numbers.{Consecutive, Ending, are_ongoing}
use vfront.ResponseStream.Endings.{
  generate_response_stream_events-Consecutive, generate_response_stream_events-Ending,
}
use vfront.ResponseStream.Chunks.{
  sent_arguments, are_short, build_function_tool_call_events-arguments,
}
use vfront.ResponseStream.Client.{Client, between, broken, complete_with, follows, hears, opened}
use vfront.ResponseStream.Assembled.{is_in_turn, generate_response_stream_events-follows}
use vfront.Tests.OutputRuns.{is_space}

abbrev no_calls : Str → Option (List ToolCall)
no_calls s = none

abbrev search_call : FunctionToolCall
search_call = record {
  id = [];
  call_id = codes "call_1";
  name = codes "search";
  arguments = codes "{}";
  status = some completed_status;
}

abbrev request : ResponseCreateRequest
request = record { settings = []; parallel_tool_calls = none; tools = codes "f" ∷ [] }

abbrev call : Call
call = record {
  request = request;
  response_id = codes "resp_1";
  created_at = 5;
  completed_at = 9;
  prompt_tokens = 3;
  prefix_tool_calls = search_call ∷ [];
  initial_sequence_number = 2;
  emit_prelude = true;
  emit_prefix_tool_call_events = true;
  draw = λ k. k ∷ [];
}

abbrev part : Str → Str → Option SemanticOutputDelta → CompletionDelta
part text reasoning semantic = record {
  index = 0;
  text = text;
  token_ids = 1 ∷ 2 ∷ [];
  finish_reason = none;
  logprobs = none;
  reasoning_text = some reasoning;
  semantic = semantic;
  parsed_tool_calls = none;
}

abbrev tool_part : Option Str → Str → Option SemanticOutputDelta
tool_part name arguments = some (record {
  content_delta = none;
  tool_call_deltas =
      record { index = 0; id = none; type = none; name = name; arguments_delta = some arguments }
      ∷ [];
})

abbrev content_part : Str → Option SemanticOutputDelta
content_part s = some (record { content_delta = some s; tool_call_deltas = [] })

abbrev output : List CompletionDelta → GenerateOutput
output parts = record { outputs = parts; prompt_token_ids = 4 ∷ [] }

-- The model thinks, calls a tool, and answers.
abbrev outputs : List GenerateOutput
outputs =
    output (part [] (codes "hm") none ∷ part [] (codes "hmm") none ∷ [])
    ∷ output (part (codes "[f") (codes "hmm") (tool_part (some (codes "f")) (codes "{")) ∷ [])
    ∷ output (part (codes "[f]") [] (tool_part none (codes "}")) ∷ [])
    ∷ output (part (codes "[f] ok") [] (content_part (codes "ok")) ∷ [])
    ∷ []

generate_response_stream_events-Consecutive_example :
    let sent = (generate_response_stream_events call is_space no_calls outputs exhausted).0 in
    Consecutive 2 sent (2 + length sent)
generate_response_stream_events-Consecutive_example =
    generate_response_stream_events-Consecutive call is_space no_calls outputs exhausted

generate_response_stream_events-Ending_example :
    let (sent, outcome) =
      generate_response_stream_events call is_space no_calls outputs (raised (codes "no")) in
    (before : List Sent) × (ending : List Sent) × (sent ≡ before ++ ending)
    × (are_ongoing before ≡ true)
    × Ending (raised (codes "no")) outcome (map (λ x. x.1) ending)
generate_response_stream_events-Ending_example =
    generate_response_stream_events-Ending call is_space no_calls outputs (raised (codes "no"))

build_function_tool_call_events-arguments_example :
    let events = (build_function_tool_call_events search_call 0 4 1).0 in
    (sent_arguments events ≡ codes "{}") × (are_short 1 events ≡ true)
build_function_tool_call_events-arguments_example =
    build_function_tool_call_events-arguments search_call 0 4 1 (omega arith)

outputs_in_turn :
    is_in_turn is_space false (start call).text_state [] (all_completions outputs) ≡ true
unfolding is_in_turn start new_state update decided looks_like_tool_call_prefix lstrip starts_with
    speaks str_eq
outputs_in_turn = refl

generate_response_stream_events-follows_example :
    (response : ResponseObject) × (follows
        (between [])
        (generate_response_stream_events call is_space no_calls outputs exhausted).0
      ≡ complete_with response.output response)
generate_response_stream_events-follows_example =
    generate_response_stream_events-follows is_space call no_calls outputs outputs_in_turn

-- The parser keeps back the beginning of a tool call, and the generator sends it as text: a second
-- item at the place of the first.
abbrev kept_back : List GenerateOutput
kept_back =
    output (part (codes "ok") [] (content_part (codes "ok")) ∷ [])
    ∷ output (part (codes "ok<") [] none ∷ [])
    ∷ []

abbrev is_unbroken : Client → Bool
is_unbroken broken = false
is_unbroken _ = true

abbrev followed : List GenerateOutput → Bool
followed outputs =
    let sent = (generate_response_stream_events call is_space no_calls outputs exhausted).0 in
    is_unbroken (follows (between []) sent)

kept_back_breaks : followed kept_back ≡ false
unfolding generate_response_stream_events start fresh_item new_state prelude ◌▷◌ tool_call_items
    build_function_tool_call_events build_response_prelude_events numbered argument_chunks
    chunk_starts range_from on_outputs on_completions on_completion on_reasoning on_output
    count_output update decided looks_like_tool_call_prefix lstrip starts_with speaks on_semantic
    close_reasoning on_tool_deltas on_content open_message open_message_item send_content on_text
    open_text conclude stop close_semantic close_message close_message_item complete
    completed_response follows hears opened str_eq
kept_back_breaks = refl

-- The model thinks again after its answer: the reasoning is announced at the place of the first item.
abbrev second_thought : List GenerateOutput
second_thought =
    output (part (codes "ok") [] (content_part (codes "ok")) ∷ [])
    ∷ output (part (codes "ok") (codes "hm") none ∷ [])
    ∷ []

second_thought_breaks : followed second_thought ≡ false
unfolding generate_response_stream_events start fresh_item new_state prelude ◌▷◌ tool_call_items
    build_function_tool_call_events build_response_prelude_events numbered argument_chunks
    chunk_starts range_from on_outputs on_completions on_completion on_reasoning on_output
    count_output update decided looks_like_tool_call_prefix lstrip starts_with speaks on_semantic
    close_reasoning on_tool_deltas on_content open_message open_message_item send_content on_text
    open_reasoning send_reasoning conclude stop close_semantic close_message close_message_item
    complete completed_response follows hears opened str_eq
second_thought_breaks = refl

outputs_follow : followed outputs ≡ true
unfolding generate_response_stream_events start fresh_item new_state prelude ◌▷◌ tool_call_items
    build_function_tool_call_events build_response_prelude_events numbered argument_chunks
    chunk_starts range_from on_outputs on_completions on_completion on_reasoning on_output
    count_output update decided looks_like_tool_call_prefix lstrip starts_with speaks on_semantic
    close_reasoning on_tool_deltas on_tool_delta leave_message leave_other_call open_and_send
    open_tool_call open_tool_call_item send_arguments close_tool_call close_tool_call_item next_item
    on_content open_message open_message_item send_content on_text open_reasoning send_reasoning
    conclude stop close_semantic close_message close_message_item complete completed_response
    follows hears opened str_eq
outputs_follow = refl
