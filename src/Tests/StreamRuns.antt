-- ===== src/Tests/StreamRuns.antt =====
-- The theorems on the streams, at two choices whose completions come in turn.
use vfront.Common.{
  ℕ, ◌+◌, ◌≢◌, Str, List, [], ◌∷◌, ◌++◌, true, false, Option, none, some, ◌≡◌, refl, codes, keep,
  starts_with, arith,
}
use vfront.Output.{
  new_state, is_blank, lstrip, looks_like_tool_call_prefix, decided, update, text_output,
  parse_tool_calls_if_present, normalize_assistant_output, finalize, deferred,
}
use vfront.Streams.{CompletionDelta, GenerateOutput, ToolCall, Usage}
use vfront.Streams.Choices.{
  Chunk, role, finish, usage, stream_error, done, new_choice, lookup, store,
}
use vfront.Streams.Chat.{
  Request, Outcome, ended, failed, interrupted, start, fresh_choices, text_chunk, pass_text,
  on_choice, on_completion, on_completions, on_outputs, close_text, close_choice, close_all,
  conclude, stream_chat_completion,
}
use vfront.Streams.Chat.Alone.{for_choice, all_completions, completions_of, alone}
use vfront.Streams.Chat.Closing.{stream_alone}
use vfront.Streams.Chat.Text.{contents, begun, grown, stream_text}
use vfront.Streams.Chat.Counts.{counts, is_rising, last_count}
use vfront.Streams.Chat.Ending.{is_control, is_end, stream_cut_off}
use vfront.Streams.Chat.Bill.{range, sum_over, stream_usage}
use vfront.Streams.Legacy.{stream_completion}
use vfront.Streams.Legacy.Text.{text_of, extends, stream_completion-text}
use vfront.Streams.Whole.{ChatChoice, chat_choice}
use vfront.Streams.Whole.Reading.{told, told_calls}
use vfront.Streams.Whole.Agreement.{stream_agrees}
use vfront.Streams.Collect.{stream_and_collect}
use vfront.Streams.Collect.Left.{stream_and_collect-left}
use vfront.Tests.OutputRuns.{is_space}

abbrev no_calls : Str → Option (List ToolCall)
no_calls s = none

abbrev part : ℕ → Str → List ℕ → Option Str → CompletionDelta
part i text tokens reason = record {
  index = i;
  text = text;
  token_ids = tokens;
  finish_reason = reason;
  logprobs = none;
  reasoning_text = none;
  semantic = none;
  parsed_tool_calls = none;
}

abbrev last_part : CompletionDelta
last_part = part 0 (codes " hi you") (1 ∷ 2 ∷ []) (some (codes "stop"))

abbrev outputs : List GenerateOutput
outputs =
    record {
      outputs = part 0 (codes " hi") (1 ∷ []) none ∷ part 1 (codes "a") (7 ∷ []) none ∷ [];
      prompt_token_ids = 4 ∷ 5 ∷ 6 ∷ [];
    }
    ∷ record {
      outputs = last_part ∷ part 1 (codes "ab") (7 ∷ 8 ∷ 9 ∷ []) (some (codes "length")) ∷ [];
      prompt_token_ids = 4 ∷ 5 ∷ 6 ∷ [];
    }
    ∷ []

abbrev req : Request
req = record {
  n = 2;
  has_tool_definitions = true;
  semantic_tool_parsing = false;
  include_usage = true;
  emit_done = true;
}

abbrev streamed : List Chunk × Outcome
streamed = stream_chat_completion is_space no_calls req outputs ended

ends_well : streamed.1 ≡ ended
unfolding stream_chat_completion conclude start fresh_choices new_choice new_state on_outputs
    on_completions on_completion on_choice pass_text text_chunk update decided
    looks_like_tool_call_prefix lstrip starts_with lookup store close_all close_choice finalize
    normalize_assistant_output parse_tool_calls_if_present deferred close_text
ends_well = refl

stream_alone_example :
    (own : List Chunk) × (close_choice is_space no_calls false 0
        (alone is_space 0 (new_choice true) (completions_of 0 (all_completions outputs))).0
      ≡ some own)
    × (for_choice 0 streamed.0
        ≡ role 0
          ∷ ((alone is_space 0 (new_choice true) (completions_of 0 (all_completions outputs))).1
              ++ own))
stream_alone_example = stream_alone is_space no_calls req outputs 0 (omega arith) ends_well

is_plain_text :
    normalize_assistant_output is_space no_calls (codes " hi you") true
    ≡ text_output (codes " hi you")
unfolding normalize_assistant_output parse_tool_calls_if_present looks_like_tool_call_prefix lstrip
    starts_with
is_plain_text = refl

stream_text_example :
    (skipped : Str) × (is_blank is_space skipped ≡ true)
    × (codes " hi you" ≡ skipped ++ contents (for_choice 0 streamed.0))
stream_text_example =
    stream_text is_space no_calls req outputs 0 (codes " hi" ∷ codes " you" ∷ []) (omega arith)
      ends_well (grown refl refl (grown refl refl begun)) is_plain_text

failed_not_ended : failed ≢ ended
failed_not_ended = λ h. cc h

stream_cut_off_example :
    (body : List Chunk) × (keep is_end body ≡ [])
    × ((stream_chat_completion is_space no_calls req outputs failed).0 ≡ body ++ stream_error ∷ [])
    × ((stream_chat_completion is_space no_calls req outputs failed).1 ≡ failed)
stream_cut_off_example = stream_cut_off is_space no_calls req outputs failed failed_not_ended

never_falls : (i : ℕ) → is_rising 0 (counts i (all_completions outputs)) ≡ true
unfolding is_rising counts
never_falls i = ground arith

stream_usage_example :
    (u : Usage) × (keep is_control streamed.0 ≡ usage u ∷ done ∷ [])
    × (u.prompt_tokens ≡ 3)
    × (u.completion_tokens
        ≡ sum_over (λ i. last_count 0 (counts i (all_completions outputs))) (range 0 2))
    × (u.total_tokens ≡ u.prompt_tokens + u.completion_tokens)
stream_usage_example = stream_usage is_space no_calls req outputs refl ends_well refl never_falls

-- Each reading of a text finds one call, under an id of its own.
abbrev call_under : Str → Str → Option (List ToolCall)
call_under id s =
    some
      (record { id = id; type = codes "function"; name = codes "go"; arguments = codes "{}" } ∷ [])

abbrev calling : CompletionDelta
calling = part 0 (codes "[go") (1 ∷ 2 ∷ []) (some (codes "stop"))

abbrev call_outputs : List GenerateOutput
call_outputs = record { outputs = calling ∷ []; prompt_token_ids = 4 ∷ [] } ∷ []

abbrev call_stream : List Chunk × Outcome
call_stream =
    stream_chat_completion is_space (call_under (codes "a")) (record req { n = 1 }) call_outputs
      ended

call_ends : call_stream.1 ≡ ended
unfolding stream_chat_completion conclude start fresh_choices new_choice new_state on_outputs
    on_completions on_completion on_choice pass_text text_chunk update decided
    looks_like_tool_call_prefix lstrip starts_with lookup store close_all close_choice finalize
    normalize_assistant_output parse_tool_calls_if_present deferred close_text
call_ends = refl

stream_agrees_example :
    (w : ChatChoice) × (chat_choice is_space (call_under (codes "b")) (λ i. []) true false calling
      ≡ some w)
    × (told (for_choice 0 call_stream.0)
        ≡ told_calls 0 w.tool_calls ++ finish 0 w.finish_reason ∷ [])
stream_agrees_example =
    stream_agrees is_space (call_under (codes "a")) (call_under (codes "b")) (λ i. [])
      (record req { n = 1 }) call_outputs 0 [] calling (codes "stop") (omega arith) call_ends refl
      refl refl refl refl refl

texts_extend : extends [] (completions_of 1 (all_completions outputs)) ≡ true
unfolding extends starts_with
texts_extend = refl

stream_completion-text_example : text_of 1 (stream_completion true outputs interrupted) ≡ codes "ab"
stream_completion-text_example = stream_completion-text 1 true outputs interrupted texts_extend

stream_and_collect-left_example :
    (stream_and_collect (λ m i. []) is_space no_calls true outputs ended).1
    ≡ some (codes " hi you", [])
unfolding normalize_assistant_output parse_tool_calls_if_present looks_like_tool_call_prefix lstrip
    starts_with
stream_and_collect-left_example =
    stream_and_collect-left (λ m i. []) is_space true no_calls outputs refl
