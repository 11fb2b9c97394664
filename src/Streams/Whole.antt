-- ===== src/Streams/Whole.antt =====
-- The responses that are not streamed: adapter/output.py. The id, time, model and fingerprint of a
-- response are left out.
pub mod Reading
pub mod Agreement
use vfront.Common.{
  ℕ, zero, ◌+◌, Str, List, [], ◌∷◌, ◌++◌, Bool, true, false, Option, none, some, codes, length,
  if◌then◌else◌,
}
use vfront.Output.{AssistantOutput, text_output, tool_output, normalize_assistant_output}
use vfront.Output.Streamed.{or_nothing}
use vfront.Streams.{
  CompletionDelta, GenerateOutput, SemanticOutputDelta, ParsedToolCall, ToolCall, TokenLogprobs,
  LogprobContent, Usage, build_logprobs, build_tool_calls_from_parsed, estimate_reasoning_tokens,
  map_finish_reason,
}
use vfront.Streams.Chat.{semantic_content}

-- ChatCompletionChoice with its ChatMessage
pub record ChatChoice : Type 0 where
  pub index : ℕ
  pub content : Option Str
  pub reasoning : Option Str
  pub tool_calls : Option (List ToolCall)
  pub finish_reason : Option Str
  pub logprobs : Option (List LogprobContent)

pub record ChatResponse : Type 0 where
  pub choices : List ChatChoice
  pub usage : Usage

-- `_convert_logprobs`
unfoldable pub convert_logprobs : Option (List TokenLogprobs) → Option (List LogprobContent)
convert_logprobs none = none
convert_logprobs (some lps) = build_logprobs lps

-- `delta or text`
abbrev pub or_text : Option Str → Str → Str
or_text none text = text
or_text (some []) text = text
or_text (some (c ∷ s)) text = c ∷ s

-- `CompletionLogprobs`: a token, its value and all of its rivals, and where it starts in the text
pub record TokenEntry : Type 0 where
  pub token : Str
  pub logprob : ℕ
  pub top_logprobs : TokenLogprobs
  pub text_offset : ℕ

-- `_convert_completion_logprobs`, from the offset on
unfoldable pub token_entries : ℕ → List TokenLogprobs → List TokenEntry
token_entries offset [] = []
token_entries offset ([] ∷ l) = token_entries offset l
token_entries offset (((token, value) ∷ lps) ∷ l) =
    record {
      token = token;
      logprob = value;
      top_logprobs = (token, value) ∷ lps;
      text_offset = offset;
    }
    ∷ token_entries (offset + length token) l

unfoldable pub convert_completion_logprobs : Option (List TokenLogprobs) → Option (List TokenEntry)
convert_completion_logprobs none = none
convert_completion_logprobs (some lps) = some (token_entries 0 lps)

-- CompletionChoice
pub record TextChoice : Type 0 where
  pub index : ℕ
  pub text : Str
  pub finish_reason : Option Str
  pub logprobs : Option (List TokenEntry)

pub record TextResponse : Type 0 where
  pub choices : List TextChoice
  pub usage : Usage

abbrev pub count_tokens : List CompletionDelta → ℕ
count_tokens [] = 0
count_tokens (m ∷ ms) = length m.token_ids + count_tokens ms

abbrev pub count_reasoning : List CompletionDelta → ℕ
count_reasoning [] = 0
count_reasoning (m ∷ ms) = estimate_reasoning_tokens m.reasoning_text + count_reasoning ms

-- `completion_tokens_override or total_completion_tokens`
abbrev pub or_total : Option ℕ → ℕ → ℕ
or_total none total = total
or_total (some zero) total = total
or_total (some n) total = n

abbrev pub total_of : ℕ → ℕ → ℕ → Usage
total_of prompt completion reasoning = record {
  prompt_tokens = prompt;
  completion_tokens = completion;
  total_tokens = prompt + completion;
  reasoning_tokens = reasoning;
}

unfoldable pub text_choice : Bool → Str → CompletionDelta → TextChoice
text_choice echo prompt_text m = record {
  index = m.index;
  text = if echo then prompt_text ++ m.text else m.text;
  finish_reason = map_finish_reason m.finish_reason;
  logprobs = convert_completion_logprobs m.logprobs;
}

abbrev pub text_choices : Bool → Str → List CompletionDelta → List TextChoice
text_choices echo prompt_text [] = []
text_choices echo prompt_text (m ∷ ms) =
    text_choice echo prompt_text m ∷ text_choices echo prompt_text ms

unfoldable pub request_output_to_completion_response :
    GenerateOutput → Bool → Str → Option ℕ → TextResponse
request_output_to_completion_response output echo prompt_text override =
    let completion = or_total override (count_tokens output.outputs) in
    record {
      choices = text_choices echo prompt_text output.outputs;
      usage = total_of (length output.prompt_token_ids) completion 0;
    }

module _ (is_space : ℕ → Bool) (parse : Str → Option (List ToolCall)) (fresh : ℕ → Str) where
  abbrev pub choice_of :
      CompletionDelta → Option Str → Option (List ToolCall) → Option Str → ChatChoice
  choice_of m content calls reason = record {
    index = m.index;
    content = content;
    reasoning = m.reasoning_text;
    tool_calls = calls;
    finish_reason = reason;
    logprobs = convert_logprobs m.logprobs;
  }

  -- The two ways without calls from the engine. The semantic one raises a RuntimeError, `none` here, when the
  -- text holds calls.
  unfoldable pub from_text : Bool → CompletionDelta → AssistantOutput ToolCall → Option ChatChoice
  from_text true m (tool_output calls) = none
  from_text false m (tool_output calls) =
      some (choice_of m none (some calls) (some (codes "tool_calls")))
  from_text semantic m (text_output s) =
      some (choice_of m (some s) none (map_finish_reason m.finish_reason))

  unfoldable pub chat_choice : Bool → Bool → CompletionDelta → Option ChatChoice
  chat_choice has semantic m = elim m.parsed_tool_calls [
    | some items ↦ some (
        choice_of m (some (or_text (semantic_content m.semantic) m.text))
          (build_tool_calls_from_parsed fresh items) (some (codes "tool_calls")))
    | none ↦ from_text semantic m (normalize_assistant_output is_space parse m.text has)
  ]

  abbrev pub cons_choice : Option ChatChoice → Option (List ChatChoice) → Option (List ChatChoice)
  cons_choice (some c) (some cs) = some (c ∷ cs)
  cons_choice _ _ = none

  unfoldable pub chat_choices : Bool → Bool → List CompletionDelta → Option (List ChatChoice)
  chat_choices has semantic [] = some []
  chat_choices has semantic (m ∷ ms) =
      cons_choice (chat_choice has semantic m) (chat_choices has semantic ms)

  unfoldable pub request_output_to_chat_response :
      GenerateOutput → Bool → Bool → Option ChatResponse
  request_output_to_chat_response output has semantic =
      elim (chat_choices has semantic output.outputs) [
        | none ↦ none
        | some choices ↦ some (record {
          choices = choices;
          usage =
              total_of (length output.prompt_token_ids) (count_tokens output.outputs)
                (count_reasoning output.outputs);
        })
      ]
