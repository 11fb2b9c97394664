-- ===== src/Streams/Chat.antt =====
-- `stream_chat_completion` of adapter/streaming.py: the chunks it yields for what the engine yields. The
-- JSON text of a chunk, its id, its time and its model are left out.
pub mod Alone
pub mod Ready
pub mod Closing
pub mod Text
pub mod Counts
pub mod Ending
pub mod Bill
use vfront.Common.{
  ℕ, zero, suc, ◌+◌, ◌-◌, Str, List, [], ◌∷◌, ◌++◌, map, Bool, true, false, ◌&&◌, Option, none,
  some, codes, length, drop, if◌then◌else◌,
}
use vfront.Output.{
  StreamState, AssistantOutput, text_output, tool_output, or_else, is_empty, update, finalize,
}
use vfront.Output.Streamed.{or_nothing}
use vfront.Streams.{
  SemanticOutputDelta, SemanticToolCallDelta, CompletionDelta, GenerateOutput, ToolCall,
  LogprobContent, TokenLogprobs, build_logprobs, map_finish_reason, estimate_reasoning_tokens,
}
use vfront.Streams.Choices.{
  Chunk, role, content, reasoning, tool_delta, call_head, call_arguments, finish, usage,
  stream_error, done, Choice, Choices, new_choice, lookup, store,
}

-- The arguments of the function that its chunks depend on.
pub record Request : Type 0 where
  pub n : ℕ
  pub has_tool_definitions : Bool
  pub semantic_tool_parsing : Bool
  pub include_usage : Bool
  pub emit_done : Bool

-- How a generator is left: at its end, by an Exception, or by another BaseException.
pub data Outcome : Type 0 where
  ended failed interrupted : Outcome

unfoldable pub roles : ℕ → ℕ → List Chunk
roles i zero = []
roles i (suc n) = role i ∷ roles (1 + i) n

-- `states = {i: … for i in range(n)}`
unfoldable pub fresh_choices : Bool → ℕ → ℕ → Choices
fresh_choices has i zero = []
fresh_choices has i (suc n) = (i, new_choice has) ∷ fresh_choices has (1 + i) n

-- `completion.semantic and completion.semantic.tool_call_deltas`
abbrev pub tool_deltas : Option SemanticOutputDelta → List SemanticToolCallDelta
tool_deltas none = []
tool_deltas (some s) = s.tool_call_deltas

abbrev pub semantic_content : Option SemanticOutputDelta → Option Str
semantic_content none = none
semantic_content (some s) = s.content_delta

-- A chunk for a text, when there is one that is not empty.
unfoldable pub text_chunk : ℕ → Option Str → Option (List LogprobContent) → List Chunk
text_chunk i none lps = []
text_chunk i (some []) lps = []
text_chunk i (some (c ∷ s)) lps = content i (c ∷ s) lps ∷ []

abbrev pub reasoning_chunk : ℕ → Str → List Chunk
reasoning_chunk i [] = []
reasoning_chunk i (c ∷ s) = reasoning i (c ∷ s) ∷ []

-- `if reasoning_text: last_reasoning_texts[idx] = reasoning_text`
abbrev pub keep_reasoning : Str → Option Str → Option Str
keep_reasoning [] old = old
keep_reasoning (c ∷ s) old = some (c ∷ s)

abbrev pub or_logprobs :
    Option (List TokenLogprobs) → Option (List TokenLogprobs) → Option (List TokenLogprobs)
or_logprobs none old = old
or_logprobs (some lps) old = some lps

-- `_build_streaming_logprobs(logprobs[prev_lp:])`
abbrev pub logprobs_from : ℕ → Option (List TokenLogprobs) → Option (List LogprobContent)
logprobs_from n none = none
logprobs_from n (some lps) = build_logprobs (drop n lps)

-- The completion carries deltas of tool calls: those are passed on, and nothing else is counted.
unfoldable pub pass_semantic :
    ℕ → Choice → CompletionDelta → List SemanticToolCallDelta → Choice × List Chunk
pass_semantic i c m deltas = (
  record c {
    semantic_seen = true;
    last_logprobs = or_logprobs m.logprobs c.last_logprobs;
    last_reasoning = or_else m.reasoning_text c.last_reasoning;
  },
  text_chunk i (semantic_content m.semantic) none ++ map (tool_delta i) deltas,
)

-- `prev_logprob_counts[idx] = cur_lp`, which is done with a chunk only
abbrev pub count_logprobs : Option Str → Option (List TokenLogprobs) → ℕ → ℕ
count_logprobs (some (c ∷ s)) (some lps) old = length lps
count_logprobs _ _ old = old

unfoldable pub pass_text : ℕ → Choice → CompletionDelta → Option Str → Choice × List Chunk
pass_text i c m delta_text =
    let reasoning_text = or_nothing m.reasoning_text in
    (
      record c {
        reasoning_text = reasoning_text;
        last_reasoning = keep_reasoning reasoning_text c.last_reasoning;
        token_count = length m.token_ids;
        logprob_count = count_logprobs delta_text m.logprobs c.logprob_count;
        last_logprobs = or_logprobs m.logprobs c.last_logprobs;
      },
      reasoning_chunk i (drop (length c.reasoning_text) reasoning_text)
          ++ text_chunk i delta_text (logprobs_from c.logprob_count m.logprobs),
    )

-- What `total_completion_tokens` grows by.
unfoldable pub new_tokens : Choice → CompletionDelta → ℕ
new_tokens c m = elim (tool_deltas m.semantic) [
  | [] ↦ length m.token_ids - c.token_count
  | _ ∷ _ ↦ 0
]

pub record Run : Type 0 where
  pub choices : Choices
  pub prompt_tokens : ℕ
  pub completion_tokens : ℕ

unfoldable pub start : Bool → ℕ → Run
start has n = record { choices = fresh_choices has 0 n; prompt_tokens = 0; completion_tokens = 0 }

-- `sum(estimate_reasoning_tokens(text) for text in last_reasoning_texts.values())`
unfoldable pub reasoning_tokens : Choices → ℕ
reasoning_tokens [] = 0
reasoning_tokens ((i, c) ∷ l) = estimate_reasoning_tokens c.last_reasoning + reasoning_tokens l

unfoldable pub usage_of : Run → Chunk
usage_of r = usage (record {
  prompt_tokens = r.prompt_tokens;
  completion_tokens = r.completion_tokens;
  total_tokens = r.prompt_tokens + r.completion_tokens;
  reasoning_tokens = reasoning_tokens r.choices;
})

-- `_build_tool_call_chunks`
unfoldable pub tool_call_chunks : ℕ → ℕ → List ToolCall → List Chunk
tool_call_chunks i k [] = []
tool_call_chunks i k (call ∷ calls) =
    call_head i k call.id call.name
    ∷ call_arguments i k call.arguments
    ∷ tool_call_chunks i (1 + k) calls

module _ (is_space : ℕ → Bool) where
  -- One completion of the choice that it names.
  unfoldable pub on_choice : ℕ → Choice → CompletionDelta → Choice × List Chunk
  on_choice i c m =
      let (state, delta_text) = update is_space c.state m.text m.finish_reason in
      elim (tool_deltas m.semantic) [
        | [] ↦ pass_text i (record c { state = state }) m delta_text
        | d ∷ deltas ↦ pass_semantic i (record c { state = state }) m (d ∷ deltas)
      ]

  unfoldable pub on_completion : Bool → Run → CompletionDelta → Run × List Chunk
  on_completion has r m =
      let c = lookup m.index (new_choice has) r.choices in
      let (c', chunks) = on_choice m.index c m in
      (
        record r {
          choices = store m.index c' r.choices;
          completion_tokens = r.completion_tokens + new_tokens c m;
        },
        chunks,
      )

  unfoldable pub on_completions : Bool → Run → List CompletionDelta → Run × List Chunk
  on_completions has r [] = (r, [])
  on_completions has r (m ∷ ms) =
      let (r1, chunks) = on_completion has r m in
      let (r2, more) = on_completions has r1 ms in (r2, chunks ++ more)

  unfoldable pub on_outputs : Bool → Run → List GenerateOutput → Run × List Chunk
  on_outputs has r [] = (r, [])
  on_outputs has r (output ∷ outputs) =
      let counted = record r { prompt_tokens = length output.prompt_token_ids } in
      let (r1, chunks) = on_completions has counted output.outputs in
      let (r2, more) = on_outputs has r1 outputs in (r2, chunks ++ more)

  module _ (build_tool_calls_from_text : Str → Option (List ToolCall)) where
    -- What ends a choice when nothing raises: what was held back, and the reason of the finish chunk.
    unfoldable pub close_text :
        ℕ → Choice → AssistantOutput ToolCall → Option Str → List Chunk × Option Str
    close_text i c (tool_output calls) held =
        (tool_call_chunks i 0 calls, some (codes "tool_calls"))
    close_text i c (text_output s) held = (
      text_chunk i held (logprobs_from c.logprob_count c.last_logprobs),
      map_finish_reason c.state.finish_reason,
    )

    abbrev pub is_tool_output : AssistantOutput ToolCall → Bool
    is_tool_output (tool_output calls) = true
    is_tool_output (text_output s) = false

    abbrev pub with_finish : ℕ → List Chunk × Option Str → List Chunk
    with_finish i (chunks, reason) = chunks ++ finish i reason ∷ []

    -- One round of the loop after the stream. With `none` it raises a RuntimeError.
    unfoldable pub close_choice : Bool → ℕ → Choice → Option (List Chunk)
    close_choice semantic_tool_parsing i c =
        let (normalized, held) = finalize is_space build_tool_calls_from_text c.state in
        if c.semantic_seen
        then some (with_finish i ([], some (codes "tool_calls")))
        else if semantic_tool_parsing && is_tool_output normalized
        then none
        else some (with_finish i (close_text i c normalized held))

    -- The chunks, and whether the loop was left by an exception.
    unfoldable pub close_all : Bool → Choices → List Chunk × Outcome
    close_all semantic [] = ([], ended)
    close_all semantic ((i, c) ∷ l) =
        let (more, outcome) = close_all semantic l in
        elim (close_choice semantic i c) [
          | none ↦ ([], failed)
          | some chunks ↦ (chunks ++ more, outcome)
        ]

    -- What is yielded after the chunks of the engine, when the engine has ended or raised.
    unfoldable pub conclude : Request → Run → Outcome → List Chunk × Outcome
    conclude req r ended = close_all req.semantic_tool_parsing r.choices
    conclude req r outcome = ([], outcome)

    -- The usage chunk, the error event, and the sentinel.
    unfoldable pub sign_off : Request → Run → Outcome → List Chunk
    sign_off req r ended =
        (if req.include_usage then usage_of r ∷ [] else [])
        ++ (if req.emit_done then done ∷ [] else [])
    sign_off req r failed = stream_error ∷ []
    sign_off req r interrupted = []

    -- The engine yields the outputs and then ends or raises. All chunks, and how the generator is left.
    unfoldable pub stream_chat_completion :
        Request → List GenerateOutput → Outcome → List Chunk × Outcome
    stream_chat_completion req outputs engine =
        let has = req.has_tool_definitions in
        let (r, chunks) = on_outputs has (start has req.n) outputs in
        let (closing, outcome) = conclude req r engine in
        (roles 0 req.n ++ chunks ++ closing ++ sign_off req r outcome, outcome)
