-- ===== src/Streams/Legacy.antt =====
-- `stream_completion` of adapter/streaming.py: the chunks of the older completions. Its dicts are one
-- table here, whose entries start as the code's defaults; its usage has no part for reasoning.
pub mod Text
use vfront.Common.{
  ℕ, ◌+◌, ◌-◌, Str, List, [], ◌∷◌, ◌++◌, Bool, Option, none, some, length, drop, if◌then◌else◌,
}
use vfront.Streams.{CompletionDelta, GenerateOutput, map_finish_reason}
use vfront.Streams.Choices.{Chunk, content, finish, usage, stream_error, done, lookup, store}
use vfront.Streams.Chat.{Outcome, ended, failed, interrupted}

-- `prev_texts` and `prev_token_counts`
pub record Seen : Type 0 where
  pub text : Str
  pub token_count : ℕ

abbrev pub nothing_seen : Seen
nothing_seen = record { text = []; token_count = 0 }

pub record Progress : Type 0 where
  pub seen : List (ℕ × Seen)
  pub prompt_tokens : ℕ
  pub completion_tokens : ℕ

abbrev pub delta_chunk : ℕ → Str → List Chunk
delta_chunk i [] = []
delta_chunk i (c ∷ s) = content i (c ∷ s) none ∷ []

abbrev pub finish_chunk : ℕ → Option Str → List Chunk
finish_chunk i none = []
finish_chunk i (some reason) = finish i (map_finish_reason (some reason)) ∷ []

unfoldable pub take_completion : Progress → CompletionDelta → Progress × List Chunk
take_completion p m =
    let before = lookup m.index nothing_seen p.seen in
    (
      record p {
        seen = store m.index (record { text = m.text; token_count = length m.token_ids }) p.seen;
        completion_tokens = p.completion_tokens + (length m.token_ids - before.token_count);
      },
      delta_chunk m.index (drop (length before.text) m.text)
          ++ finish_chunk m.index m.finish_reason,
    )

unfoldable pub take_completions : Progress → List CompletionDelta → Progress × List Chunk
take_completions p [] = (p, [])
take_completions p (m ∷ ms) =
    let (p1, chunks) = take_completion p m in
    let (p2, more) = take_completions p1 ms in (p2, chunks ++ more)

unfoldable pub take_outputs : Progress → List GenerateOutput → Progress × List Chunk
take_outputs p [] = (p, [])
take_outputs p (output ∷ outputs) =
    let counted = record p { prompt_tokens = length output.prompt_token_ids } in
    let (p1, chunks) = take_completions counted output.outputs in
    let (p2, more) = take_outputs p1 outputs in (p2, chunks ++ more)

unfoldable pub completion_usage : Progress → Chunk
completion_usage p = usage (record {
  prompt_tokens = p.prompt_tokens;
  completion_tokens = p.completion_tokens;
  total_tokens = p.prompt_tokens + p.completion_tokens;
  reasoning_tokens = 0;
})

abbrev pub completion_end : Bool → Progress → Outcome → List Chunk
completion_end include_usage p ended =
    (if include_usage then completion_usage p ∷ [] else []) ++ done ∷ []
completion_end include_usage p failed = stream_error ∷ []
completion_end include_usage p interrupted = []

abbrev pub at_start : Progress
at_start = record { seen = []; prompt_tokens = 0; completion_tokens = 0 }

unfoldable pub stream_completion : Bool → List GenerateOutput → Outcome → List Chunk
stream_completion include_usage outputs engine =
    let (p, chunks) = take_outputs at_start outputs in
    chunks ++ completion_end include_usage p engine
