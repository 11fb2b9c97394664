-- ===== src/Streams/Collect.antt =====
-- `stream_and_collect` of adapter/streaming.py: one round of an answer with tools. It streams as
-- `stream_chat_completion` does, without roles, usage and the sentinel, and leaves the text and the calls of
-- choice 0 to its caller.
pub mod Left
use vfront.Common.{
  ℕ, Str, List, [], ◌∷◌, ◌++◌, map, Bool, true, false, ◌||◌, ◌==◌, Option, none, some, codes,
  length, drop, if◌then◌else◌,
}
use vfront.Output.{
  StreamState, AssistantOutput, text_output, tool_output, new_state, update, finalize,
}
use vfront.Output.Streamed.{or_nothing}
use vfront.Streams.{
  CompletionDelta, GenerateOutput, ParsedToolCall, SemanticToolCallDelta, ToolCall,
  build_tool_calls_from_parsed, map_finish_reason,
}
use vfront.Streams.Choices.{Chunk, tool_delta, finish, lookup, store}
use vfront.Streams.Chat.{
  Outcome, ended, failed, interrupted, tool_deltas, semantic_content, text_chunk, reasoning_chunk,
  tool_call_chunks,
}

-- What is kept for a choice: its dicts, by index.
pub record Round : Type 0 where
  pub state : StreamState
  pub reasoning_text : Str
  pub semantic_seen : Bool
  pub parsed : List ToolCall

unfoldable pub new_round : Bool → Round
new_round has = record {
  state = new_state has;
  reasoning_text = [];
  semantic_seen = false;
  parsed = [];
}

abbrev pub Rounds : Type 0
Rounds = List (ℕ × Round)

-- `states.get(i)`
unfoldable pub find : ℕ → Rounds → Option Round
find i [] = none
find i ((j, c) ∷ l) = let rest = find i l in if i == j then some c else rest

abbrev pub or_old : Option (List ToolCall) → List ToolCall → List ToolCall
or_old none old = old
or_old (some calls) old = calls

abbrev pub some_calls : List ToolCall → Bool
some_calls [] = false
some_calls (c ∷ calls) = true

-- The ids that are drawn for the calls of a completion are `fresh`.
module _ (fresh : CompletionDelta → ℕ → Str) where
  -- `if parsed: last_parsed_tool_calls[idx] = parsed`
  unfoldable pub keep_parsed :
      CompletionDelta → Option (List ParsedToolCall) → List ToolCall → List ToolCall
  keep_parsed m none old = old
  keep_parsed m (some items) old = or_old (build_tool_calls_from_parsed (fresh m) items) old

  module _ (is_space : ℕ → Bool) where
    unfoldable pub round_text : ℕ → Round → CompletionDelta → Option Str → Round × List Chunk
    round_text i c m delta_text =
        let reasoning_text = or_nothing m.reasoning_text in
        (
          record c { reasoning_text = reasoning_text },
          reasoning_chunk i (drop (length c.reasoning_text) reasoning_text)
              ++ text_chunk i delta_text none,
        )

    unfoldable pub round_choice : ℕ → Round → CompletionDelta → Round × List Chunk
    round_choice i c m =
        let (state, delta_text) = update is_space c.state m.text m.finish_reason in
        let next = record c {
          state = state;
          parsed = keep_parsed m m.parsed_tool_calls c.parsed;
        } in
        elim (tool_deltas m.semantic) [
          | [] ↦ round_text i next m delta_text
          | d ∷ deltas ↦ (
            record next { semantic_seen = true },
            text_chunk i (semantic_content m.semantic) none ++ map (tool_delta i) (d ∷ deltas),
          )
        ]

    unfoldable pub round_completions : Bool → Rounds → List CompletionDelta → Rounds × List Chunk
    round_completions has l [] = (l, [])
    round_completions has l (m ∷ ms) =
        let (c, chunks) = round_choice m.index (lookup m.index (new_round has) l) m in
        let (l2, more) = round_completions has (store m.index c l) ms in (l2, chunks ++ more)

    unfoldable pub round_outputs : Bool → Rounds → List GenerateOutput → Rounds × List Chunk
    round_outputs has l [] = (l, [])
    round_outputs has l (output ∷ outputs) =
        let (l1, chunks) = round_completions has l output.outputs in
        let (l2, more) = round_outputs has l1 outputs in (l2, chunks ++ more)

    module _ (parse : Str → Option (List ToolCall)) where
      abbrev pub finish_round : ℕ → Round → AssistantOutput ToolCall → Option Str → List Chunk
      finish_round i c (tool_output calls) held =
          tool_call_chunks i 0 calls ++ finish i (some (codes "tool_calls")) ∷ []
      finish_round i c (text_output s) held =
          text_chunk i held none ++ finish i (map_finish_reason c.state.finish_reason) ∷ []

      unfoldable pub close_round : ℕ → Round → List Chunk
      close_round i c =
          let (normalized, held) = finalize is_space parse c.state in
          if some_calls c.parsed || c.semantic_seen
          then finish i (some (codes "tool_calls")) ∷ []
          else finish_round i c normalized held

      unfoldable pub close_rounds : Rounds → List Chunk
      close_rounds [] = []
      close_rounds ((i, c) ∷ l) = close_round i c ++ close_rounds l

      abbrev pub calls_in : AssistantOutput ToolCall → List ToolCall
      calls_in (text_output s) = []
      calls_in (tool_output calls) = calls

      -- What the caller finds in `accumulated` and `collected_tool_calls`.
      abbrev pub left_of : Option Round → Str × List ToolCall
      left_of none = ([], [])
      left_of (some c) = (
        c.state.text,
        if some_calls c.parsed then c.parsed else calls_in (finalize is_space parse c.state).0,
      )

      -- The chunks, and what is left to the caller; a generator that is left by an exception leaves nothing.
      unfoldable pub stream_and_collect :
          Bool → List GenerateOutput → Outcome → List Chunk × Option (Str × List ToolCall)
      stream_and_collect has outputs ended =
          let (l, chunks) = round_outputs has [] outputs in
          (chunks ++ close_rounds l, some (left_of (find 0 l)))
      stream_and_collect has outputs failed = ((round_outputs has [] outputs).1, none)
      stream_and_collect has outputs interrupted = ((round_outputs has [] outputs).1, none)
