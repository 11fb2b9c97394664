-- ===== src/Streams/Choices.antt =====
-- What adapter/streaming.py keeps for each choice, and the chunks it yields. The dicts by index
-- are one record here, where what is not yet set has the default that the code reads. They are kept in the
-- order of their keys, in which the code looks them through.
pub mod Laws
use vfront.Common.{ℕ, Str, List, [], ◌∷◌, Bool, Option, none, some, ltb, ◌==◌, if◌then◌else◌}
use vfront.Output.{StreamState, new_state}
use vfront.Streams.{SemanticToolCallDelta, ToolCall, LogprobContent, TokenLogprobs, Usage}

-- A chunk: the index of the choice, and its delta.
pub data Chunk : Type 0 where
  role : ℕ → Chunk
  content : ℕ → Str → Option (List LogprobContent) → Chunk
  reasoning : ℕ → Str → Chunk
  tool_delta : ℕ → SemanticToolCallDelta → Chunk
  -- the two chunks of a call that was read from the text, by its place: its id and its name, with empty
  -- arguments and the type `function`, and then its arguments
  call_head : ℕ → ℕ → Str → Str → Chunk
  call_arguments : ℕ → ℕ → Str → Chunk
  finish : ℕ → Option Str → Chunk
  usage : Usage → Chunk
  -- the error event, and the sentinel at the end of a stream
  stream_error done : Chunk

pub record Choice : Type 0 where
  pub state : StreamState
  pub token_count : ℕ
  pub logprob_count : ℕ
  pub reasoning_text : Str
  pub last_logprobs : Option (List TokenLogprobs)
  pub last_reasoning : Option Str
  pub semantic_seen : Bool

unfoldable pub new_choice : Bool → Choice
new_choice has = record {
  state = new_state has;
  token_count = 0;
  logprob_count = 0;
  reasoning_text = [];
  last_logprobs = none;
  last_reasoning = none;
  semantic_seen = Bool.false;
}

abbrev pub Choices : Type 0
Choices = List (ℕ × Choice)

module _ {A : Type 0} where
  -- `table.get(idx, default)`
  unfoldable pub lookup : ℕ → A → List (ℕ × A) → A
  lookup i default [] = default
  lookup i default ((j, c) ∷ l) = let rest = lookup i default l in if i == j then c else rest

  -- `table[idx] = c`
  unfoldable pub store : ℕ → A → List (ℕ × A) → List (ℕ × A)
  store i c [] = (i, c) ∷ []
  store i c ((j, d) ∷ l) =
      let rest = store i c l in
      if i == j then (i, c) ∷ l else if ltb i j then (i, c) ∷ (j, d) ∷ l else (j, d) ∷ rest
