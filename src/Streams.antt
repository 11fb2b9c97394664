-- ===== src/Streams.antt =====
-- What the engine yields while it generates, and what the adapters make of it for a client
-- (shared/engine/types.py, adapter/streaming.py, adapter/output.py). A text is its code points
-- here, and a float the 64 bits of it: the code passes it on as it is.
pub mod Choices
pub mod Chat
pub mod Legacy
pub mod Whole
pub mod Collect
use vfront.Common.{
  ℕ, ◌+◌, ◌*◌, ◌/◌, ◌%◌, max, Str, List, [], ◌∷◌, ◌++◌, map, Bool, true, false, Option, none, some,
  codes, length, ltb, str_eq, if◌then◌else◌,
}

-- The log probabilities of one token and its rivals, in the order of the dict.
abbrev pub TokenLogprobs : Type 0
TokenLogprobs = List (Str × ℕ)

pub record ParsedToolCall : Type 0 where
  pub id : Option Str
  pub type : Str
  pub name : Str
  pub arguments : Str

pub record SemanticToolCallDelta : Type 0 where
  pub index : ℕ
  pub id : Option Str
  pub type : Option Str
  pub name : Option Str
  pub arguments_delta : Option Str

pub record SemanticOutputDelta : Type 0 where
  pub content_delta : Option Str
  pub tool_call_deltas : List SemanticToolCallDelta

-- CompletionDelta, less `cumulative_logprob`, which nothing here reads
pub record CompletionDelta : Type 0 where
  pub index : ℕ
  pub text : Str
  pub token_ids : List ℕ
  pub finish_reason : Option Str
  pub logprobs : Option (List TokenLogprobs)
  pub reasoning_text : Option Str
  pub semantic : Option SemanticOutputDelta
  pub parsed_tool_calls : Option (List ParsedToolCall)

pub record GenerateOutput : Type 0 where
  pub outputs : List CompletionDelta
  pub prompt_token_ids : List ℕ

-- ToolCall with its FunctionCall
pub record ToolCall : Type 0 where
  pub id : Str
  pub type : Str
  pub name : Str
  pub arguments : Str

pub record TopLogprob : Type 0 where
  pub token : Str
  pub logprob : ℕ
  pub bytes : List ℕ

pub record LogprobContent : Type 0 where
  pub token : Str
  pub logprob : ℕ
  pub bytes : List ℕ
  pub top_logprobs : List TopLogprob

-- `chr(c).encode("utf-8")`
unfoldable pub encode_char : ℕ → List ℕ
encode_char c =
    if ltb c 128
    then c ∷ []
    else if ltb c 2048
    then (192 + c / 64) ∷ (128 + c % 64) ∷ []
    else if ltb c 65536
    then (224 + c / 4096) ∷ (128 + c / 64 % 64) ∷ (128 + c % 64) ∷ []
    else (240 + c / 262144) ∷ (128 + c / 4096 % 64) ∷ (128 + c / 64 % 64) ∷ (128 + c % 64) ∷ []

unfoldable pub encode : Str → List ℕ
encode [] = []
encode (c ∷ s) = encode_char c ++ encode s

unfoldable pub top_logprob : Str × ℕ → TopLogprob
top_logprob (token, value) = record { token = token; logprob = value; bytes = encode token }

-- A token without log probabilities is passed over.
unfoldable pub logprob_contents : List TokenLogprobs → List LogprobContent
logprob_contents [] = []
logprob_contents ([] ∷ l) = logprob_contents l
logprob_contents ((lp ∷ lps) ∷ l) =
    let top = top_logprob lp in
    record {
      token = top.token;
      logprob = top.logprob;
      bytes = top.bytes;
      top_logprobs = top ∷ map top_logprob lps;
    }
    ∷ logprob_contents l

abbrev pub if_any : {A : Type 0} → List A → Option (List A)
if_any [] = none
if_any (x ∷ l) = some (x ∷ l)

-- `_build_streaming_logprobs`
unfoldable pub build_logprobs : List TokenLogprobs → Option (List LogprobContent)
build_logprobs l = if_any (logprob_contents l)

-- `_map_finish_reason`
unfoldable pub map_finish_reason : Option Str → Option Str
map_finish_reason none = none
map_finish_reason (some reason) =
    if str_eq reason (codes "abort") then some (codes "content_filter") else some reason

unfoldable pub estimate_reasoning_tokens : Option Str → ℕ
estimate_reasoning_tokens none = 0
estimate_reasoning_tokens (some []) = 0
estimate_reasoning_tokens (some (c ∷ s)) = max 1 (length (c ∷ s) / 4)

-- `item.id or generate_tool_call_id()`
unfoldable pub call_id : Option Str → Str → Str
call_id none fresh = fresh
call_id (some []) fresh = fresh
call_id (some (c ∷ s)) fresh = c ∷ s

-- The ids that `generate_tool_call_id` draws are `fresh`, by the place of the call.
unfoldable pub from_parsed : (ℕ → Str) → ℕ → List ParsedToolCall → List ToolCall
from_parsed fresh i [] = []
from_parsed fresh i (item ∷ items) =
    record {
      id = call_id item.id (fresh i);
      type = item.type;
      name = item.name;
      arguments = item.arguments;
    }
    ∷ from_parsed fresh (1 + i) items

unfoldable pub build_tool_calls_from_parsed :
    (ℕ → Str) → List ParsedToolCall → Option (List ToolCall)
build_tool_calls_from_parsed fresh items = if_any (from_parsed fresh 0 items)

-- The tokens that a request has cost.
pub record Usage : Type 0 where
  pub prompt_tokens : ℕ
  pub completion_tokens : ℕ
  pub total_tokens : ℕ
  pub reasoning_tokens : ℕ
