-- ===== src/Streams/Whole/Reading.antt =====
-- What the chunks of a choice tell of its calls and its finish, and what two readings of a text share.
use vfront.Common.{
  ℕ, ◌+◌, Str, List, [], ◌∷◌, ◌++◌, map, Bool, true, false, not, Option, none, some, ◌≡◌, refl, ap,
  inl, inr, Bool-cases, all, keep, keep_none,
}
use vfront.Output.{AssistantOutput, text_output, tool_output, output_of}
use vfront.Streams.{ToolCall}
use vfront.Streams.Choices.{Chunk, call_head, call_arguments, finish}
use vfront.Streams.Chat.{tool_call_chunks}

-- The chunks that tell the outcome of a choice: its calls, and its finish.
unfoldable pub tells : Chunk → Bool
tells (call_head i k id name) = true
tells (call_arguments i k s) = true
tells (finish i reason) = true
tells _ = false

-- A chunk without the id of a call, which is drawn anew each time.
unfoldable pub nameless : Chunk → Chunk
nameless (call_head i k id name) = call_head i k [] name
nameless c = c

-- The chunks, without ids, that a choice of a response that is not streamed would have.
abbrev pub heads : ℕ → ℕ → List ToolCall → List Chunk
heads i k [] = []
heads i k (call ∷ calls) =
    call_head i k [] call.name ∷ call_arguments i k call.arguments ∷ heads i (1 + k) calls

-- What two readings of one text share: the names and the arguments of the calls, and not their ids.
abbrev pub reading : List ToolCall → List (Str × Str)
reading [] = []
reading (call ∷ calls) = (call.name, call.arguments) ∷ reading calls

abbrev pub any_reading : Option (List ToolCall) → Option (List (Str × Str))
any_reading none = none
any_reading (some calls) = some (reading calls)

pub heads-reading :
    (i k : ℕ) (a b : List ToolCall) → reading a ≡ reading b → heads i k a ≡ heads i k b
heads-reading i k [] [] h = refl
heads-reading i k [] (d ∷ b) h = absurd (cc)
heads-reading i k (c ∷ a) [] h = absurd (cc)
heads-reading i k (c ∷ a) (d ∷ b) h =
    let names : c.name ≡ d.name = cc in
    let arguments : c.arguments ≡ d.arguments = cc in
    let rest : reading a ≡ reading b = cc in cc (names, arguments, heads-reading i (1 + k) a b rest)

abbrev pub output_reading : AssistantOutput ToolCall → AssistantOutput (Str × Str)
output_reading (tool_output calls) = tool_output (reading calls)
output_reading (text_output s) = text_output s

abbrev pub told_calls : ℕ → Option (List ToolCall) → List Chunk
told_calls i none = []
told_calls i (some calls) = heads i 0 calls

-- What chunks tell, without the ids.
abbrev pub told : List Chunk → List Chunk
told chunks = map nameless (keep tells chunks)

pub told-append : (a b : List Chunk) → told (a ++ b) ≡ told a ++ told b
told-append [] b = refl
told-append (c ∷ a) b = elim (Bool-cases (tells c)) [
  | inl tell ↦ rw tell (ap (λ t. nameless c ∷ t) (told-append a b))
  | inr silent ↦ rw silent (told-append a b)
]

pub told_none : (l : List Chunk) → all (λ c. not (tells c)) l ≡ true → told l ≡ []
told_none l h = ap (map nameless) (keep_none tells l h)

pub output_of-reading :
    (is_space : ℕ → Bool) (parse parse' : Str → Option (List ToolCall)) (s : Str)
    (a b : Option (List ToolCall))
    → any_reading a ≡ any_reading b
    → output_reading (output_of is_space parse s a) ≡ output_reading (output_of is_space parse' s b)
output_of-reading is_space parse parse' s none none h = refl
output_of-reading is_space parse parse' s none (some b) h = absurd (cc)
output_of-reading is_space parse parse' s (some a) none h = absurd (cc)
output_of-reading is_space parse parse' s (some []) (some []) h = refl
output_of-reading is_space parse parse' s (some []) (some (d ∷ b)) h = absurd (cc)
output_of-reading is_space parse parse' s (some (c ∷ a)) (some []) h = absurd (cc)
output_of-reading is_space parse parse' s (some (c ∷ a)) (some (d ∷ b)) h =
    let same : reading (c ∷ a) ≡ reading (d ∷ b) = cc in
    ap (λ (t : List (Str × Str)). tool_output t) same

pub tells-tool_call_chunks :
    (i k : ℕ) (calls : List ToolCall) → told (tool_call_chunks i k calls) ≡ heads i k calls
unfolding tells tool_call_chunks nameless
tells-tool_call_chunks i k [] = refl
tells-tool_call_chunks i k (call ∷ calls) =
    ap (λ t. call_head i k [] call.name ∷ call_arguments i k call.arguments ∷ t)
      (tells-tool_call_chunks i (1 + k) calls)
