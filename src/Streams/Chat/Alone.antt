-- ===== src/Streams/Chat/Alone.antt =====
-- The choices of a stream do not meddle with one another.
use vfront.Common.{
  ℕ, ◌+◌, Str, List, [], ◌∷◌, ◌++◌, map, Bool, true, false, Option, none, some, ◌≡◌, refl, ap, ◌∙◌,
  inl, inr, Bool-cases, ◌==◌, all, drop, length, keep, keep-append, keep-all, arith,
}
use mathlib.Core.List.{append_assoc}
use vfront.Output.Streamed.{or_nothing}
use vfront.Output.{StreamState, update}
use vfront.Streams.{
  CompletionDelta, GenerateOutput, SemanticToolCallDelta, ToolCall, LogprobContent,
}
use vfront.Streams.Choices.{
  Chunk, role, content, reasoning, tool_delta, call_head, call_arguments, finish, usage,
  stream_error, done, Choice, Choices, new_choice, lookup, store,
}
use vfront.Streams.Choices.Laws.{lookup-store, lookup-store_other}
use vfront.Streams.Chat.{
  Run, text_chunk, reasoning_chunk, logprobs_from, semantic_content, pass_text, pass_semantic,
  tool_deltas, on_choice, on_completion, on_completions, on_outputs, tool_call_chunks,
}

-- Whether a chunk is for a choice.
unfoldable pub is_of : ℕ → Chunk → Bool
is_of i (role j) = i == j
is_of i (content j s lps) = i == j
is_of i (reasoning j s) = i == j
is_of i (tool_delta j d) = i == j
is_of i (call_head j k id name) = i == j
is_of i (call_arguments j k s) = i == j
is_of i (finish j reason) = i == j
is_of i _ = false

abbrev pub for_choice : ℕ → List Chunk → List Chunk
for_choice i chunks = keep (is_of i) chunks

-- Every completion that the engine yields.
abbrev pub all_completions : List GenerateOutput → List CompletionDelta
all_completions [] = []
all_completions (output ∷ outputs) = output.outputs ++ all_completions outputs

abbrev pub completions_of : ℕ → List CompletionDelta → List CompletionDelta
completions_of i ms = keep (λ m. i == m.index) ms

-- Chunks that all have an index.
abbrev pub all_of : ℕ → List Chunk → Bool
all_of i chunks = all (is_of i) chunks

pub all-append :
    (p : Chunk → Bool) (a b : List Chunk) → all p a ≡ true → all p b ≡ true → all p (a ++ b) ≡ true
all-append p [] b h k = k
all-append p (x ∷ a) b h k = ground (arith, all-append p a b)

of_other : (i j : ℕ) (c : Chunk) → (i == j) ≡ false → is_of j c ≡ true → is_of i c ≡ false
unfolding is_of
of_other i j (role k) h p = ground arith
of_other i j (content k s lps) h p = ground arith
of_other i j (reasoning k s) h p = ground arith
of_other i j (tool_delta k d) h p = ground arith
of_other i j (call_head k m id name) h p = ground arith
of_other i j (call_arguments k m s) h p = ground arith
of_other i j (finish k reason) h p = ground arith
of_other i j (usage u) h p = refl
of_other i j stream_error h p = refl
of_other i j done h p = refl

pub none_of_other :
    (i j : ℕ) (chunks : List Chunk)
    → (i == j) ≡ false
    → all_of j chunks ≡ true
    → for_choice i chunks ≡ []
none_of_other i j [] h p = refl
none_of_other i j (c ∷ chunks) h p = ground (arith, none_of_other i j chunks h, of_other i j c h)

-- A test that the chunks of a completion of one choice pass.
pub record Admits (p : Chunk → Bool) (i : ℕ) : Type 0 where
  pub on_content : (s : Str) (lps : Option (List LogprobContent)) → p (content i s lps) ≡ true
  pub on_reasoning : (s : Str) → p (reasoning i s) ≡ true
  pub on_tool_delta : (d : SemanticToolCallDelta) → p (tool_delta i d) ≡ true

pub own-Admits : (i : ℕ) → Admits (is_of i) i
unfolding is_of
own-Admits i = record {
  on_content = λ s lps. ground arith;
  on_reasoning = λ s. ground arith;
  on_tool_delta = λ d. ground arith;
}

module _ (p : Chunk → Bool) (i : ℕ) (admits : Admits p i) where
  pub text_chunk-all :
      (s : Option Str) (lps : Option (List LogprobContent)) → all p (text_chunk i s lps) ≡ true
  unfolding text_chunk
  text_chunk-all none lps = refl
  text_chunk-all (some []) lps = refl
  text_chunk-all (some (c ∷ s)) lps = rw (admits.on_content (c ∷ s) lps) refl

  reasoning_chunk-all : (s : Str) → all p (reasoning_chunk i s) ≡ true
  reasoning_chunk-all [] = refl
  reasoning_chunk-all (c ∷ s) = rw (admits.on_reasoning (c ∷ s)) refl

  pass_text-all :
      (c : Choice) (m : CompletionDelta) (delta : Option Str)
      → all p (pass_text i c m delta).1 ≡ true
  unfolding pass_text
  pass_text-all c m delta =
      let thought = drop (length c.reasoning_text) (or_nothing m.reasoning_text) in
      let lps = logprobs_from c.logprob_count m.logprobs in
      all-append p (reasoning_chunk i thought) (text_chunk i delta lps)
        (reasoning_chunk-all thought) (text_chunk-all delta lps)

  deltas-all : (l : List SemanticToolCallDelta) → all p (map (tool_delta i) l) ≡ true
  deltas-all [] = refl
  deltas-all (d ∷ l) = ground (arith, deltas-all l, admits.on_tool_delta d)

  pass_semantic-all :
      (c : Choice) (m : CompletionDelta) (deltas : List SemanticToolCallDelta)
      → all p (pass_semantic i c m deltas).1 ≡ true
  unfolding pass_semantic
  pass_semantic-all c m deltas =
      all-append p (text_chunk i (semantic_content m.semantic) none) (map (tool_delta i) deltas)
        (text_chunk-all (semantic_content m.semantic) none) (deltas-all deltas)

  pub on_choice-all :
      (is_space : ℕ → Bool) (c : Choice) (m : CompletionDelta)
      → all p (on_choice is_space i c m).1 ≡ true
  unfolding on_choice
  on_choice-all is_space c m =
      by_deltas (tool_deltas m.semantic) (update is_space c.state m.text m.finish_reason)
    where
      by_deltas :
          (deltas : List SemanticToolCallDelta) (u : StreamState × Option Str)
          → let stepped : Choice × List Chunk = elim deltas [
            | [] ↦ pass_text i (record c { state = u.0 }) m u.1
            | d ∷ ds ↦ pass_semantic i (record c { state = u.0 }) m (d ∷ ds)
          ] in
            all p stepped.1 ≡ true
      by_deltas [] u = pass_text-all (record c { state = u.0 }) m u.1
      by_deltas (d ∷ ds) u = pass_semantic-all (record c { state = u.0 }) m (d ∷ ds)

pub tool_call_chunks-all :
    (i k : ℕ) (calls : List ToolCall) → all_of i (tool_call_chunks i k calls) ≡ true
unfolding tool_call_chunks is_of
tool_call_chunks-all i k [] = refl
tool_call_chunks-all i k (call ∷ calls) = ground (arith, tool_call_chunks-all i (1 + k) calls)

module _ (is_space : ℕ → Bool) where
  -- A choice that has the engine for itself.
  unfoldable pub alone : ℕ → Choice → List CompletionDelta → Choice × List Chunk
  alone i c [] = (c, [])
  alone i c (m ∷ ms) =
      let (c1, chunks) = on_choice is_space i c m in
      let (c2, more) = alone i c1 ms in (c2, chunks ++ more)

  pub alone-append :
      (i : ℕ) (c : Choice) (ms ns : List CompletionDelta)
      → let (c1, chunks) = alone i c ms in
        let (c2, more) = alone i c1 ns in
        ◌≡◌ {A = Choice × List Chunk} (alone i c (ms ++ ns)) (c2, chunks ++ more)
  unfolding alone
  alone-append i c [] ns = refl
  alone-append i c (m ∷ ms) ns =
      let (c1, chunks) = on_choice is_space i c m in
      let (c2, more) = alone i c1 ms in
      rw (alone-append i c1 ms ns, append_assoc chunks more (alone i c2 ns).1)

  module _ (has : Bool) (i : ℕ) where
    abbrev pub mine : Run → Choice
    mine r = lookup i (new_choice has) r.choices

    mine_same :
        (j : ℕ) (m : CompletionDelta) (l : Choices)
        → i ≡ j
        → let after = on_choice is_space j (lookup j (new_choice has) l) m in
          let own = on_choice is_space i (lookup i (new_choice has) l) m in
          (lookup i (new_choice has) (store j after.0 l) ≡ own.0) × (for_choice i after.1 ≡ own.1)
    mine_same j m l e = rw (← e) (
      lookup-store i (new_choice has) (on_choice is_space i (lookup i (new_choice has) l) m).0 l,
      keep-all (is_of i) (on_choice is_space i (lookup i (new_choice has) l) m).1
          (on_choice-all (is_of i) i (own-Admits i) is_space (lookup i (new_choice has) l) m),
    )

    -- For one choice the run is the run of that choice alone.
    pub on_completions-alone :
        (r : Run) (ms : List CompletionDelta)
        → let (r', chunks) = on_completions is_space has r ms in
          let (c, own) = alone i (mine r) (completions_of i ms) in
          (mine r' ≡ c) × (for_choice i chunks ≡ own)
    unfolding on_completions on_completion alone
    on_completions-alone r [] = (refl, refl)
    on_completions-alone r (m ∷ ms) =
        let j = m.index in
        let (c', chunks) = on_choice is_space j (lookup j (new_choice has) r.choices) m in
        let r1 = (on_completion is_space has r m).0 in
        let ih = on_completions-alone r1 ms in
        let more = (on_completions is_space has r1 ms).1 in
        let split = keep-append (is_of i) chunks more in
        let rest = completions_of i ms in
        let own_step = on_choice is_space i (mine r) m in
        elim (Bool-cases (i == j)) [
          | inl same ↦
              let (own, own_chunks) = mine_same j m r.choices (ground (arith, same)) in
              rw same (
                ih.0 ∙ ap (λ d. (alone i d rest).0) own,
                split ∙ rw (own_chunks, ih.1) (ap (λ d. own_step.1 ++ (alone i d rest).1) own),
              )
          | inr other ↦
              let kept = lookup-store_other j i (new_choice has) c' r.choices other in
              let nothing = none_of_other i j chunks other (
                on_choice-all (is_of j) j (own-Admits j) is_space
                  (lookup j (new_choice has) r.choices) m) in
              rw other (
                ih.0 ∙ ap (λ d. (alone i d rest).0) kept,
                split ∙ rw nothing (ih.1 ∙ ap (λ d. (alone i d rest).1) kept),
              )
        ]

    pub on_outputs-alone :
        (r : Run) (outputs : List GenerateOutput)
        → let (r', chunks) = on_outputs is_space has r outputs in
          let (c, own) = alone i (mine r) (completions_of i (all_completions outputs)) in
          (mine r' ≡ c) × (for_choice i chunks ≡ own)
    unfolding on_outputs alone
    on_outputs-alone r [] = (refl, refl)
    on_outputs-alone r (output ∷ outputs) =
        let counted = record r { prompt_tokens = length output.prompt_token_ids } in
        let (r1, chunks) = on_completions is_space has counted output.outputs in
        let more = (on_outputs is_space has r1 outputs).1 in
        let (here, here_chunks) = on_completions-alone counted output.outputs in
        let (there, there_chunks) = on_outputs-alone r1 outputs in
        let rest = completions_of i (all_completions outputs) in
        let now = completions_of i output.outputs in
        rw
          (keep-append (λ (m : CompletionDelta). i == m.index) output.outputs
            (all_completions outputs))
          (rw (alone-append i (mine r) now rest) (
            there ∙ ap (λ d. (alone i d rest).0) here,
            keep-append (is_of i) chunks more
                ∙ rw here_chunks (
                    ap (λ t. (alone i (mine r) now).1 ++ t)
                      (there_chunks ∙ ap (λ d. (alone i d rest).1) here)),
          ))
