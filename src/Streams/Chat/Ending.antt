-- ===== src/Streams/Chat/Ending.antt =====
-- What `stream_chat_completion` yields at the end, and the usage that it reports.
use vfront.Common.{
  ℕ, zero, suc, ◌+◌, Str, List, [], ◌∷◌, ◌++◌, Bool, true, false, not, Option, ◌≡◌, ◌≢◌, keep_none,
  refl, ap, all, length, keep, arith,
}
use mathlib.Core.List.{append-nil}
use vfront.Streams.{CompletionDelta, GenerateOutput, ToolCall}
use vfront.Streams.Choices.{
  Chunk, role, content, reasoning, tool_delta, call_head, call_arguments, finish, usage,
  stream_error, done, new_choice, lookup,
}
use vfront.Streams.Chat.{
  Request, Outcome, ended, failed, interrupted, Run, start, roles, on_choice, on_completion,
  on_completions, on_outputs, conclude, sign_off, stream_chat_completion,
}
use vfront.Streams.Chat.Alone.{is_of, all_of, all-append, Admits, on_choice-all}

-- A chunk that ends something: a choice, or the stream.
unfoldable pub is_end : Chunk → Bool
is_end (finish i reason) = true
is_end (usage u) = true
is_end stream_error = true
is_end done = true
is_end _ = false

-- A chunk that is for no choice: the usage, an error, and the sentinel.
unfoldable pub is_control : Chunk → Bool
is_control (usage u) = true
is_control stream_error = true
is_control done = true
is_control _ = false

quiet-Admits : (i : ℕ) → Admits (λ c. not (is_end c)) i
unfolding is_end
quiet-Admits i = record {
  on_content = λ s lps. refl;
  on_reasoning = λ s. refl;
  on_tool_delta = λ d. refl;
}

of_choice : (i : ℕ) (c : Chunk) → is_of i c ≡ true → not (is_control c) ≡ true
unfolding is_of is_control
of_choice i (role k) h = refl
of_choice i (content k s lps) h = refl
of_choice i (reasoning k s) h = refl
of_choice i (tool_delta k d) h = refl
of_choice i (call_head k m id name) h = refl
of_choice i (call_arguments k m s) h = refl
of_choice i (finish k reason) h = refl
of_choice i (usage u) h = absurd (cc h)
of_choice i stream_error h = absurd (cc h)
of_choice i done h = absurd (cc h)

pub all_for_choice :
    (i : ℕ) (l : List Chunk) → all_of i l ≡ true → all (λ c. not (is_control c)) l ≡ true
all_for_choice i [] h = refl
all_for_choice i (c ∷ l) h = ground (arith, of_choice i c, all_for_choice i l)

end_of_control : (c : Chunk) → not (is_end c) ≡ true → not (is_control c) ≡ true
unfolding is_end is_control
end_of_control (role k) h = refl
end_of_control (content k s lps) h = refl
end_of_control (reasoning k s) h = refl
end_of_control (tool_delta k d) h = refl
end_of_control (call_head k m id name) h = refl
end_of_control (call_arguments k m s) h = refl
end_of_control (finish k reason) h = refl
end_of_control (usage u) h = absurd (cc h)
end_of_control stream_error h = absurd (cc h)
end_of_control done h = absurd (cc h)

pub all_quiet :
    (l : List Chunk) → all (λ c. not (is_end c)) l ≡ true → all (λ c. not (is_control c)) l ≡ true
all_quiet [] h = refl
all_quiet (c ∷ l) h = ground (arith, end_of_control c, all_quiet l)

roles-quiet : (i n : ℕ) → all (λ c. not (is_end c)) (roles i n) ≡ true
unfolding roles is_end
roles-quiet i zero = refl
roles-quiet i (suc n) = roles-quiet (1 + i) n

module _ (is_space : ℕ → Bool) (has : Bool) where
  on_completions-quiet :
      (r : Run) (ms : List CompletionDelta)
      → all (λ c. not (is_end c)) (on_completions is_space has r ms).1 ≡ true
  unfolding on_completions on_completion
  on_completions-quiet r [] = refl
  on_completions-quiet r (m ∷ ms) =
      let r1 = (on_completion is_space has r m).0 in
      let c = lookup m.index (new_choice has) r.choices in
      all-append (λ c. not (is_end c)) (on_choice is_space m.index c m).1
        (on_completions is_space has r1 ms).1
        (on_choice-all (λ c. not (is_end c)) m.index (quiet-Admits m.index) is_space c m)
        (on_completions-quiet r1 ms)

  on_outputs-quiet :
      (r : Run) (outputs : List GenerateOutput)
      → all (λ c. not (is_end c)) (on_outputs is_space has r outputs).1 ≡ true
  unfolding on_outputs
  on_outputs-quiet r [] = refl
  on_outputs-quiet r (output ∷ outputs) =
      let r0 = record r { prompt_tokens = length output.prompt_token_ids } in
      let r1 = (on_completions is_space has r0 output.outputs).0 in
      all-append (λ c. not (is_end c)) (on_completions is_space has r0 output.outputs).1
        (on_outputs is_space has r1 outputs).1 (on_completions-quiet r0 output.outputs)
        (on_outputs-quiet r1 outputs)

-- What a client gets in the end when the engine raises.
abbrev pub cut_off : Outcome → List Chunk
cut_off failed = stream_error ∷ []
cut_off _ = []

module _ (is_space : ℕ → Bool) (parse : Str → Option (List ToolCall)) where
  -- The chunks before anything is closed.
  abbrev pub told : Request → List GenerateOutput → List Chunk
  told req outputs =
      roles 0 req.n
      ++ (on_outputs is_space req.has_tool_definitions (start req.has_tool_definitions req.n)
          outputs).1

  pub told-all :
      (req : Request) (outputs : List GenerateOutput)
      → all (λ c. not (is_end c)) (told req outputs) ≡ true
  told-all req outputs =
      let has = req.has_tool_definitions in
      all-append (λ c. not (is_end c)) (roles 0 req.n)
        (on_outputs is_space has (start has req.n) outputs).1 (roles-quiet 0 req.n)
        (on_outputs-quiet is_space has (start has req.n) outputs)

  told_quiet : (req : Request) (outputs : List GenerateOutput) → keep is_end (told req outputs) ≡ []
  told_quiet req outputs = keep_none is_end (told req outputs) (told-all req outputs)

  -- When the engine raises, the stream raises the same, no choice gets a finish chunk, and neither the usage
  -- nor the sentinel is sent: of the chunks that end something there is one error event for an Exception,
  -- which comes last, and none for another BaseException.
  pub stream_cut_off :
      (req : Request) (outputs : List GenerateOutput) (engine : Outcome)
      → engine ≢ ended
      → (body : List Chunk) × (keep is_end body ≡ [])
        × ((stream_chat_completion is_space parse req outputs engine).0 ≡ body ++ cut_off engine)
        × ((stream_chat_completion is_space parse req outputs engine).1 ≡ engine)
  unfolding stream_chat_completion conclude sign_off is_end
  stream_cut_off req outputs ended h = absurd (h refl)
  stream_cut_off req outputs failed h =
      let body = told req outputs in
      (body, told_quiet req outputs, ap (λ t. t ++ (stream_error ∷ [])) (append-nil body), refl)
  stream_cut_off req outputs interrupted h =
      let body = told req outputs in
      (body, told_quiet req outputs, ap (λ t. t ++ []) (append-nil body), refl)
