-- ===== src/Streams/Chat/Bill.antt =====
-- The usage chunk of `stream_chat_completion`.
use vfront.Common.{
  ℕ, zero, suc, ◌+◌, ◌<◌, Str, List, [], ◌∷◌, ◌++◌, Bool, true, false, not, Option, ◌≡◌, refl, sym,
  ap, ◌∙◌, inl, inr, Bool-cases, Option-cases, all, length, ltb, ◌==◌, keep, keep-append, keep_none,
  if◌then◌else◌, arith,
}
use vfront.Streams.{CompletionDelta, GenerateOutput, ToolCall, Usage}
use vfront.Streams.Choices.{Chunk, usage, done, Choice, Choices, new_choice, lookup, store}
use vfront.Streams.Choices.Laws.{keys, is_ascending, has_key}
use vfront.Streams.Chat.{
  Request, ended, Run, start, fresh_choices, on_choice, on_completion, on_completions, on_outputs,
  close_choice, close_all, conclude, sign_off, usage_of, reasoning_tokens, stream_chat_completion,
}
use vfront.Streams.Chat.Alone.{all_completions, all-append}
use vfront.Streams.Chat.Closing.{close_choice-all}
use vfront.Streams.Chat.Ready.{IsReady, fresh-IsReady, store-IsReady, lookup-fresh}
use vfront.Streams.Chat.Counts.{counts, is_rising, last_count, counted, on_outputs-Counts}
use vfront.Streams.Chat.Ending.{is_control, all_for_choice, told, told-all, all_quiet}

abbrev pub range : ℕ → ℕ → List ℕ
range i zero = []
range i (suc n) = i ∷ range (1 + i) n

abbrev pub sum_over : (ℕ → ℕ) → List ℕ → ℕ
sum_over f [] = 0
sum_over f (i ∷ l) = f i + sum_over f l

sum_over-eq : (f g : ℕ → ℕ) (l : List ℕ) → ((i : ℕ) → f i ≡ g i) → sum_over f l ≡ sum_over g l
sum_over-eq f g [] h = refl
sum_over-eq f g (i ∷ l) h = omega (arith, h i, sum_over-eq f g l h)

abbrev pub last_prompt : ℕ → List GenerateOutput → ℕ
last_prompt old [] = old
last_prompt old (output ∷ outputs) = last_prompt (length output.prompt_token_ids) outputs

lookup_behind :
    (j : ℕ) (default c : Choice) (l : Choices) (ks : List ℕ)
    → all (λ k. ltb j k) ks ≡ true
    → sum_over (λ k. (lookup k default ((j, c) ∷ l)).token_count) ks
      ≡ sum_over (λ k. (lookup k default l).token_count) ks
unfolding lookup
lookup_behind j default c l [] h = refl
lookup_behind j default c l (k ∷ ks) h =
    let other : (k == j) ≡ false = ground arith in
    let rest = lookup_behind j default c l ks (ground arith) in rw other (omega (arith, rest))

counted_lem :
    (default : Choice) (l : Choices)
    → is_ascending (keys l) ≡ true
    → counted l ≡ sum_over (λ k. (lookup k default l).token_count) (keys l)
unfolding counted
counted_lem default [] h = refl
counted_lem default ((j, c) ∷ l) h =
    let rest = counted_lem default l (ground arith) in
    let behind = lookup_behind j default c l (keys l) (ground arith) in
    let self : (j == j) ≡ true = ground arith in
    let here : (lookup j default ((j, c) ∷ l)).token_count ≡ c.token_count =
      unfold lookup in rw self refl in
    omega (arith, rest, behind, here)

keys-fresh : (has : Bool) (i n : ℕ) → keys (fresh_choices has i n) ≡ range i n
unfolding fresh_choices
keys-fresh has i zero = refl
keys-fresh has i (suc n) = ap (λ t. i ∷ t) (keys-fresh has (1 + i) n)

not_behind :
    (i j : ℕ) (l : List ℕ) → ltb i j ≡ true → all (λ k. ltb j k) l ≡ true → has_key i l ≡ false
not_behind i j [] h p = refl
not_behind i j (k ∷ l) h p = ground (arith, not_behind i j l h)

keys-store :
    (i : ℕ) (c : Choice) (l : Choices)
    → is_ascending (keys l) ≡ true
    → has_key i (keys l) ≡ true
    → keys (store i c l) ≡ keys l
unfolding store
keys-store i c [] h k = absurd (cc k)
keys-store i c ((j, d) ∷ l) h k = elim (Bool-cases (i == j)) [
  | inl here ↦ let same : i ≡ j = ground (arith, here) in rw here (ap (λ t. t ∷ keys l) same)
  | inr other ↦ elim (Bool-cases (ltb i j)) [
    | inl before ↦
        let gone = not_behind i j (keys l) before (ground arith) in absurd (ground (arith, gone))
    | inr behind ↦
        rw (other, behind) (ap (λ t. j ∷ t) (keys-store i c l (ground arith) (ground arith)))
  ]
]

counted-fresh : (has : Bool) (i n : ℕ) → counted (fresh_choices has i n) ≡ 0
unfolding counted fresh_choices new_choice
counted-fresh has i zero = refl
counted-fresh has i (suc n) = omega (arith, counted-fresh has (1 + i) n)

-- The choices are those that were asked for.
record IsExact (n : ℕ) (l : Choices) : Type 0 where
  ready : IsReady n l
  exact : keys l ≡ range 0 n

module _ (is_space : ℕ → Bool) (has : Bool) (n : ℕ) where
  on_completions-IsExact :
      (r : Run) (ms : List CompletionDelta)
      → all (λ m. ltb m.index n) ms ≡ true
      → IsExact n r.choices
      → IsExact n (on_completions is_space has r ms).0.choices
  unfolding on_completions on_completion
  on_completions-IsExact r [] h e = e
  on_completions-IsExact r (m ∷ ms) h e =
      let c = lookup m.index (new_choice has) r.choices in
      let c' = (on_choice is_space m.index c m).0 in
      let here : m.index < n = ground arith in
      on_completions-IsExact (on_completion is_space has r m).0 ms (ground arith) (record {
        ready = store-IsReady n m.index c' r.choices e.ready;
        exact =
            keys-store m.index c' r.choices e.ready.order (e.ready.asked m.index here) ∙ e.exact;
      })

  on_outputs-IsExact :
      (r : Run) (outputs : List GenerateOutput)
      → all (λ m. ltb m.index n) (all_completions outputs) ≡ true
      → IsExact n r.choices
      → IsExact n (on_outputs is_space has r outputs).0.choices
  unfolding on_outputs
  on_outputs-IsExact r [] h e = e
  on_outputs-IsExact r (output ∷ outputs) h e =
      let r0 = record r { prompt_tokens = length output.prompt_token_ids } in
      let halves =
        all-append_back (λ (m : CompletionDelta). ltb m.index n) output.outputs
          (all_completions outputs) h in
      on_outputs-IsExact (on_completions is_space has r0 output.outputs).0 outputs halves.1
        (on_completions-IsExact r0 output.outputs halves.0 e)
    where
      all-append_back :
          (p : CompletionDelta → Bool) (a b : List CompletionDelta)
          → all p (a ++ b) ≡ true
          → (all p a ≡ true) × (all p b ≡ true)
      all-append_back p [] b h = (refl, h)
      all-append_back p (x ∷ a) b h =
          let (here, there) = all-append_back p a b (ground arith) in
          (ground (arith, h, here), there)

  on_completions-prompt :
      (r : Run) (ms : List CompletionDelta)
      → (on_completions is_space has r ms).0.prompt_tokens ≡ r.prompt_tokens
  unfolding on_completions on_completion
  on_completions-prompt r [] = refl
  on_completions-prompt r (m ∷ ms) = on_completions-prompt (on_completion is_space has r m).0 ms

  on_outputs-prompt :
      (r : Run) (outputs : List GenerateOutput)
      → (on_outputs is_space has r outputs).0.prompt_tokens ≡ last_prompt r.prompt_tokens outputs
  unfolding on_outputs
  on_outputs-prompt r [] = refl
  on_outputs-prompt r (output ∷ outputs) =
      let r0 = record r { prompt_tokens = length output.prompt_token_ids } in
      on_outputs-prompt (on_completions is_space has r0 output.outputs).0 outputs
      ∙ ap (λ t. last_prompt t outputs) (on_completions-prompt r0 output.outputs)

abbrev pub sentinel : Bool → List Chunk
sentinel emit_done = if emit_done then done ∷ [] else []

module _ (is_space : ℕ → Bool) (parse : Str → Option (List ToolCall)) where
  close_all-control :
      (semantic : Bool) (l : Choices)
      → all (λ c. not (is_control c)) (close_all is_space parse semantic l).0 ≡ true
  unfolding close_all
  close_all-control semantic [] = refl
  close_all-control semantic ((i, c) ∷ l) =
      elim (Option-cases (close_choice is_space parse semantic i c)) [
        | inl raises ↦ rw (raises, close_all) refl
        | inr (chunks, closes) ↦
            rw (closes, close_all)
              (all-append (λ c. not (is_control c)) chunks (close_all is_space parse semantic l).0
                (all_for_choice i chunks (close_choice-all is_space parse semantic i c closes))
                (close_all-control semantic l))
      ]

  -- The engine and the stream end as they should, the engine names only choices that were asked for, and
  -- for none of them does the number of its tokens ever fall. Then the one usage chunk, just before
  -- the sentinel, bills the prompt of the last output, and for each choice the tokens of its last
  -- completion, those with deltas of tool calls not counted.
  pub stream_usage :
      (req : Request) (outputs : List GenerateOutput)
      → req.include_usage ≡ true
      → (stream_chat_completion is_space parse req outputs ended).1 ≡ ended
      → all (λ m. ltb m.index req.n) (all_completions outputs) ≡ true
      → ((i : ℕ) → is_rising 0 (counts i (all_completions outputs)) ≡ true)
      → (u : Usage) × (keep is_control (stream_chat_completion is_space parse req outputs ended).0
          ≡ usage u ∷ sentinel req.emit_done)
        × (u.prompt_tokens ≡ last_prompt 0 outputs)
        × (u.completion_tokens
            ≡ sum_over (λ i. last_count 0 (counts i (all_completions outputs))) (range 0 req.n))
        × (u.total_tokens ≡ u.prompt_tokens + u.completion_tokens)
  unfolding stream_chat_completion conclude sign_off usage_of start is_control new_choice
  stream_usage req outputs billed e named rising =
      let has = req.has_tool_definitions in
      let r0 = start has req.n in
      let r = (on_outputs is_space has r0 outputs).0 in
      let ready = fresh-IsReady has req.n in
      let exact =
        on_outputs-IsExact is_space has req.n r0 outputs named
          (record { ready = ready; exact = keys-fresh has 0 req.n }) in
      let fresh = λ (i : ℕ). ap (λ (d : Choice). d.token_count) (lookup-fresh has 0 i req.n) in
      let (right, last) =
        on_outputs-Counts is_space has r0 outputs
          (λ i. ap (λ t. is_rising t (counts i (all_completions outputs))) (fresh i) ∙ rising i)
          (record { order = ready.order; total = sym (counted-fresh has 0 req.n) }) in
      let closing = (close_all is_space parse req.semantic_tool_parsing r.choices).0 in
      let body = told is_space parse req outputs in
      let before : keep is_control (body ++ closing) ≡ [] = keep_none is_control (body ++ closing) (
        all-append (λ c. not (is_control c)) body closing
          (all_quiet body (told-all is_space parse req outputs))
          (close_all-control req.semantic_tool_parsing r.choices)) in
      let ended_here : (close_all is_space parse req.semantic_tool_parsing r.choices).1 ≡ ended =
        ground (arith, e) in
      let bill : Usage = record {
        prompt_tokens = r.prompt_tokens;
        completion_tokens = r.completion_tokens;
        total_tokens = r.prompt_tokens + r.completion_tokens;
        reasoning_tokens = reasoning_tokens r.choices;
      } in
      let tail = usage bill ∷ sentinel req.emit_done in
      (
        bill,
        rw (ended_here, billed)
            (keep-append is_control (body ++ closing) tail
              ∙ rw before (ap (λ t. usage bill ∷ t) (sentinel-control req.emit_done))),
        on_outputs-prompt is_space has req.n r0 outputs,
        right.total
            ∙ counted_lem (new_choice has) r.choices right.order
            ∙ ap (sum_over _) exact.exact
            ∙ sum_over-eq _ _ (range 0 req.n) (λ i.
              last i ∙ ap (λ t. last_count t (counts i (all_completions outputs))) (fresh i)),
        refl,
      )
    where
      sentinel-control : (d : Bool) → keep is_control (sentinel d) ≡ sentinel d
      sentinel-control true = unfold is_control in refl
      sentinel-control false = refl
