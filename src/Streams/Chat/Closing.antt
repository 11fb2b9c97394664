-- ===== src/Streams/Chat/Closing.antt =====
-- How each choice of a stream is closed.
use vfront.Common.{
  ℕ, ◌<◌, Str, List, [], ◌∷◌, ◌++◌, Bool, true, false, ◌&&◌, Option, none, some, codes, ◌≡◌, refl,
  ap, ◌∙◌, inl, inr, Bool-cases, Option-cases, ltb, ◌==◌, all, length, keep-append, keep-all,
  if◌then◌else◌, arith,
}
use mathlib.Core.List.{append-nil}
use vfront.Output.{AssistantOutput, text_output, tool_output, finalize}
use vfront.Streams.{CompletionDelta, GenerateOutput, ToolCall}
use vfront.Streams.Choices.{Chunk, role, done, finish, Choice, Choices, new_choice, lookup}
use vfront.Streams.Choices.Laws.{keys, is_ascending, has_key}
use vfront.Streams.Chat.{
  Request, Run, Outcome, ended, failed, start, roles, on_choice, on_completion, on_completions,
  on_outputs, is_tool_output, close_text, close_choice, close_all, sign_off, conclude, with_finish,
  stream_chat_completion, usage_of,
}
use vfront.Streams.Chat.Ready.{IsReady, fresh-IsReady, store-IsReady, lookup-fresh, roles_lem}
use vfront.Streams.Chat.Alone.{
  is_of, for_choice, all_completions, completions_of, alone, on_outputs-alone, all_of, all-append,
  none_of_other, text_chunk-all, own-Admits, tool_call_chunks-all,
}

module _ (is_space : ℕ → Bool) where
  pub on_completions-IsReady :
      (has : Bool) (n : ℕ) (r : Run) (ms : List CompletionDelta)
      → IsReady n r.choices
      → IsReady n (on_completions is_space has r ms).0.choices
  unfolding on_completions on_completion
  on_completions-IsReady has n r [] ready = ready
  on_completions-IsReady has n r (m ∷ ms) ready =
      let c = lookup m.index (new_choice has) r.choices in
      on_completions-IsReady has n (on_completion is_space has r m).0 ms
        (store-IsReady n m.index (on_choice is_space m.index c m).0 r.choices ready)

  pub on_outputs-IsReady :
      (has : Bool) (n : ℕ) (r : Run) (outputs : List GenerateOutput)
      → IsReady n r.choices
      → IsReady n (on_outputs is_space has r outputs).0.choices
  unfolding on_outputs
  on_outputs-IsReady has n r [] ready = ready
  on_outputs-IsReady has n r (output ∷ outputs) ready =
      let counted = record r { prompt_tokens = length output.prompt_token_ids } in
      on_outputs-IsReady has n (on_completions is_space has counted output.outputs).0 outputs
        (on_completions-IsReady has n counted output.outputs ready)

  module _ (parse : Str → Option (List ToolCall)) (semantic : Bool) where
    with_finish-all :
        (i : ℕ) (t : List Chunk × Option Str)
        → all_of i t.0 ≡ true
        → all_of i (with_finish is_space parse i t) ≡ true
    unfolding is_of
    with_finish-all i t h = all-append (is_of i) t.0 (finish i t.1 ∷ []) h (ground arith)

    close_text-all :
        (i : ℕ) (c : Choice) (out : AssistantOutput ToolCall) (held : Option Str)
        → all_of i (close_text is_space parse i c out held).0 ≡ true
    unfolding close_text
    close_text-all i c (tool_output calls) held = tool_call_chunks-all i 0 calls
    close_text-all i c (text_output s) held = text_chunk-all (is_of i) i (own-Admits i) held _

    pub close_choice-all :
        (i : ℕ) (c : Choice) {own : List Chunk}
        → close_choice is_space parse semantic i c ≡ some own
        → all_of i own ≡ true
    unfolding close_choice
    close_choice-all i c h =
        let (normalized, held) = finalize is_space parse c.state in
        let tools = with_finish is_space parse i ([], some (codes "tool_calls")) in
        let told = close_text is_space parse i c normalized held in
        chosen c.semantic_seen (semantic && is_tool_output is_space parse normalized) tools
          (with_finish is_space parse i told)
          (with_finish-all i ([], some (codes "tool_calls")) refl)
          (with_finish-all i told (close_text-all i c normalized held)) h
      where
        chosen :
            (seen fails : Bool) (a b : List Chunk) {own : List Chunk}
            → all_of i a ≡ true
            → all_of i b ≡ true
            → (if seen then some a else if fails then none else some b) ≡ some own
            → all_of i own ≡ true
        chosen true fails a b p q h = ground (arith, h)
        chosen false true a b p q h = absurd (cc h)
        chosen false false a b p q h = ground (arith, h)

    close_all-raises :
        (j : ℕ) (c : Choice) (l : Choices)
        → close_choice is_space parse semantic j c ≡ none
        → ◌≡◌ {A = List Chunk × Outcome}
            (close_all is_space parse semantic ((j, c) ∷ l))
            ([], failed)
    unfolding close_all
    close_all-raises j c l h = rw (h, close_all)

    close_all-goes_on :
        (j : ℕ) (c : Choice) (l : Choices) {chunks : List Chunk}
        → close_choice is_space parse semantic j c ≡ some chunks
        → let (more, outcome) = close_all is_space parse semantic l in
          ◌≡◌ {A = List Chunk × Outcome}
            (close_all is_space parse semantic ((j, c) ∷ l))
            (chunks ++ more, outcome)
    unfolding close_all
    close_all-goes_on j c l h = rw (h, close_all)

    close_all_other :
        (i : ℕ) (l : Choices)
        → has_key i (keys l) ≡ false
        → for_choice i (close_all is_space parse semantic l).0 ≡ []
    unfolding is_of
    close_all_other i [] h = unfold close_all in refl
    close_all_other i ((j, c) ∷ l) h =
        elim (Option-cases (close_choice is_space parse semantic j c)) [
          | inl raised ↦ rw (close_all-raises j c l raised)
          | inr (chunks, closed) ↦
              let other : (i == j) ≡ false = ground (arith, h) in
              let rest : has_key i (keys l) ≡ false = ground (arith, h) in
              let more = (close_all is_space parse semantic l).0 in
              rw (close_all-goes_on j c l closed) (
                keep-append (is_of i) chunks more
                ∙ rw (none_of_other i j chunks other (close_choice-all j c closed))
                    (close_all_other i l rest))
        ]

    close_all_lem :
        (i : ℕ) (default : Choice) (l : Choices)
        → is_ascending (keys l) ≡ true
        → has_key i (keys l) ≡ true
        → (close_all is_space parse semantic l).1 ≡ ended
        → (own : List Chunk) × (close_choice is_space parse semantic i (lookup i default l)
            ≡ some own)
          × (for_choice i (close_all is_space parse semantic l).0 ≡ own)
    unfolding lookup
    close_all_lem i default [] h k e = absurd (cc k)
    close_all_lem i default ((j, c) ∷ l) h k e =
        elim (Option-cases (close_choice is_space parse semantic j c)) [
          | inl raised ↦
              let e' : failed ≡ ended = rw (close_all-raises j c l raised) at e in absurd (cc e')
          | inr (chunks, closed) ↦
              let more = (close_all is_space parse semantic l).0 in
              let split = keep-append (is_of i) chunks more in
              let all_here = close_choice-all j c closed in
              elim (Bool-cases (i == j)) [
                | inl here ↦
                    let same : i ≡ j = ground (arith, here) in
                    let gone : has_key i (keys l) ≡ false =
                      rw same (beyond j (keys l) (ground arith)) in
                    let mine : all_of i chunks ≡ true = rw same all_here in
                    (
                      chunks,
                      rw here (rw same closed),
                      rw (close_all-goes_on j c l closed) (
                          split
                          ∙ rw (keep-all (is_of i) chunks mine, close_all_other i l gone)
                              (append-nil chunks)),
                    )
                | inr other ↦
                    let there : (close_all is_space parse semantic l).1 ≡ ended =
                      rw (close_all-goes_on j c l closed) at e in
                    let (own, closes, found) =
                      close_all_lem i default l (ground (arith, h)) (ground (arith, k)) there in
                    (
                      own,
                      rw other closes,
                      rw (close_all-goes_on j c l closed)
                          (split ∙ rw (none_of_other i j chunks other all_here) found),
                    )
              ]
        ]
      where
        beyond : (j : ℕ) (l : List ℕ) → all (λ k. ltb j k) l ≡ true → has_key j l ≡ false
        beyond j [] h = refl
        beyond j (k ∷ l) h = ground (arith, beyond j l)

    sign_off_lem :
        (req : Request) (r : Run) (i : ℕ) → for_choice i (sign_off is_space parse req r ended) ≡ []
    unfolding sign_off usage_of is_of
    sign_off_lem req r i = by_options req.include_usage req.emit_done
      where
        by_options :
            (u d : Bool)
            → for_choice i ((if u then usage_of r ∷ [] else []) ++ (if d then done ∷ [] else []))
              ≡ []
        by_options true true = refl
        by_options true false = refl
        by_options false true = refl
        by_options false false = refl

  module _ (parse : Str → Option (List ToolCall)) where
    -- When the engine and the stream end as they should, every choice that was asked for streams
    -- as if it were the only one: its chunks are its role, those of its own completions in their
    -- order, and the end that these completions bring it to.
    pub stream_alone :
        (req : Request) (outputs : List GenerateOutput) (i : ℕ)
        → i < req.n
        → (stream_chat_completion is_space parse req outputs ended).1 ≡ ended
        → let (c, streamed) =
            alone is_space i
              (new_choice req.has_tool_definitions)
              (completions_of i (all_completions outputs)) in
          (own : List Chunk) × (close_choice is_space parse req.semantic_tool_parsing i c
            ≡ some own)
          × (for_choice i (stream_chat_completion is_space parse req outputs ended).0
              ≡ role i ∷ (streamed ++ own))
    unfolding stream_chat_completion conclude start
    stream_alone req outputs i h e =
        let has = req.has_tool_definitions in
        let r0 = start has req.n in
        let (r, chunks) = on_outputs is_space has r0 outputs in
        let ready = on_outputs-IsReady has req.n r0 outputs (fresh-IsReady has req.n) in
        let closing = (close_all is_space parse req.semantic_tool_parsing r.choices).0 in
        let rest = sign_off is_space parse req r ended in
        let (seen, streamed) = on_outputs-alone is_space has i r0 outputs in
        let (own, closes, found) =
          close_all_lem parse req.semantic_tool_parsing i (new_choice has) r.choices ready.order
            (ready.asked i h) (ground (arith, e)) in
        let fresh = lookup-fresh has 0 i req.n in
        let mine = completions_of i (all_completions outputs) in
        let state_is = seen ∙ ap (λ d. (alone is_space i d mine).0) fresh in
        let chunks_are = streamed ∙ ap (λ d. (alone is_space i d mine).1) fresh in
        let ended_here : (close_all is_space parse req.semantic_tool_parsing r.choices).1 ≡ ended =
          ground (arith, e) in
        (
          own,
          rw (← state_is) closes,
          rw ended_here (
              keep-append (is_of i) (roles 0 req.n ++ chunks ++ closing) rest
              ∙ rw (sign_off_lem parse true req r i) (
                  append-nil _
                  ∙ keep-append (is_of i) (roles 0 req.n ++ chunks) closing
                  ∙ rw
                      (
                        keep-append (is_of i) (roles 0 req.n) chunks,
                        roles_lem 0 i req.n (omega arith) (omega (arith, h)),
                        chunks_are,
                        found,
                      )
                      refl)),
        )
