-- ===== src/Streams/Chat/Text.antt =====
-- The text that a client of `stream_chat_completion` puts together.
use vfront.Common.{
  ℕ, ◌<◌, Str, List, [], ◌∷◌, ◌++◌, Bool, true, false, not, ◌&&◌, Option, none, some, ◌≡◌, refl,
  sym, ap, subst, ◌∙◌, inl, inr, Bool-cases, drop, length,
}
use mathlib.Core.List.{append_assoc, append-nil}
use vfront.Output.{
  StreamState, text_output, is_empty, is_text, is_blank, decided, new_state, update,
  normalize_assistant_output, finalize,
}
use vfront.Output.Streamed.{or_nothing, joined, follow, follow-text, streamed_lem}
use vfront.Streams.{CompletionDelta, GenerateOutput, ToolCall, LogprobContent}
use vfront.Streams.Choices.{
  Chunk, role, content, reasoning, tool_delta, call_head, call_arguments, finish, usage,
  stream_error, done, Choice, new_choice,
}
use vfront.Streams.Chat.{
  Request, ended, text_chunk, reasoning_chunk, tool_deltas, pass_text, logprobs_from, on_choice,
  close_text, close_choice, with_finish, stream_chat_completion,
}
use vfront.Streams.Chat.Alone.{for_choice, all_completions, completions_of, alone}
use vfront.Streams.Chat.Closing.{stream_alone}

-- The content of the chunks, put together.
unfoldable pub contents : List Chunk → Str
contents [] = []
contents (content i s lps ∷ l) = s ++ contents l
contents (_ ∷ l) = contents l

contents-append : (a b : List Chunk) → contents (a ++ b) ≡ contents a ++ contents b
unfolding contents
contents-append [] b = refl
contents-append (content i s lps ∷ a) b =
    rw (contents-append a b) (sym (append_assoc s (contents a) (contents b)))
contents-append (role i ∷ a) b = contents-append a b
contents-append (reasoning i s ∷ a) b = contents-append a b
contents-append (tool_delta i d ∷ a) b = contents-append a b
contents-append (call_head i k id name ∷ a) b = contents-append a b
contents-append (call_arguments i k s ∷ a) b = contents-append a b
contents-append (finish i reason ∷ a) b = contents-append a b
contents-append (usage u ∷ a) b = contents-append a b
contents-append (stream_error ∷ a) b = contents-append a b
contents-append (done ∷ a) b = contents-append a b

contents-text_chunk :
    (i : ℕ) (s : Option Str) (lps : Option (List LogprobContent))
    → contents (text_chunk i s lps) ≡ or_nothing s
unfolding contents text_chunk
contents-text_chunk i none lps = refl
contents-text_chunk i (some []) lps = refl
contents-text_chunk i (some (c ∷ s)) lps = append-nil (c ∷ s)

contents-reasoning_chunk : (i : ℕ) (s : Str) → contents (reasoning_chunk i s) ≡ []
unfolding contents
contents-reasoning_chunk i [] = refl
contents-reasoning_chunk i (c ∷ s) = refl

contents-pass_text :
    (i : ℕ) (c : Choice) (m : CompletionDelta) (delta : Option Str)
    → contents (pass_text i c m delta).1 ≡ or_nothing delta
unfolding pass_text
contents-pass_text i c m delta =
    let thought =
      reasoning_chunk i (drop (length c.reasoning_text) (or_nothing m.reasoning_text)) in
    let said = text_chunk i delta (logprobs_from c.logprob_count m.logprobs) in
    contents-append thought said
    ∙ rw (contents-reasoning_chunk i (drop (length c.reasoning_text) (or_nothing m.reasoning_text)))
        (contents-text_chunk i delta (logprobs_from c.logprob_count m.logprobs))

-- The completions of a choice carry its whole text each time, which grows by these pieces, and no deltas of
-- tool calls.
pub data Grows : Str → List CompletionDelta → List Str → Type 0 where
  begun : {s : Str} → Grows s [] []
  grown :
      {s : Str} {m : CompletionDelta} {ms : List CompletionDelta} {piece : Str} {pieces : List Str}
      → m.text ≡ s ++ piece
      → tool_deltas m.semantic ≡ []
      → Grows (s ++ piece) ms pieces
      → Grows s (m ∷ ms) (piece ∷ pieces)

-- A state less the reason that it keeps.
abbrev erase : StreamState → StreamState
erase s = record s { finish_reason = none }

module _ (is_space : ℕ → Bool) where
  update-erase :
      (s : StreamState) (text : Str) (reason : Option Str)
      → let (s', delta) = update is_space s text reason in
        let (t', delta') = update is_space (erase s) text none in (erase s' ≡ t') × (delta ≡ delta')
  unfolding update decided
  update-erase s text reason =
      elim (Bool-cases
        (not (is_empty (drop (length s.text) text)) && is_text (decided is_space s text))) [
          | inl sends ↦ rw sends (refl, refl)
          | inr holds ↦ rw holds (refl, refl)
        ]

  pub update-text :
      (s : StreamState) (text : Str) (reason : Option Str)
      → (update is_space s text reason).0.text ≡ text
  unfolding update
  update-text s text reason =
      elim (Bool-cases
        (not (is_empty (drop (length s.text) text)) && is_text (decided is_space s text))) [
          | inl sends ↦ rw sends refl
          | inr holds ↦ rw holds refl
        ]

  pub update-has :
      (s : StreamState) (text : Str) (reason : Option Str)
      → (update is_space s text reason).0.has_tool_definitions ≡ s.has_tool_definitions
  unfolding update
  update-has s text reason =
      elim (Bool-cases
        (not (is_empty (drop (length s.text) text)) && is_text (decided is_space s text))) [
          | inl sends ↦ rw sends refl
          | inr holds ↦ rw holds refl
        ]

  pub on_choice-plain :
      (i : ℕ) (c : Choice) (m : CompletionDelta)
      → tool_deltas m.semantic ≡ []
      → let (state, delta) = update is_space c.state m.text m.finish_reason in
        ◌≡◌ {A = Choice × List Chunk}
          (on_choice is_space i c m)
          (pass_text i (record c { state = state }) m delta)
  unfolding on_choice
  on_choice-plain i c m h = rw (h, on_choice)

  alone-follow :
      (i : ℕ) (c : Choice) {ms : List CompletionDelta} {pieces : List Str}
      → Grows c.state.text ms pieces
      → let (c', chunks) = alone is_space i c ms in
        let (s, sent) = follow is_space (erase c.state) pieces in
        (erase c'.state ≡ s) × (contents chunks ≡ sent) × (c'.semantic_seen ≡ c.semantic_seen)
  unfolding alone follow pass_text update
  alone-follow i c begun = (refl, unfold contents in refl, refl)
  alone-follow i c {ms = m ∷ ms} {pieces = piece ∷ pieces} (grown p q rest) =
      let whole = c.state.text ++ piece in
      let plain = on_choice-plain i c m q in
      let (same, delta) = update-erase c.state m.text m.finish_reason in
      let (c1, chunks) = on_choice is_space i c m in
      let text_is =
        ap (λ t. t.0.state.text) plain ∙ update-text c.state m.text m.finish_reason ∙ p in
      let state_is =
        ap (λ t. erase t.0.state) plain
        ∙ same
        ∙ ap (λ t. (update is_space (erase c.state) t none).0) p in
      let sent_is =
        ap (λ t. contents t.1) plain
        ∙ contents-pass_text i
            (record c { state = (update is_space c.state m.text m.finish_reason).0 }) m _
        ∙ ap or_nothing (delta ∙ ap (λ t. (update is_space (erase c.state) t none).1) p) in
      let (state, sent, seen) =
        alone-follow i c1 (subst (λ t. Grows t ms pieces) (sym text_is) rest) in
      (
        state ∙ ap (λ s. (follow is_space s pieces).0) state_is,
        contents-append chunks (alone is_space i c1 ms).1
            ∙ rw (sent_is, sent)
                (ap
                  (λ s.
                    or_nothing (update is_space (erase c.state) whole none).1
                    ++ (follow is_space s pieces).1)
                  state_is),
        seen ∙ ap (λ t. t.0.semantic_seen) plain,
      )

  module _ (parse : Str → Option (List ToolCall)) where
    -- What is sent when a choice whose output is text is closed.
    close_choice-text :
        (semantic : Bool) (i : ℕ) (c : Choice) (whole : Str)
        → c.semantic_seen ≡ false
        → (finalize is_space parse c.state).0 ≡ text_output whole
        → close_choice is_space parse semantic i c
          ≡ some (
              with_finish is_space parse i (
                close_text is_space parse i c
                  (text_output whole)
                  (finalize is_space parse c.state).1))
    unfolding close_choice
    close_choice-text semantic i c whole seen out = elim (Bool-cases semantic) [
      | inl parses ↦ rw (seen, out, parses, close_choice) refl
      | inr legacy ↦ rw (seen, out, legacy, close_choice) refl
    ]

    close_choice-contents :
        (semantic : Bool) (i : ℕ) (c : Choice) (whole : Str) {own : List Chunk}
        → c.semantic_seen ≡ false
        → (finalize is_space parse c.state).0 ≡ text_output whole
        → close_choice is_space parse semantic i c ≡ some own
        → contents own ≡ or_nothing (finalize is_space parse c.state).1
    unfolding close_text contents
    close_choice-contents semantic i c whole {own} seen out h =
        let held = (finalize is_space parse c.state).1 in
        let told = close_text is_space parse i c (text_output whole) held in
        let own_is : own ≡ with_finish is_space parse i told =
          cc (sym h ∙ close_choice-text semantic i c whole seen out) in
        rw own_is (
          contents-append told.0 (finish i told.1 ∷ [])
          ∙ append-nil (contents told.0)
          ∙ contents-text_chunk i held (logprobs_from c.logprob_count c.last_logprobs))

    follow-has :
        (s : StreamState) (pieces : List Str)
        → (follow is_space s pieces).0.has_tool_definitions ≡ s.has_tool_definitions
    unfolding follow
    follow-has s [] = refl
    follow-has s (piece ∷ pieces) =
        let s1 = (update is_space s (s.text ++ piece) none).0 in
        follow-has s1 pieces ∙ update-has s (s.text ++ piece) none

    -- A choice streams with others, and the engine and the stream end as they should. When the choice
    -- carries its whole text each time, without deltas of tool calls, and the text it ends with
    -- counts as text, then the content of its chunks is that text but for white text at the front.
    pub stream_text :
        (req : Request) (outputs : List GenerateOutput) (i : ℕ) (pieces : List Str)
        → i < req.n
        → (stream_chat_completion is_space parse req outputs ended).1 ≡ ended
        → Grows [] (completions_of i (all_completions outputs)) pieces
        → normalize_assistant_output is_space parse (joined pieces) req.has_tool_definitions
          ≡ text_output (joined pieces)
        → (skipped : Str) × (is_blank is_space skipped ≡ true)
          × (joined pieces
              ≡ skipped
                ++ contents
                    (for_choice i (stream_chat_completion is_space parse req outputs ended).0))
    unfolding contents new_choice new_state finalize
    stream_text req outputs i pieces h e grows out =
        let has = req.has_tool_definitions in
        let mine = completions_of i (all_completions outputs) in
        let (own, closes, found) = stream_alone is_space parse req outputs i h e in
        let (c, chunks) = alone is_space i (new_choice has) mine in
        let (state, sent, seen) = alone-follow i (new_choice has) grows in
        let final = (follow is_space (new_state has) pieces).0 in
        let normal : (finalize is_space parse final).0 ≡ text_output (joined pieces) =
          ap (λ t. normalize_assistant_output is_space parse t final.has_tool_definitions)
            (follow-text is_space (new_state has) pieces)
          ∙ ap (λ b. normalize_assistant_output is_space parse (joined pieces) b)
              (follow-has (new_state has) pieces)
          ∙ out in
        let (whole, (skipped, white, parts)) =
          streamed_lem is_space parse has pieces (joined pieces) normal in
        let finals = ap (finalize is_space parse) state in
        let closing =
          close_choice-contents req.semantic_tool_parsing i c (joined pieces) seen
            (ap (λ t. t.0) finals ∙ normal) closes in
        let together =
          ap contents found
          ∙ contents-append chunks own
          ∙ rw (sent, closing)
              (ap (λ t. (follow is_space (new_state has) pieces).1 ++ or_nothing t.1) finals) in
        (skipped, white, parts ∙ ap (λ t. skipped ++ t) (sym together))
