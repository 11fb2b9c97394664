-- ===== src/Streams/Legacy/Text.antt =====
-- The texts that a client of `stream_completion` puts together.
use vfront.Common.{
  ℕ, Str, List, [], ◌∷◌, ◌++◌, Bool, true, false, ◌&&◌, Option, none, some, ◌≡◌, refl, sym, ap, ◌∙◌,
  inl, inr, Bool-cases, length, drop, keep-append, starts_with, ◌==◌, if◌then◌else◌, arith,
}
use mathlib.Core.List.{append_assoc, append-nil}
use vfront.Streams.{CompletionDelta, GenerateOutput}
use vfront.Streams.Choices.{
  Chunk, role, content, reasoning, tool_delta, call_head, call_arguments, finish, usage,
  stream_error, done, lookup, store,
}
use vfront.Streams.Choices.Laws.{lookup-store, lookup-store_other}
use vfront.Streams.Chat.{Outcome, ended, failed, interrupted}
use vfront.Streams.Chat.Alone.{all_completions, completions_of}
use vfront.Streams.Legacy.{
  Progress, Seen, nothing_seen, delta_chunk, finish_chunk, take_completion, take_completions,
  take_outputs, completion_end, completion_usage, at_start, stream_completion,
}

-- The text that the chunks of one choice make.
unfoldable pub text_of : ℕ → List Chunk → Str
text_of i [] = []
text_of i (content j s lps ∷ l) = let rest = text_of i l in if i == j then s ++ rest else rest
text_of i (_ ∷ l) = text_of i l

text_of-append : (i : ℕ) (a b : List Chunk) → text_of i (a ++ b) ≡ text_of i a ++ text_of i b
unfolding text_of
text_of-append i [] b = refl
text_of-append i (content j s lps ∷ a) b = elim (Bool-cases (i == j)) [
  | inl here ↦ rw (here, text_of-append i a b) (sym (append_assoc s (text_of i a) (text_of i b)))
  | inr other ↦ rw other (text_of-append i a b)
]
text_of-append i (role j ∷ a) b = text_of-append i a b
text_of-append i (reasoning j s ∷ a) b = text_of-append i a b
text_of-append i (tool_delta j d ∷ a) b = text_of-append i a b
text_of-append i (call_head j k id name ∷ a) b = text_of-append i a b
text_of-append i (call_arguments j k s ∷ a) b = text_of-append i a b
text_of-append i (finish j reason ∷ a) b = text_of-append i a b
text_of-append i (usage u ∷ a) b = text_of-append i a b
text_of-append i (stream_error ∷ a) b = text_of-append i a b
text_of-append i (done ∷ a) b = text_of-append i a b

-- Each completion of a choice carries the text of the one before, and more.
unfoldable pub extends : Str → List CompletionDelta → Bool
extends s [] = true
extends s (m ∷ ms) = starts_with s m.text && extends m.text ms

abbrev pub last_text : Str → List CompletionDelta → Str
last_text s [] = s
last_text s (m ∷ ms) = last_text m.text ms

pub last_text-append :
    (s : Str) (a b : List CompletionDelta) → last_text s (a ++ b) ≡ last_text (last_text s a) b
last_text-append s [] b = refl
last_text-append s (m ∷ a) b = last_text-append m.text a b

starts_with-drop : (s t : Str) → starts_with s t ≡ true → s ++ drop (length s) t ≡ t
unfolding starts_with
starts_with-drop [] t h = refl
starts_with-drop (c ∷ s) [] h = absurd (cc h)
starts_with-drop (c ∷ s) (d ∷ t) h =
    let rest = starts_with-drop s t (ground arith) in ground (arith, h, rest)

text_of-delta_chunk : (i : ℕ) (s : Str) → text_of i (delta_chunk i s) ≡ s
unfolding text_of
text_of-delta_chunk i [] = refl
text_of-delta_chunk i (c ∷ s) =
    let self : (i == i) ≡ true = ground arith in rw self (append-nil (c ∷ s))

text_of-delta_chunk_other :
    (i j : ℕ) (s : Str) → (i == j) ≡ false → text_of i (delta_chunk j s) ≡ []
unfolding text_of
text_of-delta_chunk_other i j [] h = refl
text_of-delta_chunk_other i j (c ∷ s) h = rw h refl

text_of-finish_chunk : (i j : ℕ) (reason : Option Str) → text_of i (finish_chunk j reason) ≡ []
unfolding text_of
text_of-finish_chunk i j none = refl
text_of-finish_chunk i j (some reason) = refl

extends-append :
    (s : Str) (a b : List CompletionDelta)
    → extends s (a ++ b) ≡ true
    → (extends s a ≡ true) × (extends (last_text s a) b ≡ true)
unfolding extends
extends-append s [] b h = (refl, h)
extends-append s (m ∷ a) b h =
    let (here, there) = extends-append m.text a b (ground arith) in (ground (arith, h, here), there)

module _ (i : ℕ) where
  abbrev text_seen : Progress → Str
  text_seen p = (lookup i nothing_seen p.seen).text

  -- What a completion sends of the choice, and what it leaves to be remembered.
  own_step :
      (p : Progress) (m : CompletionDelta)
      → (i == m.index) ≡ true
      → starts_with (text_seen p) m.text ≡ true
      → let (p1, chunks) = take_completion p m in
        (text_seen p1 ≡ m.text) × (text_seen p ++ text_of i chunks ≡ m.text)
  unfolding take_completion
  own_step p m h grows =
      let j = m.index in
      let e : i ≡ j = ground (arith, h) in
      let next : Seen = record { text = m.text; token_count = length m.token_ids } in
      let delta = drop (length (lookup j nothing_seen p.seen).text) m.text in
      let sent = text_of-append j (delta_chunk j delta) (finish_chunk j m.finish_reason) in
      (
        ap (λ k. (lookup k nothing_seen (store j next p.seen)).text) e
            ∙ ap (λ d. d.text) (lookup-store j nothing_seen next p.seen),
        ap (λ t. text_seen p ++ t)
              (ap (λ k. text_of k (delta_chunk j delta ++ finish_chunk j m.finish_reason)) e
                ∙ sent
                ∙ rw (text_of-delta_chunk j delta, text_of-finish_chunk j j m.finish_reason)
                    (append-nil delta)
                ∙ ap (λ k. drop (length (lookup k nothing_seen p.seen).text) m.text) (sym e))
            ∙ starts_with-drop (text_seen p) m.text grows,
      )

  other_step :
      (p : Progress) (m : CompletionDelta)
      → (i == m.index) ≡ false
      → let (p1, chunks) = take_completion p m in
        (text_seen p1 ≡ text_seen p) × (text_of i chunks ≡ [])
  unfolding take_completion
  other_step p m h =
      let j = m.index in
      let next : Seen = record { text = m.text; token_count = length m.token_ids } in
      let delta = drop (length (lookup j nothing_seen p.seen).text) m.text in
      (
        ap (λ d. d.text) (lookup-store_other j i nothing_seen next p.seen h),
        text_of-append i (delta_chunk j delta) (finish_chunk j m.finish_reason)
            ∙ rw (text_of-delta_chunk_other i j delta h, text_of-finish_chunk i j m.finish_reason)
                refl,
      )

  take_completions_lem :
      (p : Progress) (ms : List CompletionDelta)
      → extends (text_seen p) (completions_of i ms) ≡ true
      → let (p1, chunks) = take_completions p ms in
        (text_seen p1 ≡ last_text (text_seen p) (completions_of i ms))
        × (text_seen p ++ text_of i chunks ≡ last_text (text_seen p) (completions_of i ms))
  unfolding take_completions extends text_of
  take_completions_lem p [] h = (refl, append-nil (text_seen p))
  take_completions_lem p (m ∷ ms) h =
      let (p1, chunks) = take_completion p m in
      let more = (take_completions p1 ms).1 in
      let own = completions_of i ms in
      let split = text_of-append i chunks more in
      elim (Bool-cases (i == m.index)) [
        | inl here ↦
            let grows : (starts_with (text_seen p) m.text && extends m.text own) ≡ true =
              rw here at h in
            let (seen, sent) = own_step p m here (ground (arith, grows)) in
            let (last, all_sent) =
              take_completions_lem p1 ms (ap (λ t. extends t own) seen ∙ ground (arith, grows)) in
            let to_last = ap (λ t. last_text t own) seen in
            rw here (
              last ∙ to_last,
              ap (λ t. text_seen p ++ t) split
                  ∙ sym (append_assoc (text_seen p) (text_of i chunks) (text_of i more))
                  ∙ ap (λ t. t ++ text_of i more) (sent ∙ sym seen)
                  ∙ all_sent
                  ∙ to_last,
            )
        | inr other ↦
            let (seen, sent) = other_step p m other in
            let rest : extends (text_seen p) own ≡ true = rw other at h in
            let (last, all_sent) =
              take_completions_lem p1 ms (ap (λ t. extends t own) seen ∙ rest) in
            let to_last = ap (λ t. last_text t own) seen in
            rw other (
              last ∙ to_last,
              ap (λ t. text_seen p ++ t) (split ∙ ap (λ t. t ++ text_of i more) sent)
                  ∙ ap (λ t. t ++ text_of i more) (sym seen)
                  ∙ all_sent
                  ∙ to_last,
            )
      ]

  take_outputs_lem :
      (p : Progress) (outputs : List GenerateOutput)
      → extends (text_seen p) (completions_of i (all_completions outputs)) ≡ true
      → let (p1, chunks) = take_outputs p outputs in
        text_seen p ++ text_of i chunks
        ≡ last_text (text_seen p) (completions_of i (all_completions outputs))
  unfolding take_outputs text_of
  take_outputs_lem p [] h = append-nil (text_seen p)
  take_outputs_lem p (output ∷ outputs) h =
      let p0 = record p { prompt_tokens = length output.prompt_token_ids } in
      let (p1, chunks) = take_completions p0 output.outputs in
      let more = (take_outputs p1 outputs).1 in
      let now = completions_of i output.outputs in
      let rest = completions_of i (all_completions outputs) in
      let parts =
        keep-append (λ (m : CompletionDelta). i == m.index) output.outputs
          (all_completions outputs) in
      let (here, there) =
        extends-append (text_seen p) now rest (ap (extends (text_seen p)) (sym parts) ∙ h) in
      let (last, sent) = take_completions_lem p0 output.outputs here in
      let ih = take_outputs_lem p1 outputs (ap (λ t. extends t rest) last ∙ there) in
      ap (λ t. text_seen p ++ t) (text_of-append i chunks more)
      ∙ sym (append_assoc (text_seen p) (text_of i chunks) (text_of i more))
      ∙ ap (λ t. t ++ text_of i more) (sent ∙ sym last)
      ∙ ih
      ∙ ap (λ t. last_text t rest) last
      ∙ sym (last_text-append (text_seen p) now rest)
      ∙ ap (last_text (text_seen p)) (sym parts)

  -- However the engine is left: if each completion of a choice carries the text of the one before, and
  -- more, the text that the choice's chunks make is the text of its last completion.
  pub stream_completion-text :
      (include_usage : Bool) (outputs : List GenerateOutput) (engine : Outcome)
      → extends [] (completions_of i (all_completions outputs)) ≡ true
      → text_of i (stream_completion include_usage outputs engine)
        ≡ last_text [] (completions_of i (all_completions outputs))
  unfolding stream_completion
  stream_completion-text include_usage outputs engine h =
      let (p, chunks) = take_outputs at_start outputs in
      text_of-append i chunks (completion_end include_usage p engine)
      ∙ ap (λ t. text_of i chunks ++ t) (no_text include_usage p engine)
      ∙ append-nil (text_of i chunks)
      ∙ unfold lookup in take_outputs_lem at_start outputs h
    where
      no_text :
          (b : Bool) (p : Progress) (engine : Outcome) → text_of i (completion_end b p engine) ≡ []
      no_text true p ended = unfold text_of in unfold completion_usage in refl
      no_text false p ended = unfold text_of in refl
      no_text b p failed = unfold text_of in refl
      no_text b p interrupted = unfold text_of in refl
