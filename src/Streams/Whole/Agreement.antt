-- ===== src/Streams/Whole/Agreement.antt =====
-- A response that is streamed and one that is not tell the same.
use vfront.Common.{
  ℕ, ◌<◌, Str, List, [], ◌∷◌, ◌++◌, Bool, true, false, not, ◌&&◌, Option, none, some, codes, ◌≡◌,
  refl, sym, ap, ◌∙◌, inl, inr, Bool-cases, all, drop, length, if◌then◌else◌, arith,
}
use vfront.Output.{
  StreamState, AssistantOutput, text_output, tool_output, is_empty, is_text, decided, update,
  normalize_assistant_output, parse_tool_calls_if_present, looks_like_tool_call_prefix, finalize,
  new_state,
}
use vfront.Streams.{
  ParsedToolCall, build_tool_calls_from_parsed, CompletionDelta, SemanticToolCallDelta,
  GenerateOutput, ToolCall, map_finish_reason,
}
use vfront.Streams.Choices.{Chunk, finish, Choice, new_choice}
use vfront.Streams.Chat.{
  Request, ended, tool_deltas, logprobs_from, semantic_content, pass_text, text_chunk,
  tool_call_chunks, on_choice, close_text, close_choice, with_finish, is_tool_output,
  stream_chat_completion,
}
use vfront.Streams.Chat.Alone.{
  Admits, on_choice-all, all-append, text_chunk-all, for_choice, all_completions, completions_of,
  alone, alone-append,
}
use vfront.Streams.Chat.Text.{on_choice-plain, update-has, update-text}
use vfront.Streams.Chat.Closing.{stream_alone}
use vfront.Streams.Whole.Reading.{
  tells, nameless, told, told_calls, reading, any_reading, output_reading, told-append, told_none,
  output_of-reading, heads-reading, tells-tool_call_chunks,
}
use vfront.Streams.Whole.{ChatChoice, or_text, choice_of, from_text, chat_choice}

-- A completion without deltas of tool calls.
abbrev pub is_plain : CompletionDelta → Bool
is_plain m = elim (tool_deltas m.semantic) [ [] ↦ true | _ ∷ _ ↦ false ]

no_deltas : (m : CompletionDelta) → is_plain m ≡ true → tool_deltas m.semantic ≡ []
no_deltas m h = by_list (tool_deltas m.semantic) h
  where
    by_list :
        (l : List SemanticToolCallDelta)
        → (let plain : Bool = elim l [ [] ↦ true | _ ∷ _ ↦ false ] in plain) ≡ true
        → l ≡ []
    by_list [] h = refl
    by_list (d ∷ l) h = absurd (cc h)

silent-Admits : (i : ℕ) → Admits (λ c. not (tells c)) i
unfolding tells
silent-Admits i = record {
  on_content = λ s lps. refl;
  on_reasoning = λ s. refl;
  on_tool_delta = λ d. refl;
}

module _ (is_space : ℕ → Bool) where
  alone-silent :
      (i : ℕ) (c : Choice) (ms : List CompletionDelta)
      → all (λ c. not (tells c)) (alone is_space i c ms).1 ≡ true
  unfolding alone
  alone-silent i c [] = refl
  alone-silent i c (m ∷ ms) =
      let (c1, chunks) = on_choice is_space i c m in
      all-append (λ c. not (tells c)) chunks (alone is_space i c1 ms).1
        (on_choice-all (λ c. not (tells c)) i (silent-Admits i) is_space c m) (alone-silent i c1 ms)

  -- What the closing of a choice reads of it.
  record IsLike (has : Bool) (c : Choice) : Type 0 where
    same_tools : c.state.has_tool_definitions ≡ has
    no_calls_yet : c.semantic_seen ≡ false

  on_choice-IsLike :
      (has : Bool) (i : ℕ) (c : Choice) (m : CompletionDelta)
      → is_plain m ≡ true
      → IsLike has c
      → IsLike has (on_choice is_space i c m).0
  unfolding pass_text
  on_choice-IsLike has i c m plain like =
      let step = on_choice-plain is_space i c m (no_deltas m plain) in
      record {
        same_tools =
            ap (λ t. t.0.state.has_tool_definitions) step
            ∙ update-has is_space c.state m.text m.finish_reason
            ∙ like.same_tools;
        no_calls_yet = ap (λ t. t.0.semantic_seen) step ∙ like.no_calls_yet;
      }

  on_choice-state :
      (i : ℕ) (c : Choice) (m : CompletionDelta)
      → is_plain m ≡ true
      → (on_choice is_space i c m).0.state ≡ (update is_space c.state m.text m.finish_reason).0
  unfolding pass_text
  on_choice-state i c m plain =
      ap (λ t. t.0.state) (on_choice-plain is_space i c m (no_deltas m plain))

  alone-IsLike :
      (has : Bool) (i : ℕ) (c : Choice) (ms : List CompletionDelta)
      → all is_plain ms ≡ true
      → IsLike has c
      → IsLike has (alone is_space i c ms).0
  unfolding alone
  alone-IsLike has i c [] plain like = like
  alone-IsLike has i c (m ∷ ms) plain like =
      alone-IsLike has i (on_choice is_space i c m).0 ms (ground arith)
        (on_choice-IsLike has i c m (ground arith) like)

  update-reason :
      (s : StreamState) (text reason : Str)
      → (update is_space s text (some reason)).0.finish_reason ≡ some reason
  unfolding update
  update-reason s text reason =
      elim (Bool-cases
        (not (is_empty (drop (length s.text) text)) && is_text (decided is_space s text))) [
          | inl sends ↦ rw sends refl
          | inr holds ↦ rw holds refl
        ]

  normalize-reading :
      (parse parse' : Str → Option (List ToolCall)) (s : Str) (has : Bool)
      → any_reading (parse s) ≡ any_reading (parse' s)
      → output_reading (normalize_assistant_output is_space parse s has)
        ≡ output_reading (normalize_assistant_output is_space parse' s has)
  unfolding normalize_assistant_output parse_tool_calls_if_present
  normalize-reading parse parse' s false same = refl
  normalize-reading parse parse' s true same =
      elim (Bool-cases (looks_like_tool_call_prefix is_space s)) [
        | inl calls ↦ rw calls (output_of-reading is_space parse parse' s (parse s) (parse' s) same)
        | inr other ↦ rw other refl
      ]

  module _ (parse parse' : Str → Option (List ToolCall)) (fresh : ℕ → Str) where
    text_told :
        (i : ℕ) (c : Choice) (held reason : Option Str) {own : List Chunk}
        → c.state.finish_reason ≡ reason
        → own
          ≡ text_chunk i held (logprobs_from c.logprob_count c.last_logprobs)
            ++ finish i (map_finish_reason c.state.finish_reason) ∷ []
        → told own ≡ finish i (map_finish_reason reason) ∷ []
    unfolding tells nameless
    text_told i c held reason r e =
        let said = text_chunk i held (logprobs_from c.logprob_count c.last_logprobs) in
        let tail = finish i (map_finish_reason c.state.finish_reason) ∷ [] in
        rw e (
          told-append said tail
          ∙ rw (told_none said (text_chunk-all (λ c. not (tells c)) i (silent-Admits i) held _))
              (ap (λ t. finish i (map_finish_reason t) ∷ []) r))

    -- The closing chunks against the choice that is not streamed, by what the text is taken for.
    agree :
        (semantic : Bool) (i : ℕ) (c : Choice) (m : CompletionDelta) (held : Option Str)
        (out out' : AssistantOutput ToolCall) {own : List Chunk}
        → output_reading out ≡ output_reading out'
        → c.state.finish_reason ≡ m.finish_reason
        → (if semantic && is_tool_output is_space parse out
            then none
            else some (with_finish is_space parse i (close_text is_space parse i c out held)))
          ≡ some own
        → (w : ChatChoice) × (from_text is_space parse' fresh semantic m out' ≡ some w)
          × (told own ≡ told_calls i w.tool_calls ++ finish i w.finish_reason ∷ [])
    unfolding from_text close_text tells nameless
    agree true i c m held (tool_output calls) out' same r h = absurd (cc h)
    agree false i c m held (tool_output calls) (text_output s) same r h = absurd (cc same)
    agree false i c m held (tool_output calls) (tool_output calls') {own} same r h =
        let tail = finish i (some (codes "tool_calls")) ∷ [] in
        let own_is : own ≡ tool_call_chunks i 0 calls ++ tail = cc h in
        let read : reading calls ≡ reading calls' = cc same in
        (
          _,
          refl,
          rw own_is (
              told-append (tool_call_chunks i 0 calls) tail
              ∙ ap (λ t. t ++ tail)
                  (tells-tool_call_chunks i 0 calls ∙ heads-reading i 0 calls calls' read)),
        )
    agree semantic i c m held (text_output s) (tool_output calls) same r h = absurd (cc same)
    agree true i c m held (text_output s) (text_output s') {own} same r h =
        (_, refl, text_told i c held m.finish_reason {own = own} r (cc h))
    agree false i c m held (text_output s) (text_output s') {own} same r h =
        (_, refl, text_told i c held m.finish_reason {own = own} r (cc h))

    close_unseen :
        (semantic : Bool) (i : ℕ) (c : Choice)
        → c.semantic_seen ≡ false
        → close_choice is_space parse semantic i c ≡ (
            let out =
              normalize_assistant_output is_space parse c.state.text c.state.has_tool_definitions in
            if semantic && is_tool_output is_space parse out
            then none
            else some (
                with_finish is_space parse i
                  (close_text is_space parse i c out (finalize is_space parse c.state).1)))
    unfolding close_choice finalize
    close_unseen semantic i c seen = rw (seen, close_choice) refl

    chat_choice_plain :
        (has semantic : Bool) (m : CompletionDelta)
        → m.parsed_tool_calls ≡ none
        → chat_choice is_space parse' fresh has semantic m
          ≡ from_text is_space parse' fresh semantic m
              (normalize_assistant_output is_space parse' m.text has)
    unfolding chat_choice
    chat_choice_plain has semantic m h =
        ap
          (λ (parsed : Option (List ParsedToolCall)). elim parsed [
            | some items ↦ some (
                choice_of is_space parse' fresh m
                  (some (or_text (semantic_content m.semantic) m.text))
                  (build_tool_calls_from_parsed fresh items) (some (codes "tool_calls")))
            | none ↦
                from_text is_space parse' fresh semantic m
                  (normalize_assistant_output is_space parse' m.text has)
          ])
          h

    -- A choice that was asked for streams, in a stream that ends as it should, without deltas of
    -- tool calls to a last completion that carries no calls that the engine has parsed and has a
    -- reason to finish. Then this completion, not streamed, makes a choice. The calls that the chunks
    -- tell, in their places, with their names and their arguments, and the one reason are those of
    -- this choice, where two readings of its text agree on names and arguments. The ids of the calls
    -- are drawn anew and are not compared.
    pub stream_agrees :
        (req : Request) (outputs : List GenerateOutput) (i : ℕ) (earlier : List CompletionDelta)
        (m : CompletionDelta) (reason : Str)
        → i < req.n
        → (stream_chat_completion is_space parse req outputs ended).1 ≡ ended
        → completions_of i (all_completions outputs) ≡ earlier ++ m ∷ []
        → all is_plain earlier ≡ true
        → is_plain m ≡ true
        → m.parsed_tool_calls ≡ none
        → m.finish_reason ≡ some reason
        → any_reading (parse m.text) ≡ any_reading (parse' m.text)
        → (w : ChatChoice) × (chat_choice is_space parse' fresh req.has_tool_definitions
              req.semantic_tool_parsing m
            ≡ some w)
          × (told (for_choice i (stream_chat_completion is_space parse req outputs ended).0)
              ≡ told_calls i w.tool_calls ++ finish i w.finish_reason ∷ [])
    unfolding alone new_choice new_state tells nameless
    stream_agrees req outputs i earlier m reason h e mine plain plain_m no_calls ends reads =
        let has = req.has_tool_definitions in
        let semantic = req.semantic_tool_parsing in
        let (own, closes, found) = stream_alone is_space parse req outputs i h e in
        let before = (alone is_space i (new_choice has) earlier).0 in
        let like = on_choice-IsLike has i before m plain_m (
          alone-IsLike has i (new_choice has) earlier plain
            (record { same_tools = refl; no_calls_yet = refl })) in
        let c = (on_choice is_space i before m).0 in
        let all_of_it =
          ap (alone is_space i (new_choice has)) mine
          ∙ alone-append is_space i (new_choice has) earlier (m ∷ []) in
        let step = on_choice-state i before m plain_m in
        let text_is : c.state.text ≡ m.text =
          ap (λ t. t.text) step ∙ update-text is_space before.state m.text m.finish_reason in
        let reason_is : c.state.finish_reason ≡ m.finish_reason =
          ap (λ t. t.finish_reason) step
          ∙ ap (λ r. (update is_space before.state m.text r).0.finish_reason) ends
          ∙ update-reason before.state m.text reason
          ∙ sym ends in
        let out =
          normalize_assistant_output is_space parse c.state.text c.state.has_tool_definitions in
        let out_is : out ≡ normalize_assistant_output is_space parse m.text has =
          rw (text_is, like.same_tools) refl in
        let out' = normalize_assistant_output is_space parse' m.text has in
        let same = ap output_reading out_is ∙ normalize-reading parse parse' m.text has reads in
        let closes_so =
          sym (close_unseen semantic i c like.no_calls_yet)
          ∙ ap (λ t. close_choice is_space parse semantic i t.0) (sym all_of_it)
          ∙ closes in
        let (w, whole, tells_so) =
          agree semantic i c m (finalize is_space parse c.state).1 out out' {own = own} same
            reason_is closes_so in
        let streamed =
          (alone is_space i (new_choice has) (completions_of i (all_completions outputs))).1 in
        let silent =
          told_none streamed
            (alone-silent i (new_choice has) (completions_of i (all_completions outputs))) in
        (
          w,
          chat_choice_plain has semantic m no_calls ∙ whole,
          ap told found ∙ told-append streamed own ∙ ap (λ t. t ++ told own) silent ∙ tells_so,
        )
