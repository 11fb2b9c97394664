-- ===== src/Streams/Collect/Left.antt =====
-- What a round leaves to its caller.
use vfront.Common.{
  ℕ, Str, List, [], ◌∷◌, ◌++◌, Bool, true, false, ◌==◌, Option, none, some, ◌≡◌, refl, sym, ap, ◌∙◌,
  inl, inr, Bool-cases, all, subst, map, keep-append, starts_with, if◌then◌else◌, arith,
}
use vfront.Output.{
  StreamState, new_state, update, normalize_assistant_output, finalize, parse_tool_calls_if_present,
  looks_like_tool_call_prefix, lstrip,
}
use vfront.Streams.{
  ParsedToolCall, CompletionDelta, GenerateOutput, SemanticToolCallDelta, ToolCall,
}
use vfront.Streams.Choices.{Chunk, tool_delta, lookup, store}
use vfront.Streams.Choices.Laws.{lookup-store, lookup-store_other}
use vfront.Streams.Chat.{ended, tool_deltas, semantic_content, text_chunk}
use vfront.Streams.Chat.Alone.{all_completions, completions_of}
use vfront.Streams.Chat.Text.{update-has, update-text}
use vfront.Streams.Legacy.Text.{last_text, last_text-append}
use vfront.Streams.Collect.{
  Round, Rounds, new_round, find, keep_parsed, round_text, round_choice, round_completions,
  round_outputs, some_calls, calls_in, left_of, stream_and_collect,
}

-- A completion without calls that the engine has parsed.
abbrev pub is_unparsed : CompletionDelta → Bool
is_unparsed m = elim m.parsed_tool_calls [ none ↦ true | some items ↦ false ]

abbrev left_as : Str → List ToolCall → Str × List ToolCall
left_as text calls = (text, calls)

-- What a table has for a key, and what it would start from.
find_lem :
    (i : ℕ) (default : Round) (l : Rounds)
    → elim (find i l) [ none ↦ default | some c ↦ c ] ≡ lookup i default l
unfolding find lookup
find_lem i default [] = refl
find_lem i default ((j, c) ∷ l) = ground (arith, find_lem i default l)

module _ (fresh : CompletionDelta → ℕ → Str) (is_space : ℕ → Bool) (has : Bool) where
  -- A choice that has come to a text, with no calls parsed.
  record IsAt (text : Str) (c : Round) : Type 0 where
    same_tools : c.state.has_tool_definitions ≡ has
    text_is : c.state.text ≡ text
    none_parsed : c.parsed ≡ []

  nothing_parsed :
      (m : CompletionDelta) (old : List ToolCall)
      → is_unparsed m ≡ true
      → keep_parsed fresh m m.parsed_tool_calls old ≡ old
  unfolding keep_parsed
  nothing_parsed m old h = by_option m.parsed_tool_calls h
    where
      by_option :
          (o : Option (List ParsedToolCall))
          → (let unparsed : Bool = elim o [ none ↦ true | some items ↦ false ] in unparsed) ≡ true
          → keep_parsed fresh m o old ≡ old
      by_option none h = refl
      by_option (some items) h = absurd (cc h)

  round_choice-IsAt :
      (i : ℕ) (c : Round) (m : CompletionDelta) (text : Str)
      → is_unparsed m ≡ true
      → IsAt text c
      → IsAt m.text (round_choice fresh is_space i c m).0
  unfolding round_choice round_text
  round_choice-IsAt i c m text h at_text =
      by_deltas (tool_deltas m.semantic) (update is_space c.state m.text m.finish_reason)
        (keep_parsed fresh m m.parsed_tool_calls c.parsed)
        (update-has is_space c.state m.text m.finish_reason ∙ at_text.same_tools)
        (update-text is_space c.state m.text m.finish_reason)
        (nothing_parsed m c.parsed h ∙ at_text.none_parsed)
    where
      by_deltas :
          (deltas : List SemanticToolCallDelta) (u : StreamState × Option Str)
          (parsed : List ToolCall)
          → u.0.has_tool_definitions ≡ has
          → u.0.text ≡ m.text
          → parsed ≡ []
          → let next = record c { state = u.0; parsed = parsed } in
            let stepped : Round × List Chunk = elim deltas [
              | [] ↦ round_text fresh is_space i next m u.1
              | d ∷ ds ↦ (
                record next { semantic_seen = true },
                text_chunk i (semantic_content m.semantic) none ++ map (tool_delta i) (d ∷ ds),
              )
            ] in
            IsAt m.text stepped.0
      by_deltas [] u parsed p q r = record { same_tools = p; text_is = q; none_parsed = r }
      by_deltas (d ∷ ds) u parsed p q r = record { same_tools = p; text_is = q; none_parsed = r }

  at_choice : ℕ → Rounds → Round
  at_choice i l = lookup i (new_round has) l

  round_completions-IsAt :
      (i : ℕ) (l : Rounds) (ms : List CompletionDelta) (text : Str)
      → all is_unparsed (completions_of i ms) ≡ true
      → IsAt text (at_choice i l)
      → IsAt
          (last_text text (completions_of i ms))
          (at_choice i (round_completions fresh is_space has l ms).0)
  unfolding round_completions at_choice
  round_completions-IsAt i l [] text h at_text = at_text
  round_completions-IsAt i l (m ∷ ms) text h at_text =
      let c = lookup m.index (new_round has) l in
      let c' = (round_choice fresh is_space m.index c m).0 in
      let l' = store m.index c' l in
      elim (Bool-cases (i == m.index)) [
        | inl here ↦
            let e : i ≡ m.index = ground (arith, here) in
            let own : all is_unparsed (m ∷ completions_of i ms) ≡ true = rw here at h in
            let own_at : IsAt text c =
              subst (λ j. IsAt text (lookup j (new_round has) l)) e at_text in
            let stepped : IsAt m.text c' =
              round_choice-IsAt m.index c m text (ground (arith, own)) own_at in
            let stored =
              ap (λ j. lookup j (new_round has) l') e ∙ lookup-store m.index (new_round has) c' l in
            rw here (
              round_completions-IsAt i l' ms m.text (ground (arith, own))
                (subst (IsAt m.text) (sym stored) stepped))
        | inr other ↦
            let rest : all is_unparsed (completions_of i ms) ≡ true = rw other at h in
            let kept = lookup-store_other m.index i (new_round has) c' l other in
            rw other
              (round_completions-IsAt i l' ms text rest (subst (IsAt text) (sym kept) at_text))
      ]

  round_outputs-IsAt :
      (i : ℕ) (l : Rounds) (outputs : List GenerateOutput) (text : Str)
      → all is_unparsed (completions_of i (all_completions outputs)) ≡ true
      → IsAt text (at_choice i l)
      → IsAt
          (last_text text (completions_of i (all_completions outputs)))
          (at_choice i (round_outputs fresh is_space has l outputs).0)
  unfolding round_outputs
  round_outputs-IsAt i l [] text h at_text = at_text
  round_outputs-IsAt i l (output ∷ outputs) text h at_text =
      let now = completions_of i output.outputs in
      let rest = completions_of i (all_completions outputs) in
      let parts =
        keep-append (λ (m : CompletionDelta). i == m.index) output.outputs
          (all_completions outputs) in
      let (here, there) = all-append_back now rest (ap (all is_unparsed) (sym parts) ∙ h) in
      let l1 = (round_completions fresh is_space has l output.outputs).0 in
      subst (λ t. IsAt t (at_choice i (round_outputs fresh is_space has l1 outputs).0))
        (sym (last_text-append text now rest) ∙ ap (last_text text) (sym parts))
        (round_outputs-IsAt i l1 outputs (last_text text now) there
          (round_completions-IsAt i l output.outputs text here at_text))
    where
      all-append_back :
          (a b : List CompletionDelta)
          → all is_unparsed (a ++ b) ≡ true
          → (all is_unparsed a ≡ true) × (all is_unparsed b ≡ true)
      all-append_back [] b h = (refl, h)
      all-append_back (x ∷ a) b h =
          let (here, there) = all-append_back a b (ground arith) in (ground (arith, h, here), there)

  module _ (parse : Str → Option (List ToolCall)) where
    nothing_in :
        (b : Bool)
        → calls_in fresh is_space parse (normalize_assistant_output is_space parse [] b) ≡ []
    unfolding normalize_assistant_output parse_tool_calls_if_present looks_like_tool_call_prefix
        lstrip starts_with
    nothing_in true = refl
    nothing_in false = refl

    abbrev found : Str → Str × List ToolCall
    found text =
        (text, calls_in fresh is_space parse (normalize_assistant_output is_space parse text has))

    left_lem :
        (o : Option Round) (text : Str)
        → IsAt text (elim o [ none ↦ new_round has | some c ↦ c ])
        → left_of fresh is_space parse o ≡ found text
    unfolding finalize new_round new_state
    left_lem none text at_text = ap (left_as []) (sym (nothing_in has)) ∙ ap found at_text.text_is
    left_lem (some c) text at_text =
        ap
          (λ (parsed : List ToolCall). left_as c.state.text (
            if some_calls parsed
            then parsed
            else calls_in fresh is_space parse (
                normalize_assistant_output is_space parse c.state.text
                  c.state.has_tool_definitions)))
          at_text.none_parsed
        ∙ ap
            (λ (b : Bool). left_as c.state.text (
              calls_in fresh is_space parse
                (normalize_assistant_output is_space parse c.state.text b)))
            at_text.same_tools
        ∙ ap found at_text.text_is

    -- When the engine ends, and has parsed no calls of choice 0 itself, what a round leaves to its caller is
    -- the text of the last completion of choice 0, and the calls that this text is read as; nothing,
    -- when there is no such completion.
    pub stream_and_collect-left :
        (outputs : List GenerateOutput)
        → all is_unparsed (completions_of 0 (all_completions outputs)) ≡ true
        → let text = last_text [] (completions_of 0 (all_completions outputs)) in
          (stream_and_collect fresh is_space parse has outputs ended).1
          ≡ some (
            text,
            calls_in fresh is_space parse (normalize_assistant_output is_space parse text has),
          )
    unfolding stream_and_collect at_choice new_round new_state lookup
    stream_and_collect-left outputs h =
        let l = (round_outputs fresh is_space has [] outputs).0 in
        let text = last_text [] (completions_of 0 (all_completions outputs)) in
        let start : IsAt [] (at_choice 0 []) = record {
          same_tools = refl;
          text_is = refl;
          none_parsed = refl;
        } in
        ap (λ (t : Str × List ToolCall). some t)
          (left_lem (find 0 l) text (
            subst (IsAt text) (sym (find_lem 0 (new_round has) l))
              (round_outputs-IsAt 0 [] outputs [] h start)))
