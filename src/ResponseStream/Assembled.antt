-- ===== src/ResponseStream/Assembled.antt =====
-- What a client of the streamed response puts together is the output of the completed response, where
-- the semantic parser of the engine speaks (adapter/response_streaming.py).
use vfront.Common.{
  subst, Option, if◌then◌else◌, ap, ◌∙◌, sym, ◌++◌, ℕ, Str, List, [], ◌∷◌, Bool, true, false, ◌&&◌,
  ◌||◌, ◌≡◌, refl, arith,
}
use vfront.Output.{StreamState, update}
use vfront.Output.Streamed.{or_nothing}
use mathlib.Core.List.{append-nil, append_assoc}
use vfront.Streams.Chat.{ended}
use vfront.Streams.{ToolCall, GenerateOutput, CompletionDelta}
use vfront.Streams.Chat.Alone.{all_completions}
use vfront.ResponseStream.{ResponseObject, ActiveKind, no_item, message, tool_call, Sent}
use vfront.ResponseStream.Builders.{completed_response}
use vfront.ResponseStream.Steps.{
  exhausted, is_message, is_tool_call, ◌▷◌, prelude, start, complete, close_message,
  close_tool_call, next_item, Call, Run,
}
use vfront.ResponseStream.Text.{or_text}
use vfront.ResponseStream.Semantic.{close_semantic, close_reasoning}
use vfront.ResponseStream.Client.{between, hears, follows-append, complete_with, follows}
use vfront.ResponseStream.Following.{view, IsBegun, Leads, ▷-Leads, Begun}
use vfront.ResponseStream.ItemSteps.{between_is, close_message-Leads, close_tool_call-Leads}
use vfront.ResponseStream.Generate.{
  stop, conclude_text, conclude, generate_response_stream_events, on_outputs, speaks, on_completion,
  on_completions,
}
use vfront.ResponseStream.Opening.{already, prelude-follows, prelude-IsBefore, prelude-view}
use vfront.ResponseStream.Speaking.{is_absent, is_fitting, Phase, output-Leads, reasoning-Leads}

both : (a : Bool) {b : Bool} → a && b ≡ true → (a ≡ true) × (b ≡ true)
both a h = ground arith

module _ (is_space : ℕ → Bool) where
  -- Whether the engine keeps the order that the generator counts on: the reasoning comes first, and
  -- text that the semantic parser does not tell is not sent. Once it must have spoken.
  unfoldable pub is_in_turn : Bool → StreamState → Str → List CompletionDelta → Bool
  is_in_turn b s a [] = b
  is_in_turn b s a (m ∷ ms) =
      let text = or_nothing m.reasoning_text in
      let (s1, delta) = update is_space s m.text m.finish_reason in
      let rest = is_in_turn (b || speaks m.semantic) s1 (or_text text a) ms in
      is_fitting b a text && ((speaks m.semantic || is_absent delta) && rest)

  module _ (c : Call) where
    -- The semantic parser has spoken.
    abbrev HasSpoken : Run → Type 0
    HasSpoken r = (s : StreamState) × (a : Str) × Begun c s a r

    completions-Leads :
        (b : Bool) (s : StreamState) (a : Str) (ms : List CompletionDelta)
        → is_in_turn b s a ms ≡ true
        → Leads c (Phase c b s a) (on_completions c is_space ms) HasSpoken
    unfolding is_in_turn on_completions on_completion Leads follows
    completions-Leads false s a [] h = absurd (cc h)
    completions-Leads true s a [] h = λ r p. (refl, (s, a, p))
    completions-Leads b s a (m ∷ ms) h =
        let text = or_nothing m.reasoning_text in
        let (s1, delta) = update is_space s m.text m.finish_reason in
        let (fitting, more) = both _ h in
        let (quiet, rest) = both _ more in
        ▷-Leads c _ (Phase c (b || speaks m.semantic) s1 (or_text text a)) HasSpoken _ _
          (▷-Leads c _ (Phase c b s (or_text text a))
            (Phase c (b || speaks m.semantic) s1 (or_text text a)) _ _
            (reasoning-Leads c is_space b s a text fitting)
            (output-Leads c is_space b s (or_text text a) m quiet))
          (completions-Leads (b || speaks m.semantic) s1 (or_text text a) ms rest)

    -- The outputs of the engine one after another are all their completions.
    on_completions-append :
        (xs ys : List CompletionDelta) (r : Run)
        → on_completions c is_space (xs ++ ys) r
          ≡ (on_completions c is_space xs ▷ on_completions c is_space ys) r
    unfolding on_completions ◌▷◌
    on_completions-append [] ys r = refl
    on_completions-append (m ∷ xs) ys r =
        let (r1, sent) = on_completion c is_space m r in
        let (r2, more) = on_completions c is_space xs r1 in
        let (r3, last) = on_completions c is_space ys r2 in
        ap (λ (q : Run × List Sent). (q.0, sent ++ q.1)) (on_completions-append xs ys r1)
        ∙ ap (λ l. (r3, l)) (sym (append_assoc sent more last))

    on_outputs-on_completions :
        (outputs : List GenerateOutput) (r : Run)
        → on_outputs c is_space outputs r ≡ on_completions c is_space (all_completions outputs) r
    unfolding on_completions on_outputs ◌▷◌
    on_outputs-on_completions [] r = refl
    on_outputs-on_completions (output ∷ outputs) r =
        let (r1, sent) = on_completions c is_space output.outputs r in
        ap (λ (q : Run × List Sent). (q.0, sent ++ q.1)) (on_outputs-on_completions outputs r1)
        ∙ sym (on_completions-append output.outputs (all_completions outputs) r)

    -- Nothing is open after the events.
    abbrev IsFinished : Run → Run × List Sent → Type 0
    IsFinished r (r1, sent) = follows (view c r) sent ≡ between r1.completed_output_items

    abbrev close_open : ActiveKind → Run → Run × List Sent
    close_open k r =
        if is_message k
        then close_message r
        else (if is_tool_call k then close_tool_call r else (r, []))

    close_open-IsFinished :
        (s : StreamState) (a : Str) (k : ActiveKind) (r : Run)
        → IsBegun s a k r
        → IsFinished r (close_open k r)
    unfolding follows Leads next_item ◌▷◌
    close_open-IsFinished s a no_item r p = between_is c s a r p
    close_open-IsFinished s a message r p =
        let (heard, rest) = close_message-Leads c s a r p in
        ap (follows (view c r)) (sym (append-nil (close_message r).1))
        ∙ heard
        ∙ between_is c s a ((close_message ▷ next_item) r).0 rest
    close_open-IsFinished s a tool_call r p =
        let (heard, rest) = close_tool_call-Leads c s a r p in
        ap (follows (view c r)) (sym (append-nil (close_tool_call r).1))
        ∙ heard
        ∙ between_is c s a ((close_tool_call ▷ next_item) r).0 rest

    close_semantic-open :
        (r : Run)
        → r.reasoning_item_emitted ≡ false
        → close_semantic c r ≡ close_open r.active_item.kind r
    unfolding close_semantic close_reasoning ◌▷◌
    close_semantic-open r e = rw e refl

    close_semantic-IsFinished : (r : Run) → HasSpoken r → IsFinished r (close_semantic c r)
    close_semantic-IsFinished r (s, a, (k, p)) =
        subst (IsFinished r) (sym (close_semantic-open r p.3 ∙ ap (λ j. close_open j r) p.0))
          (close_open-IsFinished s a k r p)

    -- The end of the stream: the client gets the response, with what it has put together as output.
    complete-follows :
        (r : Run)
        → HasSpoken r
        → (response : ResponseObject) × (follows (view c r) ((close_semantic c ▷ complete c) r).1
            ≡ complete_with response.output response)
    unfolding ◌▷◌ complete completed_response follows hears
    complete-follows r h =
        let (r1, sent) = close_semantic c r in
        (
          _,
          follows-append (view c r) sent ((complete c) r1).1
              ∙ ap (λ client. follows client ((complete c) r1).1) (close_semantic-IsFinished r h),
        )

    module _ (parse : Str → Option (List ToolCall)) where
      -- What the client has when the outputs `q` of the engine were passed on and the stream ends.
      abbrev Delivers : Run × List Sent → Type 0
      Delivers (r, sent) =
          (response : ResponseObject) × (follows (between (already c))
              ((prelude c (start c)).1 ++ sent ++ (stop c is_space parse exhausted r).0)
            ≡ complete_with response.output response)

      stop-follows :
          (r : Run)
          → HasSpoken r
          → (response : ResponseObject) × (follows (view c r) (stop c is_space parse exhausted r).0
              ≡ complete_with response.output response)
      unfolding stop conclude
      stop-follows r (s, a, (k, p)) =
          subst
            (λ b.
              (response : ResponseObject) × (follows (view c r)
                  (if b
                    then (((close_semantic c ▷ complete c) r).1, ended)
                    else conclude_text c is_space parse r).0
                ≡ complete_with response.output response))
            (sym p.6) (complete-follows r (s, a, (k, p)))

      delivered :
          (ms : List CompletionDelta)
          → is_in_turn false (start c).text_state [] ms ≡ true
          → Delivers (on_completions c is_space ms (prelude c (start c)).0)
      unfolding Leads
      delivered ms h =
          let (r1, opening) = prelude c (start c) in
          let (r2, sent) = on_completions c is_space ms r1 in
          let (heard, spoken) =
            completions-Leads false (start c).text_state [] ms h r1 (prelude-IsBefore c) in
          let (response, finished) = stop-follows r2 spoken in
          let last = (stop c is_space parse exhausted r2).0 in
          (
            response,
            follows-append (between (already c)) (opening ++ sent) last
                ∙ ap (λ client. follows client last)
                    (follows-append (between (already c)) opening sent
                      ∙ ap (λ client. follows client sent)
                          (prelude-follows c ∙ sym (prelude-view c))
                      ∙ heard)
                ∙ finished,
          )

      -- If the engine ends, its reasoning comes first and only grows, and its semantic parser speaks
      -- at least once and tells all of the text that the generator would send, then no event breaks
      -- the protocol for a client: every item
      -- is announced, followed and finished under its place and its id, and joining the deltas gives
      -- what is announced as its end. The items that the client has put together, in their order,
      -- are the output of the completed response, which is the last event.
      pub generate_response_stream_events-follows :
          (outputs : List GenerateOutput)
          → is_in_turn false (start c).text_state [] (all_completions outputs) ≡ true
          → (response : ResponseObject) × (follows
                (between (already c))
                (generate_response_stream_events c is_space parse outputs exhausted).0
              ≡ complete_with response.output response)
      unfolding generate_response_stream_events ◌▷◌
      generate_response_stream_events-follows outputs h =
          subst Delivers (sym (on_outputs-on_completions outputs (prelude c (start c)).0))
            (delivered (all_completions outputs) h)
