-- ===== src/ResponseStream/Endings.antt =====
-- How a streamed response ends, and how its events are numbered (adapter/response_streaming.py).
use vfront.Common.{
  ap, ◌∙◌, sym, map, ◌≡◌, ◌++◌, true, ℕ, suc, ◌+◌, if_either, Str, List, [], Bool, Option, refl,
  length, arith,
}
use mathlib.Core.List.{append_assoc, append-nil}
use vfront.Streams.{GenerateOutput, ToolCall}
use vfront.Streams.Chat.{Outcome, ended}
use vfront.ResponseStream.{Sent}
use vfront.ResponseStream.Builders.{completed_response, build_response_failure_events}
use vfront.ResponseStream.Steps.{
  Step, Call, Run, EngineEnd, exhausted, cancelled, raised, ◌▷◌, start, prelude, complete,
}
use vfront.ResponseStream.Semantic.{close_semantic}
use vfront.ResponseStream.Text.{calls_of, close_reasoning_alone, close_text}
use vfront.ResponseStream.Generate.{
  is_unexpected, final_output, on_outputs, conclude_text, conclude, stop,
  generate_response_stream_events,
}
use vfront.Output.Streamed.{or_nothing}
use vfront.ResponseStream.Numbers.{
  Consecutive-count, Consecutive, Consecutive-append, Ending, completes, fails, breaks_off,
  gives_up, Ongoing-Consecutive, Ongoing-all, are_ongoing, Ongoing, IsNumbered, Ongoing-append,
  ▷-IsNumbered,
}
use vfront.ResponseStream.Sequence.{
  prelude-IsNumbered, on_outputs-IsNumbered, close_semantic-IsNumbered,
  close_reasoning_alone-IsNumbered, close_text-IsNumbered,
}

module _ (c : Call) where
  module _ (is_space : ℕ → Bool) (parse : Str → Option (List ToolCall)) where
    -- What is sent when the engine has stopped: first events that do not end the stream, then an
    -- ending.
    abbrev IsConcluded : ℕ → EngineEnd → List Sent × Outcome → Type 0
    IsConcluded n engine (sent, outcome) =
        (before : List Sent) × (ending : List Sent) × (next : ℕ) × (sent ≡ before ++ ending)
        × Ongoing n before next
        × ((last : ℕ) × Consecutive next ending last)
        × Ending engine outcome (map (λ x. x.1) ending)

    by_completing :
        (f : Step)
        → IsNumbered f
        → (r : Run) → IsConcluded r.seq exhausted (((f ▷ complete c) r).1, ended)
    unfolding IsNumbered ◌▷◌ complete completed_response Consecutive
    by_completing f h r =
        let r1 = (f r).0 in
        (
          (f r).1,
          ((complete c) r1).1,
          r1.seq,
          refl,
          h r,
          (suc r1.seq, (refl, refl)),
          completes _ refl,
        )

    follow_on :
        (engine : EngineEnd) (outcome : Outcome) (a b : ℕ) (xs ys : List Sent)
        → Ongoing a xs b
        → IsConcluded b engine (ys, outcome)
        → IsConcluded a engine (xs ++ ys, outcome)
    follow_on engine outcome a b xs ys h (before, ending, next, same, quiet, numbers, how) = (
      xs ++ before,
      ending,
      next,
      ap (λ l. xs ++ l) same ∙ sym (append_assoc xs before ending),
      Ongoing-append a b next xs before h quiet,
      numbers,
      how,
    )

    conclude_text-IsConcluded :
        (r : Run) → IsConcluded r.seq exhausted (conclude_text c is_space parse r)
    unfolding conclude_text IsNumbered Consecutive
    conclude_text-IsConcluded r =
        let (r1, sent) = close_reasoning_alone c r in
        let output = final_output c is_space parse r1 in
        let alone = (close_reasoning_alone-IsNumbered c) r in
        let calls = calls_of output.0 in
        let held = or_nothing output.1 in
        if_either (IsConcluded r.seq exhausted) (is_unexpected c.request.tools output.0)
          (sent, [], r1.seq, sym (append-nil sent), alone, (r1.seq, refl), gives_up)
          (follow_on exhausted ended r.seq r1.seq sent _ alone
            (by_completing (close_text c calls held) (close_text-IsNumbered c calls held) r1))

    conclude-IsConcluded : (r : Run) → IsConcluded r.seq exhausted (conclude c is_space parse r)
    unfolding conclude
    conclude-IsConcluded r =
        if_either (IsConcluded r.seq exhausted) r.semantic_emitted
          (by_completing (close_semantic c) (close_semantic-IsNumbered c) r)
          (conclude_text-IsConcluded r)

    stop-IsConcluded :
        (engine : EngineEnd) (r : Run) → IsConcluded r.seq engine (stop c is_space parse engine r)
    unfolding stop build_response_failure_events Consecutive Ongoing
    stop-IsConcluded exhausted r = conclude-IsConcluded r
    stop-IsConcluded cancelled r = ([], [], r.seq, refl, refl, (r.seq, refl), breaks_off)
    stop-IsConcluded (raised reason) r = (
      [],
      (stop c is_space parse (raised reason) r).0,
      r.seq,
      refl,
      refl,
      (2 + r.seq, (refl, (omega arith, omega arith))),
      fails reason _ _ refl refl refl,
    )

    generate-IsConcluded :
        (outputs : List GenerateOutput) (engine : EngineEnd)
        → IsConcluded c.initial_sequence_number engine
            (generate_response_stream_events c is_space parse outputs engine)
    unfolding generate_response_stream_events start IsNumbered
    generate-IsConcluded outputs engine =
        let (r, sent) = (prelude c ▷ on_outputs c is_space outputs) (start c) in
        let begins =
          ▷-IsNumbered _ _ (prelude-IsNumbered c) (on_outputs-IsNumbered c is_space outputs)
            (start c) in
        let (more, outcome) = stop c is_space parse engine r in
        follow_on engine outcome c.initial_sequence_number r.seq sent more begins
          (stop-IsConcluded engine r)

    -- The events are numbered one by one from the initial sequence number on, whatever the engine
    -- yields and however it stops.
    pub generate_response_stream_events-Consecutive :
        (outputs : List GenerateOutput) (engine : EngineEnd)
        → let sent = (generate_response_stream_events c is_space parse outputs engine).0 in
          Consecutive c.initial_sequence_number sent (c.initial_sequence_number + length sent)
    generate_response_stream_events-Consecutive outputs engine =
        let n = c.initial_sequence_number in
        let (before, ending, next, same, quiet, (last, numbers), how) =
          generate-IsConcluded outputs engine in
        let all_of =
          Consecutive-append n next last before ending (Ongoing-Consecutive n next before quiet)
            numbers in
        Consecutive-count n last _ (rw same all_of)

    -- A stream is left in one of four ways. The events before the last ones are none of
    -- `response.error`, `response.failed` and `response.completed`. If the engine raises an
    -- exception, these follow: the error with its text, and the failed response with that error. If
    -- the engine comes to its end, the completed response follows, or else the generator raises
    -- and nothing follows. If the stream is cancelled, nothing follows.
    pub generate_response_stream_events-Ending :
        (outputs : List GenerateOutput) (engine : EngineEnd)
        → let (sent, outcome) = generate_response_stream_events c is_space parse outputs engine in
          (before : List Sent) × (ending : List Sent) × (sent ≡ before ++ ending)
          × (are_ongoing before ≡ true)
          × Ending engine outcome (map (λ x. x.1) ending)
    generate_response_stream_events-Ending outputs engine =
        let n = c.initial_sequence_number in
        let (before, ending, next, same, quiet, numbers, how) =
          generate-IsConcluded outputs engine in
        (before, ending, same, Ongoing-all n next before quiet, how)
