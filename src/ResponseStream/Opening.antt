-- ===== src/ResponseStream/Opening.antt =====
-- What a client of the streamed response hears before the engine speaks (adapter/response_streaming.py).
use vfront.Common.{
  subst, length-map, if◌then◌else◌, ap, ◌∙◌, sym, ◌++◌, map, length, length-append, suc, ℕ, List,
  [], ◌∷◌, Bool, true, false, ◌≡◌, refl, arith,
}
use mathlib.Core.List.{append-nil, append_assoc}
use vfront.ResponseStream.{Sent, OutputItem, call_item, FunctionToolCall, fresh_item}
use vfront.ResponseStream.Builders.{build_function_tool_call_events, build_response_prelude_events}
use vfront.ResponseStream.Reasoning.{IsBefore}
use vfront.ResponseStream.Heard.{follows-tool_call}
use vfront.ResponseStream.Steps.{emits, ◌▷◌, tool_call_items, prelude, start, when, Call, Run}
use vfront.ResponseStream.Client.{between, hears, follows-append, follows}
use vfront.ResponseStream.Following.{view}

module _ (c : Call) where
  tool_call_items-follows :
      (items : List OutputItem) (i : ℕ) (calls : List FunctionToolCall) (r : Run)
      → i ≡ length items
      → follows (between items) (tool_call_items c i calls r).1
        ≡ between (items ++ map call_item calls)
  unfolding tool_call_items ◌▷◌ follows
  tool_call_items-follows items i [] r e = rw (append-nil items) refl
  tool_call_items-follows items i (call ∷ calls) r e =
      let (events, seq) = build_function_tool_call_events call i r.seq 32 in
      let r1 = record r { seq = seq } in
      let more = items ++ call_item call ∷ [] in
      follows-append (between items) events (tool_call_items c (suc i) calls r1).1
      ∙ ap (λ client. follows client (tool_call_items c (suc i) calls r1).1)
          (ap (λ n. follows (between items) (build_function_tool_call_events call n r.seq 32).0) e
            ∙ follows-tool_call items call r.seq 32 (omega arith))
      ∙ tool_call_items-follows more (suc i) calls r1
          (omega (arith, e, length-append items (call_item call ∷ [])))
      ∙ ap between (append_assoc items (call_item call ∷ []) (map call_item calls))

  -- The items that the client has before the stream: those that are not announced in it.
  abbrev pub already : List OutputItem
  already = if c.emit_prefix_tool_call_events then [] else map call_item c.prefix_tool_calls

  greeting : Run → Run × List Sent
  greeting = emits (λ r. build_response_prelude_events c.request c.response_id c.created_at)

  greeting-follows :
      (b : Bool) (items : List OutputItem) (r : Run)
      → follows (between items) (when (λ q. b) greeting r).1 ≡ between items
  unfolding greeting follows hears build_response_prelude_events
  greeting-follows true items r = refl
  greeting-follows false items r = refl

  prefix-follows :
      (b : Bool) (calls : List FunctionToolCall) (r : Run)
      → follows
          (between (if b then [] else map call_item calls))
          (when (λ q. b) (tool_call_items c 0 calls) r).1
        ≡ between (map call_item calls)
  unfolding follows
  prefix-follows true calls r = tool_call_items-follows [] 0 calls r (omega arith)
  prefix-follows false calls r = refl

  start-IsBefore : IsBefore (start c).text_state [] (start c)
  unfolding start fresh_item
  start-IsBefore =
      let count = sym (length-map call_item c.prefix_tool_calls) in
      (refl, count, count, refl, (λ q. refl), refl, refl, refl)

  pub prelude-follows :
      follows (between already) (prelude c (start c)).1
      ≡ between (map call_item c.prefix_tool_calls)
  unfolding prelude ◌▷◌ greeting
  prelude-follows =
      let (r1, sent) = when (λ q. c.emit_prelude) greeting (start c) in
      let more =
        (when (λ q. c.emit_prefix_tool_call_events) (tool_call_items c 0 c.prefix_tool_calls)
          r1).1 in
      follows-append (between already) sent more
      ∙ ap (λ client. follows client more) (greeting-follows c.emit_prelude already (start c))
      ∙ prefix-follows c.emit_prefix_tool_call_events c.prefix_tool_calls r1

  -- What comes before the engine's outputs changes the sequence number only.
  tool_call_items_only :
      (i : ℕ) (calls : List FunctionToolCall) (r : Run)
      → (seq : ℕ) × ((tool_call_items c i calls r).0 ≡ record r { seq = seq })
  unfolding tool_call_items ◌▷◌
  tool_call_items_only i [] r = (r.seq, refl)
  tool_call_items_only i (call ∷ calls) r =
      tool_call_items_only (suc i) calls
        (record r { seq = (build_function_tool_call_events call i r.seq 32).1 })

  prelude_only : (seq : ℕ) × ((prelude c (start c)).0 ≡ record (start c) { seq = seq })
  unfolding prelude ◌▷◌
  prelude_only = by_flags c.emit_prelude c.emit_prefix_tool_call_events
    where
      by_flags :
          (b d : Bool)
          → (seq : ℕ) × ((when
                (λ r. d)
                (tool_call_items c 0 c.prefix_tool_calls)
                (when
                  (λ r. b)
                  (emits λ r. build_response_prelude_events c.request c.response_id c.created_at)
                  (start c)).0).0
              ≡ record (start c) { seq = seq })
      by_flags true true = tool_call_items_only 0 c.prefix_tool_calls _
      by_flags false true = tool_call_items_only 0 c.prefix_tool_calls _
      by_flags true false = (_, refl)
      by_flags false false = (_, refl)

  pub prelude-IsBefore : IsBefore (start c).text_state [] (prelude c (start c)).0
  prelude-IsBefore = subst (IsBefore (start c).text_state []) (sym prelude_only.1) start-IsBefore

  pub prelude-view : view c (prelude c (start c)).0 ≡ between (map call_item c.prefix_tool_calls)
  unfolding start fresh_item
  prelude-view = ap (view c) prelude_only.1
