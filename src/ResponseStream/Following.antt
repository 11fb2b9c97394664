-- ===== src/ResponseStream/Following.antt =====
-- A client keeps in step with the generator, once the semantic parser of the engine speaks
-- (adapter/response_streaming.py).
use vfront.Common.{Str, List, Bool, true, false, length, ◌≡◌, refl, ap, ◌∙◌, if◌then◌else◌}
use vfront.Output.{StreamState}
use vfront.Output.Streamed.{joined}
use vfront.ResponseStream.{
  OutputItem, ActiveKind, no_item, message, tool_call, ActiveResponseItemState,
}
use vfront.ResponseStream.Builders.{item_id_of}
use vfront.ResponseStream.Steps.{Call, Run, Step, ◌▷◌, nothing, decide, reasoning_id}
use vfront.ResponseStream.Client.{
  Client, between, in_reasoning, in_message, in_call, writing, follows, follows-append,
}
use vfront.ResponseStream.Heard.{begun}

-- What a client knows when the generator has these variables.
abbrev pub shown :
    Str → ActiveKind → ActiveResponseItemState → List OutputItem → Bool → Str → Client
shown id no_item item items false text = between items
shown id no_item item items true text = in_reasoning items id text
shown id message item items b text = in_message items writing item.item_id (joined item.text_parts)
shown id tool_call item items b text =
    in_call items (begun item.item_id item.tool_call_id item.tool_call_name)
      (joined item.tool_call_argument_parts) false

abbrev pub IsSound : ActiveKind → ActiveResponseItemState → Type 0
IsSound no_item item = Unit
IsSound message item = item.content_index ≡ 0
IsSound tool_call item = item_id_of item.item_id item.tool_call_id ≡ item.item_id

-- Between two steps after the semantic parser has spoken: the open item comes after the finished
-- ones. The state of the text and the reasoning stay as they are.
abbrev pub IsBegun : StreamState → Str → ActiveKind → Run → Type 0
IsBegun s a k r =
    (r.active_item.kind ≡ k)
    × (r.active_item.output_index ≡ length r.completed_output_items)
    × IsSound k r.active_item
    × (r.reasoning_item_emitted ≡ false)
    × (r.text_state ≡ s)
    × (r.accumulated_reasoning ≡ a)
    × (r.semantic_emitted ≡ true)

module _ (c : Call) where
  abbrev pub view : Run → Client
  view r =
      shown (reasoning_id c) r.active_item.kind r.active_item r.completed_output_items
        r.reasoning_item_emitted r.accumulated_reasoning

  -- From `P` on, the client that hears what the step sends knows what the generator then has.
  unfoldable pub Leads : (Run → Type 0) → Step → (Run → Type 0) → Type 0
  Leads P f Q = (r : Run) → P r → (follows (view r) (f r).1 ≡ view (f r).0) × Q (f r).0

  pub ▷-Leads : (P Q R : Run → Type 0) (f g : Step) → Leads P f Q → Leads Q g R → Leads P (f ▷ g) R
  unfolding Leads ◌▷◌
  ▷-Leads P Q R f g h k r p =
      let (first, q) = h r p in
      let (second, after) = k (f r).0 q in
      (
        follows-append (view r) (f r).1 (g (f r).0).1
            ∙ ap (λ client. follows client (g (f r).0).1) first
            ∙ second,
        after,
      )

  pub nothing-Leads : (P : Run → Type 0) → Leads P nothing P
  unfolding Leads follows
  nothing-Leads P r p = (refl, p)

  pub decide-Leads :
      (P Q : Run → Type 0) (test : Run → Bool) (f g : Step)
      → Leads (λ r. P r × (test r ≡ true)) f Q
      → Leads (λ r. P r × (test r ≡ false)) g Q
      → Leads P (decide test f g) Q
  unfolding Leads
  decide-Leads P Q test f g h k r p = by_test (test r) refl
    where
      by_test :
          (b : Bool)
          → test r ≡ b
          → let result = if b then f r else g r in
            (follows (view r) result.1 ≡ view result.0) × Q result.0
      by_test true e = h r (p, e)
      by_test false e = k r (p, e)

  module _ (s : StreamState) (a : Str) where
    -- Whatever item is open.
    abbrev pub Begun : Run → Type 0
    Begun r = (k : ActiveKind) × IsBegun s a k r

    pub view_is :
        (k : ActiveKind) (r : Run)
        → IsBegun s a k r
        → view r
          ≡ shown
              (reasoning_id c)
              k
              r.active_item
              r.completed_output_items
              r.reasoning_item_emitted
              r.accumulated_reasoning
    view_is k r p =
        ap
          (λ k.
            shown (reasoning_id c) k r.active_item r.completed_output_items r.reasoning_item_emitted
              r.accumulated_reasoning)
          p.0
