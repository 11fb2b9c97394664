-- ===== src/ResponseStream/ItemSteps.antt =====
-- A client keeps in step with the generator over the events of one item, once the semantic parser of
-- the engine speaks (adapter/response_streaming.py).
use vfront.Common.{
  ℕ, ◌+◌, Str, [], ◌∷◌, ◌++◌, false, length, length-append, ◌≡◌, refl, sym, ap, ◌∙◌, arith, codes,
}
use vfront.Output.{StreamState}
use vfront.Output.Streamed.{joined}
use vfront.ResponseStream.{
  OutputItem, ActiveKind, no_item, message, tool_call, fresh_item, text_delta, arguments_delta,
}
use vfront.ResponseStream.Builders.{
  done_message, done_call, close_message_item, close_tool_call_item, open_message_item,
  open_tool_call_item,
}
use vfront.ResponseStream.Steps.{
  Call, Run, ◌▷◌, close_message, close_tool_call, next_item, reasoning_id,
}
use vfront.ResponseStream.Semantic.{send_arguments, send_content, open_tool_call, open_message}
use vfront.ResponseStream.Client.{Client, between, in_message, in_call, writing, hears, follows}
use vfront.ResponseStream.Heard.{
  begun, follows-open_message, follows-close_message, follows-open_call, follows-close_call,
  hears_delta, hears_text, joined_snoc,
}
use vfront.ResponseStream.Following.{IsBegun, Leads, shown, view, view_is}

module _ (c : Call) where
  module _ (s : StreamState) (a : Str) where
    -- One more item is finished, and none is open.
    rested :
        (k : ActiveKind) (r : Run) (done : OutputItem)
        → IsBegun s a k r
        → IsBegun s a no_item (record r {
          completed_output_items = r.completed_output_items ++ done ∷ [];
          active_item = fresh_item (1 + r.active_item.output_index);
        })
    unfolding fresh_item
    rested k r done p = (
      refl,
      omega (arith, p.1, length-append r.completed_output_items (done ∷ [])),
      tt,
      p.3,
      p.4,
      p.5,
      p.6,
    )

    pub close_message-Leads :
        Leads c (IsBegun s a message) (close_message ▷ next_item) (IsBegun s a no_item)
    unfolding Leads close_message next_item ◌▷◌ fresh_item close_message_item
    close_message-Leads r p =
        let item = r.active_item in
        let items = r.completed_output_items in
        let text = joined item.text_parts in
        let heard = λ (n k : ℕ).
          follows (in_message items writing item.item_id text)
            (close_message_item n item.item_id k text r.seq).0 in
        (
          ap
                (λ client.
                  follows client
                    (close_message_item item.output_index item.item_id item.content_index text
                      r.seq).0)
                (view_is c s a message r p)
              ∙ ap (λ n. heard n item.content_index) p.1
              ∙ ap (λ k. heard (length items) k) p.2
              ∙ follows-close_message items item.item_id text r.seq
              ∙ ap
                  (λ b.
                    shown (reasoning_id c) no_item (fresh_item (1 + item.output_index))
                      (items ++ done_message item.item_id text ∷ []) b r.accumulated_reasoning)
                  (sym p.3),
          rested message r (done_message item.item_id text) p,
        )

    pub close_tool_call-Leads :
        Leads c (IsBegun s a tool_call) (close_tool_call ▷ next_item) (IsBegun s a no_item)
    unfolding Leads close_tool_call next_item ◌▷◌ fresh_item close_tool_call_item
    close_tool_call-Leads r p =
        let item = r.active_item in
        let items = r.completed_output_items in
        let args = joined item.tool_call_argument_parts in
        let call = done_call item.item_id item.tool_call_id item.tool_call_name args in
        let heard = λ (client : Client) (n : ℕ).
          follows client
            (close_tool_call_item n item.item_id item.tool_call_id item.tool_call_name args
              r.seq).0 in
        (
          ap (λ client. heard client item.output_index) (view_is c s a tool_call r p)
              ∙ ap (heard _) p.1
              ∙ follows-close_call items item.item_id item.tool_call_id item.tool_call_name args
                  r.seq p.2
              ∙ ap
                  (λ b.
                    shown (reasoning_id c) no_item (fresh_item (1 + item.output_index))
                      (items ++ call ∷ []) b r.accumulated_reasoning)
                  (sym p.3),
          rested tool_call r call p,
        )

    pub between_is : (r : Run) → IsBegun s a no_item r → view c r ≡ between r.completed_output_items
    between_is r p =
        view_is c s a no_item r p
        ∙ ap
            (λ b.
              shown (reasoning_id c) no_item r.active_item r.completed_output_items b
                r.accumulated_reasoning)
            p.3

    pub open_message-Leads : Leads c (IsBegun s a no_item) (open_message c) (IsBegun s a message)
    unfolding Leads open_message ◌▷◌ fresh_item open_message_item
    open_message-Leads r p =
        let item = r.active_item in
        let items = r.completed_output_items in
        let id = codes "msg_" ++ c.draw r.draws in
        (
          ap (λ client. follows client (open_message_item item.output_index id 0 r.seq).0)
                (between_is r p)
              ∙ ap (λ n. follows (between items) (open_message_item n id 0 r.seq).0) p.1
              ∙ follows-open_message items id r.seq,
          (refl, p.1, refl, p.3, p.4, p.5, p.6),
        )

    pub open_tool_call-Leads :
        (index : ℕ) (name : Str)
        → Leads c (IsBegun s a no_item) (open_tool_call c index name) (IsBegun s a tool_call)
    unfolding Leads open_tool_call ◌▷◌ fresh_item open_tool_call_item
    open_tool_call-Leads index name r p =
        let item = r.active_item in
        let items = r.completed_output_items in
        let id = codes "fc_" ++ c.draw r.draws in
        let call_id = codes "call_" ++ c.draw (1 + r.draws) in
        (
          ap
                (λ client.
                  follows client (open_tool_call_item item.output_index id call_id name r.seq).0)
                (between_is r p)
              ∙ ap (λ n. follows (between items) (open_tool_call_item n id call_id name r.seq).0)
                  p.1
              ∙ follows-open_call items id call_id name r.seq,
          (refl, p.1, refl, p.3, p.4, p.5, p.6),
        )

    pub send_content-Leads :
        (text : Str) → Leads c (IsBegun s a message) (send_content text) (IsBegun s a message)
    unfolding Leads send_content ◌▷◌ follows
    send_content-Leads text r p =
        let item = r.active_item in
        let items = r.completed_output_items in
        (
          ap
                (λ client.
                  hears client (text_delta item.output_index item.item_id item.content_index text))
                (view_is c s a message r p)
              ∙ ap
                  (λ n.
                    hears (in_message items writing item.item_id (joined item.text_parts))
                      (text_delta n item.item_id item.content_index text))
                  p.1
              ∙ hears_text items item.item_id (joined item.text_parts) text item.content_index
              ∙ ap (λ t. in_message items writing item.item_id t)
                  (sym (joined_snoc item.text_parts text))
              ∙ sym (
                  ap
                    (λ k.
                      shown (reasoning_id c) k
                        (record item { text_parts = item.text_parts ++ text ∷ [] }) items
                        r.reasoning_item_emitted r.accumulated_reasoning)
                    p.0),
          p,
        )

    pub send_arguments-Leads :
        (args : Str) → Leads c (IsBegun s a tool_call) (send_arguments args) (IsBegun s a tool_call)
    unfolding Leads send_arguments ◌▷◌ follows
    send_arguments-Leads [] r p = (refl, p)
    send_arguments-Leads (d ∷ args) r p =
        let item = r.active_item in
        let items = r.completed_output_items in
        let call = begun item.item_id item.tool_call_id item.tool_call_name in
        let got = joined item.tool_call_argument_parts in
        (
          ap (λ client. hears client (arguments_delta item.output_index item.item_id (d ∷ args)))
                (view_is c s a tool_call r p)
              ∙ ap
                  (λ n.
                    hears (in_call items call got false)
                      (arguments_delta n item.item_id (d ∷ args)))
                  p.1
              ∙ ap
                  (λ id.
                    hears (in_call items call got false)
                      (arguments_delta (length items) id (d ∷ args)))
                  (sym p.2)
              ∙ hears_delta items call got (d ∷ args)
              ∙ ap (λ t. in_call items call t false)
                  (sym (joined_snoc item.tool_call_argument_parts (d ∷ args)))
              ∙ sym (
                  ap
                    (λ k.
                      shown (reasoning_id c) k
                        (record item {
                          tool_call_argument_parts =
                              item.tool_call_argument_parts ++ (d ∷ args) ∷ [];
                        })
                        items r.reasoning_item_emitted r.accumulated_reasoning)
                    p.0),
          p,
        )
