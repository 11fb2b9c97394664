-- ===== src/ResponseStream/InStep.antt =====
-- What the semantic parser of the engine gives reaches the client item by item
-- (adapter/response_streaming.py).
use vfront.Common.{
  ℕ, Str, List, [], ◌∷◌, Bool, true, false, not, ◌&&◌, Option, none, some, ◌≡◌, refl, sym, ap,
  subst, ◌∙◌, arith,
}
use vfront.Output.{StreamState}
use vfront.Streams.{SemanticToolCallDelta}
use vfront.ResponseStream.{ActiveKind, no_item, message, tool_call}
use vfront.ResponseStream.Steps.{Call, Run, Step, is_message, is_tool_call}
use vfront.ResponseStream.Semantic.{
  leave_message, leave_other_call, open_and_send, on_tool_delta, on_tool_deltas, on_content,
}
use vfront.ResponseStream.Following.{Leads, ▷-Leads, nothing-Leads, decide-Leads, IsBegun, Begun}
use vfront.ResponseStream.ItemSteps.{
  close_message-Leads, close_tool_call-Leads, open_message-Leads, open_tool_call-Leads,
  send_content-Leads, send_arguments-Leads,
}

message_kind : (k : ActiveKind) → is_message k ≡ true → k ≡ message
message_kind no_item e = absurd (cc e)
message_kind message e = refl
message_kind tool_call e = absurd (cc e)

call_kind : (k : ActiveKind) → is_tool_call k ≡ true → k ≡ tool_call
call_kind no_item e = absurd (cc e)
call_kind message e = absurd (cc e)
call_kind tool_call e = refl

no_kind : (k : ActiveKind) → is_message k ≡ false → is_tool_call k ≡ false → k ≡ no_item
no_kind no_item e f = refl
no_kind message e f = absurd (cc e)
no_kind tool_call e f = absurd (cc f)

first_holds : (a b : Bool) → a && b ≡ true → a ≡ true
first_holds a b h = ground arith

negated : (a : Bool) → not a ≡ true → a ≡ false
negated a h = ground arith

affirmed : (a : Bool) → not a ≡ false → a ≡ true
affirmed a h = ground arith

module _ (c : Call) where
  pub Leads-weaken :
      (P P' Q Q' : Run → Type 0) (f : Step)
      → ((r : Run) → P r → P' r)
      → ((r : Run) → Q' r → Q r)
      → Leads c P' f Q'
      → Leads c P f Q
  unfolding Leads
  Leads-weaken P P' Q Q' f before after h r p =
      let (same, q) = h r (before r p) in (same, after (f r).0 q)

  module _ (s : StreamState) (a : Str) where
    at_kind : (k : ActiveKind) (r : Run) → Begun c s a r → r.active_item.kind ≡ k → IsBegun s a k r
    at_kind k r (j, p) e = subst (λ k. IsBegun s a k r) (sym p.0 ∙ e) p

    abbrev NotMessage : Run → Type 0
    NotMessage r = Begun c s a r × (is_message r.active_item.kind ≡ false)

    abbrev any_kind : (k : ActiveKind) (r : Run) → IsBegun s a k r → Begun c s a r
    any_kind k r p = (k, p)

    resting : (r : Run) → IsBegun s a no_item r → NotMessage r
    resting r p = ((no_item, p), ap is_message p.0)

    leave_message-Leads : Leads c (Begun c s a) (leave_message c) NotMessage
    unfolding leave_message
    leave_message-Leads =
        decide-Leads c _ _ _ _ _
          (Leads-weaken _ (IsBegun s a message) _ (IsBegun s a no_item) _
            (λ r p. at_kind message r p.0 (message_kind r.active_item.kind p.1)) resting
            (close_message-Leads c s a))
          (nothing-Leads c _)

    leave_other_call-Leads : (index : ℕ) → Leads c NotMessage (leave_other_call c index) NotMessage
    unfolding leave_other_call
    leave_other_call-Leads index =
        decide-Leads c _ _ _ _ _
          (Leads-weaken _ (IsBegun s a tool_call) _ (IsBegun s a no_item) _
            (λ r p. at_kind tool_call r p.0.0 (call_kind r.active_item.kind (first_holds _ _ p.1)))
            resting (close_tool_call-Leads c s a))
          (Leads-weaken _ NotMessage _ NotMessage _ (λ r p. p.0) (λ r q. q) (nothing-Leads c _))

    open_and_send-Leads :
        (index : ℕ) (name : Option Str) (args : Str)
        → Leads c (IsBegun s a no_item) (open_and_send c index name args) (Begun c s a)
    unfolding open_and_send
    open_and_send-Leads index none args =
        Leads-weaken _ _ _ _ _ (λ r p. p) (any_kind no_item) (nothing-Leads c (IsBegun s a no_item))
    open_and_send-Leads index (some name) args =
        Leads-weaken _ _ _ _ _ (λ r p. p) (any_kind tool_call)
          (▷-Leads c _ _ _ _ _ (open_tool_call-Leads c s a index name)
            (send_arguments-Leads c s a args))

    on_tool_delta-Leads :
        (d : SemanticToolCallDelta) → Leads c (Begun c s a) (on_tool_delta c d) (Begun c s a)
    unfolding on_tool_delta
    on_tool_delta-Leads d =
        ▷-Leads c _ _ _ _ _
          (▷-Leads c _ _ _ _ _ leave_message-Leads (leave_other_call-Leads d.index))
          (decide-Leads c _ _ _ _ _
            (Leads-weaken _ (IsBegun s a tool_call) _ (IsBegun s a tool_call) _
              (λ r p. at_kind tool_call r p.0.0 (call_kind r.active_item.kind p.1))
              (any_kind tool_call) (send_arguments-Leads c s a _))
            (Leads-weaken _ (IsBegun s a no_item) _ (Begun c s a) _
              (λ r p. at_kind no_item r p.0.0 (no_kind r.active_item.kind p.0.1 p.1)) (λ r q. q)
              (open_and_send-Leads d.index d.name _)))

    pub on_tool_deltas-Leads :
        (ds : List SemanticToolCallDelta)
        → Leads c (Begun c s a) (on_tool_deltas c ds) (Begun c s a)
    unfolding on_tool_deltas
    on_tool_deltas-Leads [] = nothing-Leads c _
    on_tool_deltas-Leads (d ∷ ds) =
        ▷-Leads c _ _ _ _ _ (on_tool_delta-Leads d) (on_tool_deltas-Leads ds)

    abbrev NotCall : Run → Type 0
    NotCall r = Begun c s a r × (is_tool_call r.active_item.kind ≡ false)

    pub on_content-Leads : (text : Str) → Leads c (Begun c s a) (on_content c text) (Begun c s a)
    unfolding on_content
    on_content-Leads [] = nothing-Leads c _
    on_content-Leads (d ∷ text) =
        ▷-Leads c _ _ _ _ _
          (▷-Leads c _ NotCall _ _ _
            (decide-Leads c _ _ _ _ _
              (Leads-weaken _ (IsBegun s a tool_call) _ (IsBegun s a no_item) _
                (λ r p. at_kind tool_call r p.0 (call_kind r.active_item.kind p.1))
                (λ r p. ((no_item, p), ap is_tool_call p.0)) (close_tool_call-Leads c s a))
              (nothing-Leads c _))
            (decide-Leads c _ _ _ _ _
              (Leads-weaken _ (IsBegun s a no_item) _ (IsBegun s a message) _
                (λ r p. at_kind no_item r p.0.0 (no_kind r.active_item.kind (negated _ p.1) p.0.1))
                (λ r q. q) (open_message-Leads c s a))
              (Leads-weaken _ (IsBegun s a message) _ (IsBegun s a message) _
                (λ r p. at_kind message r p.0.0 (message_kind r.active_item.kind (affirmed _ p.1)))
                (λ r q. q) (nothing-Leads c _))))
          (Leads-weaken _ _ _ _ _ (λ r p. p) (any_kind message)
            (send_content-Leads c s a (d ∷ text)))
