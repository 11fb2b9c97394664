-- ===== src/ResponseStream/Reasoning.antt =====
-- The reasoning reaches a client of the streamed response before the semantic parser of the engine
-- speaks (adapter/response_streaming.py).
use vfront.Common.{
  Str, [], ◌∷◌, ◌++◌, Bool, true, false, not, ◌||◌, length, str_eq_iff, starts_with, str_eq, drop,
  ◌≡◌, refl, sym, ap, ◌∙◌, arith,
}
use mathlib.Core.List.{append-nil}
use vfront.Output.{StreamState, is_empty}
use vfront.ResponseStream.{ActiveKind, no_item, OutputItem, reasoning_item, item_added, text_delta}
use vfront.ResponseStream.Steps.{
  Call, Run, ◌▷◌, nothing, set, yields, reasoning_id, open_reasoning, send_reasoning, on_reasoning,
}
use vfront.ResponseStream.Text.{or_text}
use vfront.ResponseStream.Client.{between, in_reasoning, hears, follows}
use vfront.ResponseStream.Heard.{hears_reasoning, hears_thought}
use vfront.ResponseStream.Following.{shown, view, Leads, ▷-Leads, decide-Leads}
use vfront.ResponseStream.InStep.{Leads-weaken}

-- Between two steps before the semantic parser has spoken: at most the reasoning is open, and the
-- client has all of it.
abbrev pub IsBefore : StreamState → Str → Run → Type 0
IsBefore s a r =
    (r.active_item.kind ≡ no_item)
    × (r.active_item.output_index ≡ length r.completed_output_items)
    × (r.output_index ≡ length r.completed_output_items)
    × (r.previous_reasoning_len ≡ length r.accumulated_reasoning)
    × (r.reasoning_item_emitted ≡ false → r.accumulated_reasoning ≡ [])
    × (r.text_state ≡ s)
    × (r.accumulated_reasoning ≡ a)
    × (r.semantic_emitted ≡ false)

-- The reasoning is open.
abbrev IsThinking : StreamState → Str → Run → Type 0
IsThinking s a r = IsBefore s a r × (r.reasoning_item_emitted ≡ true)

pub negated : (a : Bool) → not a ≡ true → a ≡ false
negated a h = ground arith

pub affirmed : (a : Bool) → not a ≡ false → a ≡ true
affirmed a h = ground arith

starts_with-drop : (p s : Str) → starts_with p s ≡ true → p ++ drop (length p) s ≡ s
unfolding starts_with
starts_with-drop [] s h = refl
starts_with-drop (x ∷ p) [] h = absurd (cc h)
starts_with-drop (x ∷ p) (y ∷ s) h = ground (arith, starts_with-drop p s)

module _ (c : Call) where
  abbrev empty_reasoning : OutputItem
  empty_reasoning = reasoning_item (record { id = reasoning_id c; summary = [] })

  -- What the client knows before the semantic parser has spoken.
  pub shown_is :
      (r : Run) (b : Bool) (k : ActiveKind) (text : Str)
      → r.active_item.kind ≡ k
      → r.reasoning_item_emitted ≡ b
      → shown
          (reasoning_id c)
          r.active_item.kind
          r.active_item
          r.completed_output_items
          r.reasoning_item_emitted
          text
        ≡ shown (reasoning_id c) k r.active_item r.completed_output_items b text
  shown_is r b k text h e =
      ap
        (λ k.
          shown (reasoning_id c) k r.active_item r.completed_output_items r.reasoning_item_emitted
            text)
        h
      ∙ ap (λ b. shown (reasoning_id c) k r.active_item r.completed_output_items b text) e

  open_reasoning-Leads :
      (s : StreamState) (a : Str) → Leads c (IsBefore s a) (open_reasoning c) (IsThinking s a)
  unfolding open_reasoning Leads ◌▷◌ follows
  open_reasoning-Leads s a =
      decide-Leads c _ (IsThinking s a) (λ r. not r.reasoning_item_emitted) _ _ opens is_open
    where
      is_open :
          Leads c
            (λ r. IsBefore s a r × (not r.reasoning_item_emitted ≡ false))
            nothing
            (IsThinking s a)
      is_open r (p, e) = (refl, (p, affirmed r.reasoning_item_emitted e))

      opens :
          Leads c
            (λ r. IsBefore s a r × (not r.reasoning_item_emitted ≡ true))
            (yields (λ r. item_added r.output_index empty_reasoning)
              ▷ set (λ r. record r { reasoning_item_emitted = true }))
            (IsThinking s a)
      opens r ((kind, index, place, len, nothing_yet, state, acc, silent), e) =
          let flag = negated r.reasoning_item_emitted e in
          let items = r.completed_output_items in
          (
            ap (λ client. hears client (item_added r.output_index empty_reasoning))
                  (shown_is r false no_item r.accumulated_reasoning kind flag)
                ∙ ap (λ n. hears (between items) (item_added n empty_reasoning)) place
                ∙ hears_reasoning items (reasoning_id c)
                ∙ ap (in_reasoning items (reasoning_id c)) (sym (nothing_yet flag))
                ∙ sym (
                    ap
                      (λ k.
                        shown (reasoning_id c) k r.active_item items true r.accumulated_reasoning)
                      kind),
            ((kind, index, place, len, (λ q. absurd (cc q)), state, acc, silent), refl),
          )

  send_reasoning-Leads :
      (s : StreamState) (a text : Str)
      → a ++ drop (length a) text ≡ text
      → Leads c (IsThinking s a) (send_reasoning c text) (IsBefore s text)
  unfolding send_reasoning Leads ◌▷◌ follows
  send_reasoning-Leads s a text whole r
        ((kind, index, place, len, nothing_yet, state, acc, silent), flag) =
      by_delta (drop r.previous_reasoning_len text) refl (
        ap (λ t. t ++ drop r.previous_reasoning_len text) acc
        ∙ ap (λ n. a ++ drop n text) (len ∙ ap length acc)
        ∙ whole)
    where
      by_delta :
          (d : Str)
          → drop r.previous_reasoning_len text ≡ d
          → r.accumulated_reasoning ++ d ≡ text
          → (follows (view c r) (send_reasoning c text r).1 ≡ view c (send_reasoning c text r).0)
            × IsBefore s text (send_reasoning c text r).0
      by_delta [] e h = rw e (
        shown_is r true no_item r.accumulated_reasoning kind flag
            ∙ ap (in_reasoning r.completed_output_items (reasoning_id c))
                (sym (append-nil r.accumulated_reasoning) ∙ h)
            ∙ sym (shown_is r true no_item text kind flag),
        (kind, index, place, refl, (λ q. absurd (cc (q, flag))), state, refl, silent),
      )
      by_delta (x ∷ d) e h = rw e (
        ap (λ client. hears client (text_delta r.output_index (reasoning_id c) 0 (x ∷ d)))
              (shown_is r true no_item r.accumulated_reasoning kind flag)
            ∙ ap
                (λ n.
                  hears
                    (in_reasoning r.completed_output_items (reasoning_id c) r.accumulated_reasoning)
                    (text_delta n (reasoning_id c) 0 (x ∷ d)))
                place
            ∙ hears_thought r.completed_output_items (reasoning_id c) r.accumulated_reasoning
                (x ∷ d) 0
            ∙ ap (in_reasoning r.completed_output_items (reasoning_id c)) h
            ∙ sym (shown_is r true no_item text kind flag),
        (kind, index, place, refl, (λ q. absurd (cc (q, flag))), state, refl, silent),
      )

  -- The reasoning grows from one output to the next.
  pub on_reasoning-Leads :
      (s : StreamState) (a text : Str)
      → (is_empty text || starts_with a text) ≡ true
      → Leads c (IsBefore s a) (on_reasoning c text) (IsBefore s (or_text text a))
  unfolding on_reasoning Leads follows
  on_reasoning-Leads s a [] ok = λ r p. (refl, p)
  on_reasoning-Leads s a (x ∷ text) ok =
      decide-Leads c _ (IsBefore s (x ∷ text))
        (λ r. not (str_eq (x ∷ text) r.accumulated_reasoning)) _ _ grows stays
    where
      grows :
          Leads c
            (λ r. IsBefore s a r × (not (str_eq (x ∷ text) r.accumulated_reasoning) ≡ true))
            (open_reasoning c ▷ send_reasoning c (x ∷ text))
            (IsBefore s (x ∷ text))
      grows =
          Leads-weaken c
            (λ r. IsBefore s a r × (not (str_eq (x ∷ text) r.accumulated_reasoning) ≡ true))
            (IsBefore s a) (IsBefore s (x ∷ text)) (IsBefore s (x ∷ text))
            (open_reasoning c ▷ send_reasoning c (x ∷ text)) (λ r p. p.0) (λ r q. q)
            (▷-Leads c (IsBefore s a) (IsThinking s a) (IsBefore s (x ∷ text)) (open_reasoning c)
              (send_reasoning c (x ∷ text)) (open_reasoning-Leads s a)
              (send_reasoning-Leads s a (x ∷ text) (starts_with-drop a (x ∷ text) ok)))

      stays :
          Leads c
            (λ r. IsBefore s a r × (not (str_eq (x ∷ text) r.accumulated_reasoning) ≡ false))
            nothing
            (IsBefore s (x ∷ text))
      stays r ((kind, index, place, len, nothing_yet, state, acc, silent), e) =
          let same = (str_eq_iff (x ∷ text) r.accumulated_reasoning).0 (affirmed _ e) in
          (refl, (kind, index, place, len, nothing_yet, state, sym same, silent))
