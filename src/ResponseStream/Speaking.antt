-- ===== src/ResponseStream/Speaking.antt =====
-- A client keeps in step with one output of the engine after another, where the semantic parser speaks
-- (adapter/response_streaming.py).
use vfront.Common.{
  ℕ, ◌+◌, Str, List, [], ◌∷◌, ◌++◌, Bool, true, false, ◌||◌, Option, none, some, length-append,
  str_eq_iff, str_eq_iff, starts_with, str_eq, ◌≡◌, refl, sym, ap, subst, ◌∙◌, arith,
}
use vfront.Output.{StreamState, is_empty, update}
use vfront.Output.Streamed.{or_nothing}
use vfront.Streams.{CompletionDelta, SemanticOutputDelta}
use vfront.Streams.Chat.{tool_deltas}
use vfront.ResponseStream.{Sent, no_item, item_done}
use vfront.ResponseStream.Steps.{
  Call, Run, Step, ◌▷◌, set, decide, reasoning_id, reasoning_of, on_reasoning,
}
use vfront.ResponseStream.Semantic.{close_reasoning, on_semantic}
use vfront.ResponseStream.Text.{or_text, on_text}
use vfront.ResponseStream.Client.{in_reasoning, hears, follows}
use vfront.ResponseStream.Heard.{hears_reasoning_end}
use vfront.ResponseStream.Following.{shown, view, Leads, ▷-Leads, Begun}
use vfront.ResponseStream.InStep.{on_tool_deltas-Leads, on_content-Leads}
use vfront.ResponseStream.Reasoning.{IsBefore, on_reasoning-Leads}
use vfront.ResponseStream.Generate.{speaks, count_output, on_output}

abbrev pub is_absent : Option Str → Bool
is_absent none = true
is_absent (some s) = false

-- Whether the reasoning may come so: it grows until the semantic parser speaks, and stays then.
abbrev pub is_fitting : Bool → Str → Str → Bool
is_fitting false a text = is_empty text || starts_with a text
is_fitting true a text = is_empty text || str_eq text a

module _ (c : Call) where
  -- Before the semantic parser has spoken, or after.
  abbrev pub Phase : Bool → StreamState → Str → Run → Type 0
  Phase false s a r = IsBefore s a r
  Phase true s a r = Begun c s a r

  -- What is done first when the semantic parser speaks: the reasoning is finished.
  abbrev enter : Step
  enter =
      set (λ r. record r { semantic_emitted = true })
      ▷ (close_reasoning c ▷ set (λ r. record r { reasoning_item_emitted = false }))

  enter-Leads_first : (s : StreamState) (a : Str) → Leads c (IsBefore s a) enter (Begun c s a)
  unfolding Leads close_reasoning ◌▷◌ follows
  enter-Leads_first s a r (kind, index, place, len, nothing_yet, state, acc, silent) =
      by_flag r.reasoning_item_emitted refl
    where
      by_flag :
          (b : Bool)
          → r.reasoning_item_emitted ≡ b
          → (follows (view c r) (enter r).1 ≡ view c (enter r).0) × Begun c s a (enter r).0
      by_flag true e =
          let items = r.completed_output_items in
          let done = reasoning_of c r in
          rw e (
            ap
                  (λ k.
                    hears
                      (shown (reasoning_id c) k r.active_item items true r.accumulated_reasoning)
                      (item_done r.active_item.output_index done))
                  kind
                ∙ ap
                    (λ n.
                      hears (in_reasoning items (reasoning_id c) r.accumulated_reasoning)
                        (item_done n done))
                    index
                ∙ hears_reasoning_end items (reasoning_id c) r.accumulated_reasoning
                ∙ sym (
                    ap
                      (λ k.
                        shown (reasoning_id c) k
                          (record r.active_item { output_index = 1 + r.active_item.output_index })
                          (items ++ done ∷ []) false r.accumulated_reasoning)
                      kind),
            (
              no_item,
              (
                kind,
                omega (arith, index, length-append items (done ∷ [])),
                tt,
                refl,
                state,
                acc,
                refl,
              ),
            ),
          )
      by_flag false e = rw e (refl, (no_item, (kind, index, tt, refl, state, acc, refl)))

  enter-Leads_next : (s : StreamState) (a : Str) → Leads c (Begun c s a) enter (Begun c s a)
  unfolding Leads close_reasoning ◌▷◌ follows
  enter-Leads_next s a r (k, p) = rw p.3 (refl, (k, (p.0, p.1, p.2, refl, p.4, p.5, refl)))

  enter-Leads : (b : Bool) (s : StreamState) (a : Str) → Leads c (Phase b s a) enter (Begun c s a)
  enter-Leads false s a = enter-Leads_first s a
  enter-Leads true s a = enter-Leads_next s a

  on_semantic-Leads :
      (b : Bool) (s : StreamState) (a : Str) (semantic : Option SemanticOutputDelta)
      → Leads c (Phase b s a) (on_semantic c semantic) (Begun c s a)
  unfolding on_semantic
  on_semantic-Leads b s a semantic =
      ▷-Leads c _ _ _ _ _
        (▷-Leads c _ _ _ _ _ (enter-Leads b s a)
          (on_tool_deltas-Leads c s a (tool_deltas semantic)))
        (on_content-Leads c s a _)

  -- The branch that a completion takes: the semantic one, or the text, of which nothing is sent.
  branch-Leads :
      (b w : Bool) (delta : Option Str) (s : StreamState) (a : Str)
      (semantic : Option SemanticOutputDelta)
      → (w || is_absent delta) ≡ true
      → Leads c
          (Phase b s a)
          (decide (λ _. w) (on_semantic c semantic) (on_text c (or_nothing delta)))
          (Phase (b || w) s a)
  unfolding on_text Leads follows
  branch-Leads false true delta s a semantic h = on_semantic-Leads false s a semantic
  branch-Leads true true delta s a semantic h = on_semantic-Leads true s a semantic
  branch-Leads false false none s a semantic h = λ r p. (refl, p)
  branch-Leads true false none s a semantic h = λ r p. (refl, p)
  branch-Leads b false (some text) s a semantic h = absurd (cc h)

  state_is : (b : Bool) (s : StreamState) (a : Str) (r : Run) → Phase b s a r → r.text_state ≡ s
  state_is false s a r p = p.5
  state_is true s a r (k, p) = p.4

  retext :
      (b : Bool) (s : StreamState) (a : Str) (s1 : StreamState) (r : Run)
      → Phase b s a r
      → Phase b s1 a (record r { text_state = s1 })
  retext false s a s1 r (kind, index, place, len, nothing_yet, state, acc, silent) =
      (kind, index, place, len, nothing_yet, refl, acc, silent)
  retext true s a s1 r (k, p) = (k, (p.0, p.1, p.2, p.3, refl, p.5, p.6))

  count-Leads :
      (b : Bool) (s : StreamState) (a : Str) (m : CompletionDelta)
      → Leads c (Phase b s a) (count_output m) (Phase b s a)
  unfolding Leads count_output follows
  count-Leads false s a m r p = (refl, p)
  count-Leads true s a m r (k, p) = (refl, (k, p))

  module _ (is_space : ℕ → Bool) where
    abbrev state_after : StreamState → CompletionDelta → StreamState
    state_after s m = (update is_space s m.text m.finish_reason).0

    -- What `on_output` does, by the state that the text has then.
    abbrev stepped : CompletionDelta → Run → StreamState → Run × List Sent
    stepped m r x =
        let (state, delta) = update is_space x m.text m.finish_reason in
        (decide (λ _. speaks m.semantic) (on_semantic c m.semantic) (on_text c (or_nothing delta))
            ▷ count_output m)
          (record r { text_state = state })

    pub output-Leads :
        (b : Bool) (s : StreamState) (a : Str) (m : CompletionDelta)
        → (speaks m.semantic || is_absent (update is_space s m.text m.finish_reason).1) ≡ true
        → Leads c
            (Phase b s a)
            (on_output c is_space m)
            (Phase (b || speaks m.semantic) (state_after s m) a)
    unfolding on_output count_output Leads ◌▷◌
    output-Leads b s a m h r p =
        let (s1, delta) = update is_space s m.text m.finish_reason in
        let b1 = b || speaks m.semantic in
        subst
          (λ x.
            (follows (view c r) (stepped m r x).1 ≡ view c (stepped m r x).0)
            × Phase b1 s1 a (stepped m r x).0)
          (sym (state_is b s a r p))
          (▷-Leads c (Phase b s1 a) (Phase b1 s1 a) (Phase b1 s1 a) _ _
            (branch-Leads b (speaks m.semantic) delta s1 a m.semantic h) (count-Leads b1 s1 a m)
            (record r { text_state = s1 }) (retext b s a s1 r p))

    pub reasoning-Leads :
        (b : Bool) (s : StreamState) (a text : Str)
        → is_fitting b a text ≡ true
        → Leads c (Phase b s a) (on_reasoning c text) (Phase b s (or_text text a))
    unfolding on_reasoning Leads follows
    reasoning-Leads false s a text h = on_reasoning-Leads c s a text h
    reasoning-Leads true s a [] h = λ r p. (refl, p)
    reasoning-Leads true s a (x ∷ text) h = λ r (k, p).
        let same = (str_eq_iff (x ∷ text) a).0 h in
        let known = ap (str_eq (x ∷ text)) p.5 ∙ h in
        rw known (refl, (k, (p.0, p.1, p.2, p.3, p.4, p.5 ∙ sym same, p.6)))
