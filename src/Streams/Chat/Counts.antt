-- ===== src/Streams/Chat/Counts.antt =====
-- The tokens that `stream_chat_completion` counts.
use vfront.Common.{
  ℕ, ◌+◌, ◌-◌, ◌≤◌, Str, List, [], ◌∷◌, ◌++◌, Bool, true, false, ◌&&◌, Option, ◌≡◌, refl, sym, ap,
  ◌∙◌, inl, inr, Bool-cases, all, length, ltb, leb, ◌==◌, if◌then◌else◌, arith,
}
use vfront.Output.{StreamState, update}
use vfront.Streams.{CompletionDelta, GenerateOutput, SemanticToolCallDelta}
use vfront.Streams.Choices.{Chunk, Choice, Choices, new_choice, lookup, store}
use vfront.Streams.Choices.Laws.{
  keys, is_ascending, lookup-store, lookup-store_other, is_ascending-store,
}
use vfront.Streams.Chat.{
  Run, tool_deltas, new_tokens, pass_text, pass_semantic, on_choice, on_completion, on_completions,
  on_outputs,
}
use vfront.Streams.Chat.Alone.{all_completions}

-- The count of a choice after a completion: one with deltas of tool calls leaves it as it is.
abbrev count_after : ℕ → CompletionDelta → ℕ
count_after old m = elim (tool_deltas m.semantic) [ [] ↦ length m.token_ids | _ ∷ _ ↦ old ]

abbrev add_count : CompletionDelta → List ℕ → List ℕ
add_count m rest = elim (tool_deltas m.semantic) [ [] ↦ length m.token_ids ∷ rest | _ ∷ _ ↦ rest ]

-- The numbers of tokens that the completions of a choice carry, less those with deltas of tool calls.
unfoldable pub counts : ℕ → List CompletionDelta → List ℕ
counts i [] = []
counts i (m ∷ ms) = let rest = counts i ms in if i == m.index then add_count m rest else rest

unfoldable pub is_rising : ℕ → List ℕ → Bool
is_rising old [] = true
is_rising old (n ∷ ns) = leb old n && is_rising n ns

unfoldable pub last_count : ℕ → List ℕ → ℕ
last_count old [] = old
last_count old (n ∷ ns) = last_count n ns

-- The sum over the choices.
unfoldable pub counted : Choices → ℕ
counted [] = 0
counted ((i, c) ∷ l) = c.token_count + counted l

lookup_absent :
    (i j : ℕ) (default : Choice) (l : Choices)
    → i ≤ j
    → all (λ k. ltb j k) (keys l) ≡ true
    → lookup i default l ≡ default
unfolding lookup
lookup_absent i j default [] h p = refl
lookup_absent i j default ((k, c) ∷ l) h p =
    let rest = lookup_absent i j default l h (ground arith) in
    let other : (i == k) ≡ false = ground arith in rw other rest

counted-store :
    (i : ℕ) (default c : Choice) (l : Choices)
    → default.token_count ≡ 0
    → is_ascending (keys l) ≡ true
    → counted (store i c l) + (lookup i default l).token_count ≡ counted l + c.token_count
unfolding counted store lookup
counted-store i default c [] d h = ground (arith, d)
counted-store i default c ((j, e) ∷ l) d h =
    let ih = counted-store i default c l d (ground arith) in
    elim (Bool-cases (i == j)) [
      | inl here ↦ rw here (omega arith)
      | inr other ↦ elim (Bool-cases (ltb i j)) [
        | inl before ↦
            let absent = lookup_absent i j default l (ground arith) (ground arith) in
            rw (other, before, absent, d) (omega arith)
        | inr behind ↦ rw (other, behind) (omega (arith, ih))
      ]
    ]

-- What a completion with these deltas, of these many tokens, makes of a count.
module _ (n old : ℕ) (rest : List ℕ) where
  last_count-add :
      (deltas : List SemanticToolCallDelta)
      → last_count (elim deltas [ [] ↦ n | _ ∷ _ ↦ old ]) rest
        ≡ last_count old (elim deltas [ [] ↦ n ∷ rest | _ ∷ _ ↦ rest ])
  unfolding last_count
  last_count-add [] = refl
  last_count-add (d ∷ deltas) = refl

  is_rising-add :
      (deltas : List SemanticToolCallDelta)
      → is_rising old (elim deltas [ [] ↦ n ∷ rest | _ ∷ _ ↦ rest ]) ≡ true
      → is_rising (elim deltas [ [] ↦ n | _ ∷ _ ↦ old ]) rest ≡ true
  unfolding is_rising
  is_rising-add [] h = ground arith
  is_rising-add (d ∷ deltas) h = h

  new_tokens-add :
      (deltas : List SemanticToolCallDelta)
      → is_rising old (elim deltas [ [] ↦ n ∷ rest | _ ∷ _ ↦ rest ]) ≡ true
      → let new : ℕ = elim deltas [ [] ↦ n - old | _ ∷ _ ↦ 0 ] in
        let after : ℕ = elim deltas [ [] ↦ n | _ ∷ _ ↦ old ] in new + old ≡ after
  unfolding is_rising
  new_tokens-add [] h = ground arith
  new_tokens-add (d ∷ deltas) h = omega arith

add_count-append :
    (n : ℕ) (a b : List ℕ) (deltas : List SemanticToolCallDelta)
    → let after : List ℕ = elim deltas [ [] ↦ n ∷ (a ++ b) | _ ∷ _ ↦ a ++ b ] in
      let front : List ℕ = elim deltas [ [] ↦ n ∷ a | _ ∷ _ ↦ a ] in after ≡ front ++ b
add_count-append n a b [] = refl
add_count-append n a b (d ∷ deltas) = refl

module _ (is_space : ℕ → Bool) where
  on_choice-count :
      (i : ℕ) (c : Choice) (m : CompletionDelta)
      → (on_choice is_space i c m).0.token_count ≡ count_after c.token_count m
  unfolding on_choice pass_text pass_semantic
  on_choice-count i c m =
      by_deltas (tool_deltas m.semantic) (update is_space c.state m.text m.finish_reason)
    where
      by_deltas :
          (deltas : List SemanticToolCallDelta) (u : StreamState × Option Str)
          → let stepped : Choice × List Chunk = elim deltas [
            | [] ↦ pass_text i (record c { state = u.0 }) m u.1
            | d ∷ ds ↦ pass_semantic i (record c { state = u.0 }) m (d ∷ ds)
          ] in
            let count : ℕ = elim deltas [ [] ↦ length m.token_ids | _ ∷ _ ↦ c.token_count ] in
            stepped.0.token_count ≡ count
      by_deltas [] u = refl
      by_deltas (d ∷ ds) u = refl

  module _ (has : Bool) where
    abbrev count_of : ℕ → Run → ℕ
    count_of i r = (lookup i (new_choice has) r.choices).token_count

    pub record IsCounted (r : Run) : Type 0 where
      pub order : is_ascending (keys r.choices) ≡ true
      pub total : r.completion_tokens ≡ counted r.choices

    count_step :
        (i : ℕ) (r : Run) (m : CompletionDelta)
        → count_of i (on_completion is_space has r m).0
          ≡ (if i == m.index then count_after (count_of i r) m else count_of i r)
    unfolding on_completion
    count_step i r m =
        let c = lookup m.index (new_choice has) r.choices in
        let c' = (on_choice is_space m.index c m).0 in
        elim (Bool-cases (i == m.index)) [
          | inl same ↦
              let e : i ≡ m.index = ground (arith, same) in
              rw same (
                ap (λ j. (lookup j (new_choice has) (store m.index c' r.choices)).token_count) e
                ∙ ap (λ d. d.token_count) (lookup-store m.index (new_choice has) c' r.choices)
                ∙ on_choice-count m.index c m
                ∙ ap (λ j. count_after (count_of j r) m) (sym e))
          | inr other ↦ rw other (
              ap (λ d. d.token_count)
                (lookup-store_other m.index i (new_choice has) c' r.choices other))
        ]

    on_completion-count :
        (i : ℕ) (r : Run) (m : CompletionDelta) (ms : List CompletionDelta)
        → last_count (count_of i (on_completion is_space has r m).0) (counts i ms)
          ≡ last_count (count_of i r) (counts i (m ∷ ms))
    unfolding counts
    on_completion-count i r m ms = elim (Bool-cases (i == m.index)) [
      | inl same ↦
          rw (count_step i r m, same)
            (last_count-add (length m.token_ids) (count_of i r) (counts i ms)
              (tool_deltas m.semantic))
      | inr other ↦ rw (count_step i r m, other) refl
    ]

    on_completion-is_rising :
        (i : ℕ) (r : Run) (m : CompletionDelta) (ms : List CompletionDelta)
        → is_rising (count_of i r) (counts i (m ∷ ms)) ≡ true
        → is_rising (count_of i (on_completion is_space has r m).0) (counts i ms) ≡ true
    unfolding counts
    on_completion-is_rising i r m ms h = elim (Bool-cases (i == m.index)) [
      | inl same ↦
          rw (count_step i r m, same)
            (is_rising-add (length m.token_ids) (count_of i r) (counts i ms)
              (tool_deltas m.semantic) (rw same at h))
      | inr other ↦ rw (count_step i r m, other) (rw other at h)
    ]

    on_completion-IsCounted :
        (r : Run) (m : CompletionDelta) (ms : List CompletionDelta)
        → is_rising (count_of m.index r) (counts m.index (m ∷ ms)) ≡ true
        → IsCounted r
        → IsCounted (on_completion is_space has r m).0
    unfolding on_completion counts new_tokens new_choice
    on_completion-IsCounted r m ms h counted_so =
        let j = m.index in
        let c = lookup j (new_choice has) r.choices in
        let c' = (on_choice is_space j c m).0 in
        let self : (j == j) ≡ true = ground arith in
        let h' : is_rising c.token_count (add_count m (counts j ms)) ≡ true = rw self at h in
        let grown =
          new_tokens-add (length m.token_ids) c.token_count (counts j ms) (tool_deltas m.semantic)
            h' in
        let stored = counted-store j (new_choice has) c' r.choices refl counted_so.order in
        let count_is = on_choice-count j c m in
        record {
          order = is_ascending-store j c' r.choices counted_so.order;
          total = omega (arith, grown, stored, count_is, counted_so.total);
        }

    -- The counts of every choice never fall.
    abbrev pub NeverFalls : Run → List CompletionDelta → Type 0
    NeverFalls r ms = (i : ℕ) → is_rising (count_of i r) (counts i ms) ≡ true

    -- A run over completions, from a run whose total is right.
    abbrev Counts : Run → List CompletionDelta → Run → Type 0
    Counts r ms r' =
        IsCounted r' × ((i : ℕ) → count_of i r' ≡ last_count (count_of i r) (counts i ms))

    on_completions-Counts :
        (r : Run) (ms : List CompletionDelta)
        → NeverFalls r ms
        → IsCounted r
        → Counts r ms (on_completions is_space has r ms).0
    unfolding on_completions counts last_count
    on_completions-Counts r [] rising right = (right, λ i. refl)
    on_completions-Counts r (m ∷ ms) rising right =
        let r1 = (on_completion is_space has r m).0 in
        let (right', last) =
          on_completions-Counts r1 ms (λ i. on_completion-is_rising i r m ms (rising i))
            (on_completion-IsCounted r m ms (rising m.index) right) in
        (right', λ i. last i ∙ on_completion-count i r m ms)

    counts-append :
        (i : ℕ) (ms ns : List CompletionDelta) → counts i (ms ++ ns) ≡ counts i ms ++ counts i ns
    unfolding counts
    counts-append i [] ns = refl
    counts-append i (m ∷ ms) ns =
        let ih = counts-append i ms ns in
        elim (Bool-cases (i == m.index)) [
          | inl same ↦
              rw (same, ih)
                (add_count-append (length m.token_ids) (counts i ms) (counts i ns)
                  (tool_deltas m.semantic))
          | inr other ↦ rw (other, ih) refl
        ]

    last_count-append :
        (old : ℕ) (a b : List ℕ) → last_count old (a ++ b) ≡ last_count (last_count old a) b
    unfolding last_count
    last_count-append old [] b = refl
    last_count-append old (n ∷ a) b = last_count-append n a b

    is_rising-append :
        (old : ℕ) (a b : List ℕ)
        → is_rising old (a ++ b) ≡ true
        → (is_rising old a ≡ true) × (is_rising (last_count old a) b ≡ true)
    unfolding is_rising last_count
    is_rising-append old [] b h = (refl, h)
    is_rising-append old (n ∷ a) b h =
        let (here, there) = is_rising-append n a b (ground arith) in
        (ground (arith, h, here), there)

    pub on_outputs-Counts :
        (r : Run) (outputs : List GenerateOutput)
        → NeverFalls r (all_completions outputs)
        → IsCounted r
        → Counts r (all_completions outputs) (on_outputs is_space has r outputs).0
    unfolding on_outputs counts last_count
    on_outputs-Counts r [] rising right = (right, λ i. refl)
    on_outputs-Counts r (output ∷ outputs) rising right =
        let r0 = record r { prompt_tokens = length output.prompt_token_ids } in
        let r1 = (on_completions is_space has r0 output.outputs).0 in
        let more = all_completions outputs in
        let halves = λ (i : ℕ).
          is_rising-append (count_of i r) (counts i output.outputs) (counts i more) (
            ap (is_rising (count_of i r)) (sym (counts-append i output.outputs more)) ∙ rising i) in
        let (right1, last1) =
          on_completions-Counts r0 output.outputs (λ i. (halves i).0)
            (record { order = right.order; total = right.total }) in
        let (right2, last2) =
          on_outputs-Counts r1 outputs
            (λ i. ap (λ t. is_rising t (counts i more)) (last1 i) ∙ (halves i).1) right1 in
        (
          right2,
          λ i.
              last2 i
              ∙ ap (λ t. last_count t (counts i more)) (last1 i)
              ∙ sym (last_count-append (count_of i r) (counts i output.outputs) (counts i more))
              ∙ ap (last_count (count_of i r)) (sym (counts-append i output.outputs more)),
        )
