-- ===== src/ResponseStream/Chunks.antt =====
-- The arguments of a tool call that is sent as a whole (adapter/response_streaming.py).
use vfront.Common.{
  ℕ, zero, suc, ◌+◌, ◌≤◌, ◌<◌, Str, List, [], ◌∷◌, ◌++◌, map, Bool, true, all, leb, ltb, length,
  take, drop, length-take, take-drop, ◌≡◌, refl, ap, ◌∙◌, sym, arith, Bool-cases, inl, inr,
}
use mathlib.Core.List.{append_assoc, append-nil}
use vfront.Output.Streamed.{joined}
use vfront.ResponseStream.{FunctionToolCall, Event, arguments_delta, Sent}
use vfront.ResponseStream.Builders.{
  numbered, range_from, chunk_starts, argument_chunks, item_id_of, build_function_tool_call_events,
}

-- The arguments that a client puts together from the deltas.
abbrev pub delta_of : Event → Str
delta_of (arguments_delta i id s) = s
delta_of _ = []

unfoldable pub sent_arguments : List Sent → Str
sent_arguments [] = []
sent_arguments ((n, e) ∷ sent) = delta_of e ++ sent_arguments sent

-- Whether no delta is longer than the size of a chunk.
abbrev pub are_short : ℕ → List Sent → Bool
are_short size sent = all (λ x. leb (length (delta_of x.1)) size) sent

drop_none : (n : ℕ) (s : Str) → length s ≤ n → drop n s ≡ []
drop_none zero [] h = refl
drop_none zero (x ∷ s) h = absurd (omega arith)
drop_none (suc n) [] h = refl
drop_none (suc n) (x ∷ s) h = drop_none n s (omega arith)

drop-drop : (m n : ℕ) (s : Str) → drop n (drop m s) ≡ drop (m + n) s
drop-drop zero n s = ap (λ k. drop k s) (omega arith)
drop-drop (suc m) n [] = drop_none n [] (omega arith) ∙ sym (drop_none (suc m + n) [] (omega arith))
drop-drop (suc m) n (x ∷ s) =
    let next : suc m + n ≡ suc (m + n) = omega arith in rw next (drop-drop m n s)

-- From each start a slice: together what is left from the first start on.
slices_join :
    (fuel start size : ℕ) (s : Str)
    → 0 < size
    → length s ≤ start + fuel
    → joined (map (λ i. take size (drop i s)) (range_from fuel start (length s) size))
      ≡ drop start s
unfolding range_from
slices_join zero start size s p h = sym (drop_none start s (omega arith))
slices_join (suc fuel) start size s p h = elim (Bool-cases (ltb start (length s))) [
  | inl more ↦
      rw (more, slices_join fuel (start + size) size s p (omega arith))
        (ap (λ l. take size (drop start s) ++ l) (sym (drop-drop start size s))
          ∙ take-drop size (drop start s))
  | inr over ↦ rw over (sym (drop_none start s (ground arith)))
]

pub argument_chunks-join : (s : Str) (size : ℕ) → 0 < size → joined (argument_chunks s size) ≡ s
unfolding argument_chunks chunk_starts
argument_chunks-join [] zero p = refl
argument_chunks-join [] (suc size) p = refl
argument_chunks-join (x ∷ s) size p = slices_join (length (x ∷ s)) 0 size (x ∷ s) p (omega arith)

slices_short :
    (size : ℕ) (s : Str) (starts : List ℕ)
    → all (λ d. leb (length d) size) (map (λ i. take size (drop i s)) starts) ≡ true
slices_short size s [] = refl
slices_short size s (i ∷ starts) =
    ground (arith, length-take size (drop i s), slices_short size s starts)

sent_deltas :
    (i : ℕ) (id : Str) (seq : ℕ) (chunks : List Str)
    → sent_arguments (numbered seq (map (arguments_delta i id) chunks)) ≡ joined chunks
unfolding sent_arguments numbered
sent_deltas i id seq [] = refl
sent_deltas i id seq (s ∷ chunks) = ap (λ l. s ++ l) (sent_deltas i id (suc seq) chunks)

deltas_short :
    (size i : ℕ) (id : Str) (seq : ℕ) (chunks : List Str)
    → all (λ d. leb (length d) size) chunks ≡ true
    → are_short size (numbered seq (map (arguments_delta i id) chunks)) ≡ true
unfolding numbered
deltas_short size i id seq [] h = refl
deltas_short size i id seq (s ∷ chunks) h = ground (arith, deltas_short size i id (suc seq) chunks)

sent_arguments-append :
    (a b : List Sent) → sent_arguments (a ++ b) ≡ sent_arguments a ++ sent_arguments b
unfolding sent_arguments
sent_arguments-append [] b = refl
sent_arguments-append ((n, e) ∷ a) b =
    ap (λ l. delta_of e ++ l) (sent_arguments-append a b)
    ∙ sym (append_assoc (delta_of e) (sent_arguments a) (sent_arguments b))

all-append_short :
    (size : ℕ) (a b : List Sent)
    → are_short size a ≡ true
    → are_short size b ≡ true
    → are_short size (a ++ b) ≡ true
all-append_short size [] b h k = k
all-append_short size (x ∷ a) b h k = ground (arith, all-append_short size a b)

-- Where the size of a chunk is not zero, a client that joins the deltas of a tool call that is sent
-- as a whole gets its arguments, and no delta is longer than that size.
pub build_function_tool_call_events-arguments :
    (item : FunctionToolCall) (i seq size : ℕ)
    → 0 < size
    → let events = (build_function_tool_call_events item i seq size).0 in
      (sent_arguments events ≡ item.arguments) × (are_short size events ≡ true)
unfolding build_function_tool_call_events sent_arguments argument_chunks
build_function_tool_call_events-arguments item i seq size p =
    let id = item_id_of item.id item.call_id in
    let chunks = argument_chunks item.arguments size in
    let short =
      deltas_short size i id (suc seq) chunks
        (slices_short size item.arguments (chunk_starts item.arguments size)) in
    let zero_fits : leb 0 size ≡ true = ground arith in
    let whole = sent_deltas i id (suc seq) chunks ∙ argument_chunks-join item.arguments size p in
    (
      sent_arguments-append (numbered (suc seq) (map (arguments_delta i id) chunks)) _
          ∙ append-nil _
          ∙ whole,
      rw zero_fits (
          all-append_short size (numbered (suc seq) (map (arguments_delta i id) chunks)) _ short
            (rw zero_fits refl)),
    )
