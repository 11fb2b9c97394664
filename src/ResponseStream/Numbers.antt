-- ===== src/ResponseStream/Numbers.antt =====
-- The sequence numbers of the events of a streamed response (adapter/response_streaming.py).
use vfront.Common.{
  some, all, not, ◌&&◌, true, false, ℕ, suc, ◌+◌, Str, List, [], ◌∷◌, ◌++◌, map, Bool, ◌≡◌, refl,
  inl, inr, Bool-cases, length, length-map, sym, subst, arith,
}
use vfront.Streams.Chat.{Outcome, ended, failed, interrupted}
use vfront.ResponseStream.{
  ResponseObject, ResponseError, completed_status, failed_status, response_error, response_failed,
  response_completed, FunctionToolCall, Event, Sent, arguments_delta, arguments_done, item_done,
  call_item, ResponseCreateRequest,
}
use vfront.ResponseStream.Builders.{
  numbered, build_response_prelude_events, build_function_tool_call_events, argument_chunks,
  item_id_of, open_message_item, close_message_item, open_tool_call_item, close_tool_call_item,
}
use vfront.ResponseStream.Steps.{
  EngineEnd, exhausted, cancelled, raised, Run, Step, ◌▷◌, nothing, set, yields, emits, decide,
  when, close_message, close_tool_call, next_item,
}
use vfront.ResponseStream.Semantic.{send_arguments, send_content}

-- The numbers of the events are `a`, `a + 1` and so on, and `b` comes next.
unfoldable pub Consecutive : ℕ → List Sent → ℕ → Type 0
Consecutive a [] b = a ≡ b
Consecutive a ((n, e) ∷ sent) b = (n ≡ a) × Consecutive (suc a) sent b

pub Consecutive-append :
    (a b d : ℕ) (xs ys : List Sent)
    → Consecutive a xs b
    → Consecutive b ys d
    → Consecutive a (xs ++ ys) d
unfolding Consecutive
Consecutive-append a b d [] ys h k = rw h k
Consecutive-append a b d ((n, e) ∷ xs) ys (p, h) k = (p, Consecutive-append (suc a) b d xs ys h k)

pub Consecutive-count :
    (a b : ℕ) (xs : List Sent) → Consecutive a xs b → Consecutive a xs (a + length xs)
unfolding Consecutive
Consecutive-count a b [] h = omega arith
Consecutive-count a b ((n, e) ∷ xs) (p, h) =
    (p, subst (Consecutive (suc a) xs) (omega arith) (Consecutive-count (suc a) b xs h))

-- Whether an event is one of the last ones of a stream.
abbrev pub is_end : Event → Bool
is_end (response_error error) = true
is_end (response_failed response) = true
is_end (response_completed response) = true
is_end _ = false

-- The last events, by how the engine stops and how the generator is left.
pub data Ending : EngineEnd → Outcome → List Event → Type 0 where
  completes :
      (response : ResponseObject)
      → response.status ≡ completed_status
      → Ending exhausted ended (response_completed response ∷ [])
  fails :
      (reason : Str) (error : ResponseError) (response : ResponseObject)
      → error.message ≡ reason
      → response.error ≡ some error
      → response.status ≡ failed_status
      → Ending (raised reason) ended (response_error error ∷ response_failed response ∷ [])
  breaks_off : Ending cancelled interrupted []
  gives_up : Ending exhausted failed []

-- Consecutive events that do not end the stream.
unfoldable pub Ongoing : ℕ → List Sent → ℕ → Type 0
Ongoing a [] b = a ≡ b
Ongoing a ((n, e) ∷ sent) b = (n ≡ a) × (is_end e ≡ false) × Ongoing (suc a) sent b

pub Ongoing-Consecutive : (a b : ℕ) (xs : List Sent) → Ongoing a xs b → Consecutive a xs b
unfolding Ongoing Consecutive
Ongoing-Consecutive a b [] h = h
Ongoing-Consecutive a b ((n, e) ∷ xs) (p, q, h) = (p, Ongoing-Consecutive (suc a) b xs h)

-- No event ends the stream.
abbrev pub are_ongoing : List Sent → Bool
are_ongoing sent = all (λ x. not (is_end x.1)) sent

pub Ongoing-all : (a b : ℕ) (xs : List Sent) → Ongoing a xs b → are_ongoing xs ≡ true
unfolding Ongoing
Ongoing-all a b [] h = refl
Ongoing-all a b ((n, e) ∷ xs) (p, q, h) = rw q (Ongoing-all (suc a) b xs h)

pub Ongoing-append :
    (a b d : ℕ) (xs ys : List Sent) → Ongoing a xs b → Ongoing b ys d → Ongoing a (xs ++ ys) d
unfolding Ongoing
Ongoing-append a b d [] ys h k = rw h k
Ongoing-append a b d ((n, e) ∷ xs) ys (p, q, h) k = (p, q, Ongoing-append (suc a) b d xs ys h k)

both : (a : Bool) {b : Bool} → a && b ≡ true → (a ≡ true) × (b ≡ true)
both a h = ground arith

negated : (a : Bool) → not a ≡ true → a ≡ false
negated a h = ground arith

pub numbered-Ongoing :
    (a : ℕ) (es : List Event)
    → all (λ e. not (is_end e)) es ≡ true
    → Ongoing a (numbered a es) (a + length es)
unfolding Ongoing numbered
numbered-Ongoing a [] q = omega arith
numbered-Ongoing a (e ∷ es) q =
    let (quiet, others) = both (not (is_end e)) q in
    let rest = numbered-Ongoing (suc a) es others in
    let same : suc a + length es ≡ a + suc (length es) = omega arith in
    (refl, negated (is_end e) quiet, rw (sym same) rest)

chunks_quiet :
    (i : ℕ) (id : Str) (chunks : List Str)
    → all (λ e. not (is_end e)) (map (arguments_delta i id) chunks) ≡ true
chunks_quiet i id [] = refl
chunks_quiet i id (s ∷ chunks) = chunks_quiet i id chunks

pub build_function_tool_call_events-Ongoing :
    (item : FunctionToolCall) (i seq size : ℕ)
    → let (events, next) = build_function_tool_call_events item i seq size in
      Ongoing seq events next
unfolding build_function_tool_call_events Ongoing
build_function_tool_call_events-Ongoing item i seq size =
    let chunks = argument_chunks item.arguments size in
    let item_id = item_id_of item.id item.call_id in
    let count = length-map (arguments_delta i item_id) chunks in
    let numbers =
      numbered-Ongoing (suc seq) (map (arguments_delta i item_id) chunks)
        (chunks_quiet i item_id chunks) in
    let after = suc seq + length chunks in
    let last =
      (after, arguments_done i item_id item.name item.arguments)
      ∷ (suc after, item_done i (call_item item))
      ∷ [] in
    let ends : Ongoing after last (suc (suc after)) = (refl, refl, (refl, refl, refl)) in
    let begins =
      subst
        (λ n.
          Ongoing (suc seq) (numbered (suc seq) (map (arguments_delta i item_id) chunks))
            (suc seq + n))
        count numbers in
    (refl, refl, Ongoing-append (suc seq) after (suc (suc after)) _ last begins ends)

pub build_response_prelude_events-Ongoing :
    (request : ResponseCreateRequest) (id : Str) (at seq : ℕ)
    → let (events, next) = build_response_prelude_events request id at seq in
      Ongoing seq events next
unfolding build_response_prelude_events Ongoing
build_response_prelude_events-Ongoing request id at seq =
    (refl, refl, (omega arith, refl, omega arith))

pub open_tool_call_item-Ongoing :
    (i : ℕ) (item_id call_id name : Str) (seq : ℕ)
    → let (events, next) = open_tool_call_item i item_id call_id name seq in Ongoing seq events next
unfolding open_tool_call_item Ongoing
open_tool_call_item-Ongoing i item_id call_id name seq = (refl, refl, omega arith)

pub open_message_item-Ongoing :
    (i : ℕ) (item_id : Str) (content_index seq : ℕ)
    → let (events, next) = open_message_item i item_id content_index seq in Ongoing seq events next
unfolding open_message_item Ongoing
open_message_item-Ongoing i item_id content_index seq =
    (refl, refl, (omega arith, refl, omega arith))

-- What a step sends is numbered from `seq` before to `seq` after, and does not end the stream.
unfoldable pub IsNumbered : Step → Type 0
IsNumbered f = (r : Run) → Ongoing r.seq (f r).1 (f r).0.seq

pub ▷-IsNumbered : (f g : Step) → IsNumbered f → IsNumbered g → IsNumbered (f ▷ g)
unfolding IsNumbered ◌▷◌
▷-IsNumbered f g h k r = Ongoing-append _ _ _ _ _ (h r) (k (f r).0)

pub decide-IsNumbered :
    (test : Run → Bool) (f g : Step) → IsNumbered f → IsNumbered g → IsNumbered (decide test f g)
unfolding IsNumbered
decide-IsNumbered test f g h k r = elim (Bool-cases (test r)) [
  | inl h1 ↦ rw h1 (h r)
  | inr h0 ↦ rw h0 (k r)
]

pub nothing-IsNumbered : IsNumbered nothing
unfolding IsNumbered Ongoing
nothing-IsNumbered r = refl

pub when-IsNumbered : (test : Run → Bool) (f : Step) → IsNumbered f → IsNumbered (when test f)
when-IsNumbered test f h = decide-IsNumbered test f nothing h nothing-IsNumbered

pub yields-IsNumbered :
    (e : Run → Event) → ((r : Run) → is_end (e r) ≡ false) → IsNumbered (yields e)
unfolding IsNumbered Ongoing
yields-IsNumbered e q r = (refl, q r, refl)

-- A step that sends nothing and leaves `seq` as it is.
pub set-IsNumbered : (f : Run → Run) → ((r : Run) → (f r).seq ≡ r.seq) → IsNumbered (set f)
unfolding IsNumbered Ongoing
set-IsNumbered f h r = sym (h r)

pub emits-IsNumbered :
    (build : Run → ℕ → List Sent × ℕ)
    → ((r : Run) (seq : ℕ) → Ongoing seq (build r seq).0 (build r seq).1)
    → IsNumbered (emits build)
unfolding IsNumbered
emits-IsNumbered build h r = h r r.seq

pub next_item-IsNumbered : IsNumbered next_item
unfolding next_item
next_item-IsNumbered = set-IsNumbered _ (λ r. refl)

pub close_message-IsNumbered : IsNumbered close_message
unfolding close_message close_message_item Ongoing IsNumbered
close_message-IsNumbered r = (refl, refl, (omega arith, refl, (omega arith, refl, omega arith)))

pub close_tool_call-IsNumbered : IsNumbered close_tool_call
unfolding close_tool_call close_tool_call_item Ongoing IsNumbered
close_tool_call-IsNumbered r = (refl, refl, (omega arith, refl, omega arith))

pub send_arguments-IsNumbered : (s : Str) → IsNumbered (send_arguments s)
unfolding send_arguments
send_arguments-IsNumbered [] = nothing-IsNumbered
send_arguments-IsNumbered (d ∷ s) =
    ▷-IsNumbered _ _ (yields-IsNumbered _ (λ r. refl)) (set-IsNumbered _ (λ r. refl))

pub send_content-IsNumbered : (s : Str) → IsNumbered (send_content s)
unfolding send_content
send_content-IsNumbered s =
    ▷-IsNumbered _ _ (yields-IsNumbered _ (λ r. refl)) (set-IsNumbered _ (λ r. refl))
