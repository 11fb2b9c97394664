-- ===== src/ResponseStream/Heard.antt =====
-- What a client of the streamed response makes of the events of one item (adapter/response_streaming.py).
use vfront.Common.{
  ℕ, suc, ◌+◌, Str, List, [], ◌∷◌, ◌++◌, map, true, false, str_eq, str_eq_self, ◌==◌, length, ◌≡◌,
  refl, ap, ◌∙◌, arith, some, sym, ◌<◌,
}
use mathlib.Core.List.{append_assoc, append-nil}
use vfront.Output.Streamed.{joined}
use vfront.ResponseStream.{
  FunctionToolCall, OutputItem, call_item, reasoning_item, item_added, item_done, text_delta,
  arguments_delta, arguments_done, in_progress,
}
use vfront.ResponseStream.Builders.{
  numbered, item_id_of, argument_chunks, build_function_tool_call_events, done_message, done_call,
  open_message_item, close_message_item, open_tool_call_item, close_tool_call_item,
}
use vfront.ResponseStream.Chunks.{argument_chunks-join}
use vfront.ResponseStream.Client.{
  follows-cons, between, in_reasoning, in_message, in_call, writing, call_name_id, opened, hears,
  follows, follows-append,
}

pub ==-self : (n : ℕ) → (n == n) ≡ true
==-self n = ground arith

pub follows-open_message :
    (items : List OutputItem) (id : Str) (seq : ℕ)
    → follows (between items) (open_message_item (length items) id 0 seq).0
      ≡ in_message items writing id []
unfolding follows hears opened open_message_item str_eq
follows-open_message items id seq = simp (==-self (length items), str_eq_self id) refl

pub follows-close_message :
    (items : List OutputItem) (id text : Str) (seq : ℕ)
    → follows (in_message items writing id text) (close_message_item (length items) id 0 text seq).0
      ≡ between (items ++ done_message id text ∷ [])
unfolding follows hears close_message_item
follows-close_message items id text seq =
    simp (==-self (length items), str_eq_self id, str_eq_self text) refl

-- A call that has been announced with an id.
abbrev pub begun : Str → Str → Str → FunctionToolCall
begun id call_id name = record {
  id = id;
  call_id = call_id;
  name = name;
  arguments = [];
  status = some in_progress;
}

pub follows-open_call :
    (items : List OutputItem) (id call_id name : Str) (seq : ℕ)
    → follows (between items) (open_tool_call_item (length items) id call_id name seq).0
      ≡ in_call items (begun id call_id name) [] false
unfolding follows hears opened open_tool_call_item
follows-open_call items id call_id name seq = simp (==-self (length items)) refl

pub follows-close_call :
    (items : List OutputItem) (id call_id name args : Str) (seq : ℕ)
    → item_id_of id call_id ≡ id
    → follows
        (in_call items (begun id call_id name) args false)
        (close_tool_call_item (length items) id call_id name args seq).0
      ≡ between (items ++ done_call id call_id name args ∷ [])
unfolding follows hears close_tool_call_item
follows-close_call items id call_id name args seq h =
    simp
      (
        h,
        ==-self (length items),
        str_eq_self id,
        str_eq_self call_id,
        str_eq_self name,
        str_eq_self args,
      )
      refl

pub hears_delta :
    (items : List OutputItem) (call : FunctionToolCall) (args s : Str)
    → hears (in_call items call args false) (arguments_delta (length items) (call_name_id call) s)
      ≡ in_call items call (args ++ s) false
unfolding hears
hears_delta items call args s =
    simp (==-self (length items), str_eq_self (item_id_of call.id call.call_id)) refl

follows-deltas :
    (items : List OutputItem) (call : FunctionToolCall) (args : Str) (seq : ℕ) (chunks : List Str)
    → follows
        (in_call items call args false)
        (numbered seq (map (arguments_delta (length items) (call_name_id call)) chunks))
      ≡ in_call items call (args ++ joined chunks) false
unfolding follows numbered
follows-deltas items call args seq [] = rw (append-nil args) refl
follows-deltas items call args seq (s ∷ chunks) =
    let rest =
      numbered (suc seq) (map (arguments_delta (length items) (call_name_id call)) chunks) in
    ap (λ client. follows client rest) (hears_delta items call args s)
    ∙ follows-deltas items call (args ++ s) (suc seq) chunks
    ∙ ap (λ l. in_call items call l false) (append_assoc args s (joined chunks))

-- What a client makes of a call that has been announced as a whole, from its deltas on.
follows-call_end :
    (items : List OutputItem) (call : FunctionToolCall) (seq next : ℕ)
    → follows (in_call items call call.arguments false) (
        (seq, arguments_done (length items) (call_name_id call) call.name call.arguments)
        ∷ (next, item_done (length items) (call_item call))
        ∷ [])
      ≡ between (items ++ call_item call ∷ [])
unfolding follows hears
follows-call_end items call seq next =
    simp
      (
        ==-self (length items),
        str_eq_self (item_id_of call.id call.call_id),
        str_eq_self call.id,
        str_eq_self call.call_id,
        str_eq_self call.name,
        str_eq_self call.arguments,
      )
      refl

pub hears_call :
    (items : List OutputItem) (call : FunctionToolCall)
    → hears (between items) (item_added (length items) (call_item call))
      ≡ in_call items call [] false
unfolding hears opened
hears_call items call = simp (==-self (length items)) refl

-- A call that is sent as a whole comes in as it is.
pub follows-tool_call :
    (items : List OutputItem) (call : FunctionToolCall) (seq size : ℕ)
    → 0 < size
    → follows (between items) (build_function_tool_call_events call (length items) seq size).0
      ≡ between (items ++ call_item call ∷ [])
unfolding build_function_tool_call_events
follows-tool_call items call seq size p =
    let chunks = argument_chunks call.arguments size in
    let deltas =
      numbered (suc seq) (map (arguments_delta (length items) (call_name_id call)) chunks) in
    let after = suc seq + length chunks in
    let last =
      (after, arguments_done (length items) (call_name_id call) call.name call.arguments)
      ∷ (suc after, item_done (length items) (call_item call))
      ∷ [] in
    follows-cons (between items) seq (item_added (length items) (call_item call)) (deltas ++ last)
    ∙ ap (λ client. follows client (deltas ++ last)) (hears_call items call)
    ∙ follows-append (in_call items call [] false) deltas last
    ∙ ap (λ client. follows client last) (follows-deltas items call [] (suc seq) chunks)
    ∙ ap (λ l. follows (in_call items call l false) last)
        (argument_chunks-join call.arguments size p)
    ∙ follows-call_end items call after (suc after)

pub hears_text :
    (items : List OutputItem) (id text s : Str) (k : ℕ)
    → hears (in_message items writing id text) (text_delta (length items) id k s)
      ≡ in_message items writing id (text ++ s)
unfolding hears
hears_text items id text s k = simp (==-self (length items), str_eq_self id) refl

pub joined_snoc : (parts : List Str) (s : Str) → joined (parts ++ s ∷ []) ≡ joined parts ++ s
joined_snoc [] s = append-nil s
joined_snoc (t ∷ parts) s =
    ap (λ l. t ++ l) (joined_snoc parts s) ∙ sym (append_assoc t (joined parts) s)

pub hears_reasoning :
    (items : List OutputItem) (id : Str)
    → hears
        (between items)
        (item_added (length items) (reasoning_item (record { id = id; summary = [] })))
      ≡ in_reasoning items id []
unfolding hears opened
hears_reasoning items id = simp (==-self (length items)) refl

pub hears_thought :
    (items : List OutputItem) (id text s : Str) (k : ℕ)
    → hears (in_reasoning items id text) (text_delta (length items) id k s)
      ≡ in_reasoning items id (text ++ s)
unfolding hears
hears_thought items id text s k = simp (==-self (length items), str_eq_self id) refl

pub hears_reasoning_end :
    (items : List OutputItem) (id text : Str)
    → let done = reasoning_item (record { id = id; summary = text ∷ [] }) in
      hears (in_reasoning items id text) (item_done (length items) done)
      ≡ between (items ++ done ∷ [])
unfolding hears
hears_reasoning_end items id text =
    simp (==-self (length items), str_eq_self id, str_eq_self text) refl
