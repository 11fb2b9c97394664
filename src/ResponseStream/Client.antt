-- ===== src/ResponseStream/Client.antt =====
-- A client of the streamed response (adapter/response_streaming.py): it follows the events of the
-- protocol and puts the items of the output together from them.
use vfront.Common.{
  ℕ, Str, List, [], ◌∷◌, ◌++◌, Bool, true, false, ◌&&◌, str_eq, ◌==◌, length, if◌then◌else◌, ◌≡◌,
  refl,
}
use vfront.ResponseStream.{
  OutputMessage, FunctionToolCall, ReasoningItem, OutputItem, message_item, call_item,
  reasoning_item, ResponseObject, Event, response_created, response_in_progress, item_added,
  item_done, part_added, part_done, text_delta, text_done, arguments_delta, arguments_done,
  response_completed, Sent,
}
use vfront.ResponseStream.Builders.{item_id_of}

-- How far a message has come.
pub data Stage : Type 0 where
  announced writing written rounded_off : Stage

-- What a client knows: the items that are finished, and what it has got of the one that is open. An
-- event that does not fit breaks it.
pub data Client : Type 0 where
  between : List OutputItem → Client
  in_reasoning : List OutputItem → Str → Str → Client
  in_message : List OutputItem → Stage → Str → Str → Client
  in_call : List OutputItem → FunctionToolCall → Str → Bool → Client
  complete_with : List OutputItem → ResponseObject → Client
  broken : Client

abbrev pub call_name_id : FunctionToolCall → Str
call_name_id call = item_id_of call.id call.call_id

unfoldable pub opened : List OutputItem → OutputItem → Client
opened items (message_item m) = in_message items announced m.id []
opened items (call_item call) = in_call items call [] false
opened items (reasoning_item m) = in_reasoning items m.id []

-- The item that is open must end as it was announced, with what the deltas gave.
abbrev is_whole_message : Str → Str → OutputMessage → Bool
is_whole_message id text m = str_eq m.id id && is_alone text m.content
  where
    is_alone : Str → List Str → Bool
    is_alone text (s ∷ []) = str_eq s text
    is_alone text _ = false

abbrev is_whole_call : FunctionToolCall → Str → FunctionToolCall → Bool
is_whole_call call args done =
    str_eq done.id call.id
    && str_eq done.call_id call.call_id
    && str_eq done.name call.name
    && str_eq done.arguments args

abbrev is_whole_reasoning : Str → Str → ReasoningItem → Bool
is_whole_reasoning id text m = str_eq m.id id && is_alone text m.summary
  where
    is_alone : Str → List Str → Bool
    is_alone text (s ∷ []) = str_eq s text
    is_alone text _ = false

abbrev fits : List OutputItem → ℕ → Str → Str → Bool
fits items i id own = i == length items && str_eq id own

-- Every event of an item must have the place of the item among all, and its id.
unfoldable pub hears : Client → Event → Client
hears (between items) (response_created r) = between items
hears (between items) (response_in_progress r) = between items
hears (between items) (item_added i item) = if i == length items then opened items item else broken
hears (between items) (response_completed r) = complete_with items r
hears (in_reasoning items id text) (text_delta i other k s) =
    if fits items i other id then in_reasoning items id (text ++ s) else broken
hears (in_reasoning items id text) (item_done i (reasoning_item m)) =
    if i == length items && is_whole_reasoning id text m
    then between (items ++ reasoning_item m ∷ [])
    else broken
hears (in_message items announced id text) (part_added i other k s) =
    if fits items i other id && str_eq s [] then in_message items writing id text else broken
hears (in_message items writing id text) (text_delta i other k s) =
    if fits items i other id then in_message items writing id (text ++ s) else broken
hears (in_message items writing id text) (text_done i other k s) =
    if fits items i other id && str_eq s text then in_message items written id text else broken
hears (in_message items written id text) (part_done i other k s) =
    if fits items i other id && str_eq s text then in_message items rounded_off id text else broken
hears (in_message items rounded_off id text) (item_done i (message_item m)) =
    if i == length items && is_whole_message id text m
    then between (items ++ message_item m ∷ [])
    else broken
hears (in_call items call args false) (arguments_delta i other s) =
    if fits items i other (call_name_id call) then in_call items call (args ++ s) false else broken
hears (in_call items call args false) (arguments_done i other name s) =
    if fits items i other (call_name_id call) && str_eq name call.name && str_eq s args
    then in_call items call args true
    else broken
hears (in_call items call args true) (item_done i (call_item d)) =
    if i == length items && is_whole_call call args d
    then between (items ++ call_item d ∷ [])
    else broken
hears _ _ = broken

unfoldable pub follows : Client → List Sent → Client
follows client [] = client
follows client ((n, e) ∷ sent) = follows (hears client e) sent

pub follows-append :
    (client : Client) (a b : List Sent) → follows client (a ++ b) ≡ follows (follows client a) b
unfolding follows
follows-append client [] b = refl
follows-append client ((n, e) ∷ a) b = follows-append (hears client e) a b

pub follows-cons :
    (client : Client) (n : ℕ) (e : Event) (sent : List Sent)
    → follows client ((n, e) ∷ sent) ≡ follows (hears client e) sent
unfolding follows
follows-cons client n e sent = refl
