-- ===== src/ResponseStream/Builders.antt =====
-- The builders of the events of a streamed response (adapter/response_streaming.py).
use vfront.Common.{
  ℕ, zero, suc, ◌+◌, Str, List, [], ◌∷◌, ◌++◌, map, Bool, true, Option, none, some, ltb, length,
  take, drop, if◌then◌else◌,
}
use vfront.ResponseStream.{
  Event, FunctionToolCall, OutputItem, ResponseCreateRequest, ResponseError, ResponseObject, Sent,
  arguments_delta, arguments_done, call_item, completed_status, failed_status, in_progress,
  item_added, item_done, message_item, part_added, part_done, response_created, response_error,
  response_failed, response_in_progress, text_done,
}

-- One event after another, numbered from `seq`.
unfoldable pub numbered : ℕ → List Event → List Sent
numbered seq [] = []
numbered seq (e ∷ es) = (seq, e) ∷ numbered (suc seq) es

abbrev pub or_true : Option Bool → Bool
or_true none = true
or_true (some b) = b

-- The id and the time are given or drawn before.
unfoldable pub build_response_shell : ResponseCreateRequest → Str → ℕ → ResponseObject
build_response_shell request response_id created_at = record {
  id = response_id;
  created_at = created_at;
  completed_at = none;
  status = in_progress;
  settings = request.settings;
  tools = request.tools;
  parallel_tool_calls = or_true request.parallel_tool_calls;
  output = [];
  usage = none;
  error = none;
}

unfoldable pub build_response_prelude_events : ResponseCreateRequest → Str → ℕ → ℕ → List Sent × ℕ
build_response_prelude_events request response_id created_at seq =
    let shell = build_response_shell request response_id created_at in
    ((seq, response_created shell) ∷ (1 + seq, response_in_progress shell) ∷ [], 2 + seq)

-- `tool_item.id or tool_item.call_id`
abbrev pub item_id_of : Str → Str → Str
item_id_of [] call_id = call_id
item_id_of (c ∷ s) call_id = c ∷ s

-- `range(start, stop, step)`, in at most `fuel` numbers
unfoldable pub range_from : ℕ → ℕ → ℕ → ℕ → List ℕ
range_from zero start stop step = []
range_from (suc fuel) start stop step =
    let rest = range_from fuel (start + step) stop step in
    if ltb start stop then start ∷ rest else []

-- `range(0, len(args), chunk_size) if args else range(0, 1)`
unfoldable pub chunk_starts : Str → ℕ → List ℕ
chunk_starts [] chunk_size = 0 ∷ []
chunk_starts (c ∷ s) chunk_size = range_from (length (c ∷ s)) 0 (length (c ∷ s)) chunk_size

-- `args[i : i + chunk_size]`, from each start
unfoldable pub argument_chunks : Str → ℕ → List Str
argument_chunks args chunk_size =
    map (λ i. take chunk_size (drop i args)) (chunk_starts args chunk_size)

-- With the `chunk_size` that the callers leave at 32.
unfoldable pub build_function_tool_call_events : FunctionToolCall → ℕ → ℕ → ℕ → List Sent × ℕ
build_function_tool_call_events tool_item output_index seq chunk_size =
    let item_id = item_id_of tool_item.id tool_item.call_id in
    let chunks = argument_chunks tool_item.arguments chunk_size in
    let after = suc seq + length chunks in
    (
      (seq, item_added output_index (call_item tool_item))
            ∷ numbered (suc seq) (map (arguments_delta output_index item_id) chunks)
          ++ (after, arguments_done output_index item_id tool_item.name tool_item.arguments)
            ∷ (suc after, item_done output_index (call_item tool_item))
            ∷ [],
      suc (suc after),
    )

unfoldable pub build_response_failure_events :
    ResponseCreateRequest → Str → Str → ℕ → ℕ → Str → List Sent × ℕ
build_response_failure_events request message response_id created_at seq code =
    let error : ResponseError = record { code = code; message = message } in
    let failed = record (build_response_shell request response_id created_at) {
      status = failed_status;
      error = some error;
    } in
    ((seq, response_error error) ∷ (1 + seq, response_failed failed) ∷ [], 2 + seq)

-- The response of the completed event; `completed_at` is the time that is read for it.
unfoldable pub completed_response :
    ResponseCreateRequest → List OutputItem → ℕ → ℕ → Str → ℕ → ℕ → ℕ → ResponseObject
completed_response request output_items prompt_tokens output_tokens response_id created_at
      reasoning_tokens completed_at =
    record (build_response_shell request response_id created_at) {
      status = completed_status;
      output = output_items;
      usage = some (record {
        input_tokens = prompt_tokens;
        output_tokens = output_tokens;
        total_tokens = prompt_tokens + output_tokens;
        cached_tokens = 0;
        reasoning_tokens = reasoning_tokens;
      });
      completed_at = some completed_at;
    }

abbrev pub begun_message : Str → OutputItem
begun_message item_id = message_item (record { id = item_id; status = in_progress; content = [] })

abbrev pub done_message : Str → Str → OutputItem
done_message item_id text =
    message_item (record { id = item_id; status = completed_status; content = text ∷ [] })

abbrev pub begun_call : Str → Str → Str → OutputItem
begun_call item_id call_id name = call_item (record {
  id = item_id;
  call_id = call_id;
  name = name;
  arguments = [];
  status = some in_progress;
})

abbrev pub done_call : Str → Str → Str → Str → OutputItem
done_call item_id call_id name arguments = call_item (record {
  id = item_id;
  call_id = call_id;
  name = name;
  arguments = arguments;
  status = some completed_status;
})

unfoldable pub open_message_item : ℕ → Str → ℕ → ℕ → List Sent × ℕ
open_message_item output_index item_id content_index seq = (
  (seq, item_added output_index (begun_message item_id))
      ∷ (1 + seq, part_added output_index item_id content_index [])
      ∷ [],
  2 + seq,
)

unfoldable pub close_message_item : ℕ → Str → ℕ → Str → ℕ → List Sent × OutputItem × ℕ
close_message_item output_index item_id content_index text seq = (
  (seq, text_done output_index item_id content_index text)
      ∷ (1 + seq, part_done output_index item_id content_index text)
      ∷ (2 + seq, item_done output_index (done_message item_id text))
      ∷ [],
  done_message item_id text,
  3 + seq,
)

unfoldable pub open_tool_call_item : ℕ → Str → Str → Str → ℕ → List Sent × ℕ
open_tool_call_item output_index item_id call_id name seq =
    ((seq, item_added output_index (begun_call item_id call_id name)) ∷ [], 1 + seq)

unfoldable pub close_tool_call_item : ℕ → Str → Str → Str → Str → ℕ → List Sent × OutputItem × ℕ
close_tool_call_item output_index item_id call_id name arguments seq = (
  (seq, arguments_done output_index item_id name arguments)
      ∷ (1 + seq, item_done output_index (done_call item_id call_id name arguments))
      ∷ [],
  done_call item_id call_id name arguments,
  2 + seq,
)
