-- ===== src/Lib.antt =====
-- vfront serves an OpenAI-compatible HTTP API in front of inference engines. This library models
-- the parts that keep its state and decide what it does: the store, the background jobs, the checks
-- on requests, the table of models, listings, and the stream of an answer.
--
-- The key-value store, vfront/frontend/service/store/lmdb.py, is in Store. A record is an expiry of
-- eight bytes and a CBOR value (Store/Codec). Inside a transaction (Store/Txn) `txn_put`, `txn_get`
-- and `txn_delete` are `_txn_put`, `_txn_get` and `_txn_delete`, and `mutation_set` is
-- `StoreMutation.set`. Store/Cleanup is `_cleanup_env`. Store/Checks has what `set`, `get` and
-- `delete` check, and Store/Service these operations as methods on a state: the content, the
-- registered namespaces, the count of running operations and the flags of the shutdown.
-- Store/Lifecycle lets operations and shutdowns interleave, as a step relation. LMDB and cbor2 are
-- parameters (Store/Lmdb), with their documented behaviour as laws; Tests/Memory has an engine that
-- meets them. Reads of the clock are arguments, in microseconds, and `int(...)` of a time is a
-- division; a negative retention is refused as 0 is, and has no value of its own here. Handle caches,
-- locks and the failure of a commit are left out. Store/Pages is `_list_keys`, `_list_page` and
-- `_position_cursor` over the entries of a database in the order of their keys.
--
-- Listing is vfront/frontend/api/v1/helper/indexed_store.py: `list_created_at_models` and the keys of
-- its index. The store and what the callers pass are a `Source`; Listing/OnStore gives it the pages of
-- Store/Pages, at one time. The loop over the pages takes fuel, one more than the entries
-- of the index. The writing of the index is left out.
--
-- Streams is vfront/adapter/streaming.py and vfront/adapter/output.py. Streams/Chat is
-- `stream_chat_completion`, Streams/Collect `stream_and_collect`, Streams/Legacy `stream_completion`,
-- and Streams/Whole the responses that are not streamed. A generator is the list of the chunks that it
-- yields and how it is left, and the engine the list of its outputs and how it is left. The dicts by
-- index are one table (Streams/Choices). The id, time, model and fingerprint that every chunk carries,
-- the client's closing of a stream, and embeddings are left out. Streams builds on Output.
--
-- ResponseStream is vfront/adapter/response_streaming.py. Builders has the functions that build
-- events, and Generate puts `generate_response_stream_events` together from steps: a step makes new
-- values of the local variables and sends events under their sequence numbers. The starts of the chunks
-- of a text take as much fuel as the text is long, which is enough where a chunk is not empty. Steps has the variables
-- and what comes before the engine's outputs, Semantic the branch of the semantic parser, Text the
-- branch of plain text. Client is a client that follows the protocol and breaks on an event that does
-- not fit. The uuids are drawn from an argument by a counter, and the id and the time of the response
-- are given. The fields that a response repeats from its request are one value. The JSON text of an
-- event and the closing of the engine's stream are left out.
--
-- Conversation is the messages in vfront/adapter/response.py: `input_to_messages` with the history of
-- the previous response, the tools prompt, `messages_for_response_continuation` and
-- `truncate_messages_for_context`. What the items of an input become is an argument, and the
-- engine's tokenizer a parameter; `none` is a TypeError. Of a call in a message only the FunctionToolCall that it
-- comes from is kept, and the limit, an int in the code, is at least 0 here.
--
-- Background jobs, vfront/frontend/service/jobs, are in Jobs. Jobs/Namespace is the interface that
-- they use of the store, and Jobs/OnStore shows that the store implements it. Jobs/Lease is
-- lease.py, and Jobs/Executions store.py, where responses and batches are handled alike and share
-- one record. What pydantic does to a model on its way to a stored value is a parameter (`Model`).
-- Jobs/World is the state that a runner sees: tables of executions, leases, specs and stored
-- resources, and its tasks. Jobs/Runner is `_claim_pending` and what it calls, Jobs/Tasks is
-- `_run_response`, `_run_batch`, `_heartbeat_and_prune` and `_release_owned_work` of runner.py. The
-- work of a job is a parameter: the world behind it, and how it ended. Between the lease of a claim
-- and the update of the execution, `Between` says what others do to the store and whether the update
-- raises; `fault` in `run_job` says which call of the store raises behind the work. The release of a
-- lease does not raise here, and a round of claims is not interrupted elsewhere.
--
-- The checks on requests, vfront/frontend/compat/validators.py and `validate_completion_best_of` of
-- vfront/frontend/api/v1/helper/completion_execution.py, are in Requests. A validator answers
-- `accepted` or the field that it rejects; the empty list of messages, for which the code names no
-- field, is `messages`. Floats are a parameter with their comparison (Requests/Json).
--
-- Models/Registry is vfront/shared/engine/model_registry.py. Models/Adapters is
-- vfront/engine/service/lora_manager.py: the answers of the engine are arguments, and `load_lora`
-- is split where it awaits the engine: what the runtime is then is an argument. Models/Engines is the client cache of
-- vfront/frontend/service/engine/router.py and the health cache of
-- vfront/frontend/service/capabilities; what the client factory creates and what an engine answers
-- are arguments.
--
-- Output is vfront/adapter/assistant_output.py: the text of an assistant while it streams. What
-- counts as white, and the reading of tool calls out of a text (vfront/adapter/tool_calls.py: JSON and
-- a regular expression), are parameters. That reading draws an id for each call and raises where a
-- name is not a text; here it is a function that does not raise, and where two readings of one text
-- are compared they are two functions, whose ids may differ.
--
-- Responses is `paginate_response_input_items` of
-- vfront/frontend/service/persistence/response_store.py and the use cases of
-- vfront/frontend/usecases/responses_admin.py. What they are handed to call answers as an argument
-- says, without raising, and what they ask for is a list of effects.
--
-- Common has the shared types: results, state passing, byte strings, integers, and digits of fixed
-- width. The other loops are structural recursion on lists, without fuel. Tests has runs at concrete
-- inputs.
--
-- Not modelled are the rest of vfront/adapter/response.py, the routes and other use cases, the
-- upload of files, and the engines themselves.
pub mod Common
pub mod Store
pub mod Streams
pub mod Jobs
pub mod Listing
pub mod Requests
pub mod Responses
pub mod ResponseStream
pub mod Conversation
pub mod Models
pub mod Output
pub mod Tests
