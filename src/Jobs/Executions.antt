-- ===== src/Jobs/Executions.antt =====
-- jobs/store.py. The execution records of response jobs and of batch jobs differ only in fields
-- that this code carries along: `X` stands for those (`requested_model` and `target`, or
-- `endpoint`). Times are in microseconds.
pub mod Cancel
use vfront.Common.{
  ℕ, ◌≤◌, Str, List, [], ◌∷◌, Bool, true, false, not, ◌&&◌, Option, none, some, Result, ok, ◌>>=◌,
  leb, str_eq, if◌then◌else◌,
}
use vfront.Jobs.Namespace.{Namespace, Model}

-- protocol/job.py
pub data ExecutionStatus : Type 0 where
  queued running completed failed cancelled : ExecutionStatus

pub record Execution (X : Type 0) : Type 0 where
  pub job_id : Str
  pub status : ExecutionStatus
  pub cancel_requested : Bool
  pub attempt : ℕ
  pub owner_id : Option Str
  pub last_error : Option Str
  pub created_at : ℕ
  pub updated_at : ℕ
  pub started_at : Option ℕ
  pub finished_at : Option ℕ
  pub extra : X

-- `_TERMINAL_EXECUTION_STATUSES`
abbrev pub is_terminal : ExecutionStatus → Bool
is_terminal completed = true
is_terminal failed = true
is_terminal cancelled = true
is_terminal _ = false

abbrev pub is_queued : ExecutionStatus → Bool
is_queued queued = true
is_queued _ = false

module _ {X : Type 0} where
  -- The record that a cancellation writes, if it writes one.
  unfoldable pub cancelled_record : Execution X → ℕ → Option (Execution X)
  cancelled_record e now =
      if is_terminal e.status
      then none
      else if is_queued e.status
      then some (record e {
        cancel_requested = true;
        updated_at = now;
        status = cancelled;
        finished_at = some now;
      })
      else some (record e { cancel_requested = true; updated_at = now })

-- `ResponseCancelUpdate`, `BatchCancelUpdate`
pub record CancelUpdate (X : Type 0) : Type 0 where
  pub previous_status : ExecutionStatus
  pub execution : Execution X

module _ {X V : Type 0} (N : Namespace V) (M : Model (Execution X) V) where
  unfoldable pub validated : Option V → Result (Option (Execution X))
  validated none = ok none
  validated (some v) = do e ← M.model_validate v; ok (some e)

  -- `get_response_execution`, `get_batch_execution`
  unfoldable pub get_execution : N.Txn → Str → ℕ → Result (Option (Execution X))
  get_execution t job now = do data_ ← N.get t job now; validated data_

  -- `put_response_execution`, `put_batch_execution`, with the default retention
  unfoldable pub put_execution : N.Txn → Execution X → ℕ → ℕ → Result N.Txn
  put_execution t e retention now = N.set t e.job_id (M.model_dump e) (some retention) now

  -- `_update_execution` reads, and then writes what it read with the updates. These are two
  -- transactions: `update_write` runs on what the store holds by then.
  unfoldable pub update_write :
      N.Txn
      → Option (Execution X)
      → (Execution X → Execution X)
      → ℕ
      → ℕ
      → Result (N.Txn × Option (Execution X))
  update_write t none updates retention now = ok (t, none)
  update_write t (some e) updates retention now = do
    let updated = record (updates e) { updated_at = now }
    t' ← put_execution t updated retention now
    ok (t', some updated)

  unfoldable pub update_execution :
      N.Txn → Str → (Execution X → Execution X) → ℕ → ℕ → Result (N.Txn × Option (Execution X))
  update_execution t job updates retention now = do
    e ← get_execution t job now
    update_write t e updates retention now

  unfoldable pub cancel_write :
      N.Txn
      → Str
      → Execution X
      → Option (Execution X)
      → ℕ
      → Result (N.Txn × Option (CancelUpdate X))
  cancel_write t job e none now =
      ok (t, some (record { previous_status = e.status; execution = e }))
  cancel_write t job e (some updated) now = do
    t' ← N.set t job (M.model_dump updated) none now
    ok (t', some (record { previous_status = e.status; execution = updated }))

  unfoldable pub cancel_loaded :
      N.Txn → Str → Option (Execution X) → ℕ → Result (N.Txn × Option (CancelUpdate X))
  cancel_loaded t job none now = ok (t, none)
  cancel_loaded t job (some e) now = cancel_write t job e (cancelled_record e now) now

  -- `_request_cancel_response_execution_mutation`, and the one for batches
  unfoldable pub request_cancel : N.Txn → Str → ℕ → Result (N.Txn × Option (CancelUpdate X))
  request_cancel t job now = do e ← get_execution t job now; cancel_loaded t job e now

  -- `list_response_executions`: the keys of the namespace in turn, then sorted by creation
  unfoldable pub load_all : N.Txn → List Str → ℕ → Result (List (Execution X))
  load_all t [] now = ok []
  load_all t (key ∷ keys) now = do
    e ← get_execution t key now
    rest ← load_all t keys now
    ok (elim e [ none ↦ rest | some x ↦ x ∷ rest ])

-- `list.sort(key=...)` is stable.
module _ {A : Type 0} (key : A → ℕ) where
  unfoldable pub insert_by : A → List A → List A
  insert_by x [] = x ∷ []
  insert_by x (y ∷ l) = if leb (key x) (key y) then x ∷ y ∷ l else y ∷ insert_by x l

  unfoldable pub sort_by : List A → List A
  sort_by [] = []
  sort_by (x ∷ l) = insert_by x (sort_by l)
