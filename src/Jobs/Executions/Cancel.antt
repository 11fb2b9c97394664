-- ===== src/Jobs/Executions/Cancel.antt =====
-- What a cancellation does to an execution record, and how long the record stays.
use vfront.Common.{
  ℕ, Str, true, false, Option, none, some, ok, >>=-eq-ok, Option-cases, inl, inr, ◌≡◌, refl, str_eq,
  str_eq_iff, str_eq_self, if◌then◌else◌, arith,
}
use vfront.Jobs.Namespace.{Namespace, Model, is_gone}
use vfront.Jobs.Executions.{
  cancelled, Execution, CancelUpdate, is_terminal, is_queued, cancelled_record, validated,
  get_execution, put_execution, update_write, cancel_write, cancel_loaded, request_cancel,
}

module _ {X V : Type 0} (N : Namespace V) (M : Model (Execution X) V) where
  -- What a read of one key returns after a write of another.
  get_execution-set :
      (t : N.Txn) (job : Str) (e : Execution X) (retention : Option ℕ) (since : ℕ) (j : Str)
      (now : ℕ) {t' : N.Txn}
      → N.set t job (M.model_dump e) retention since ≡ ok t'
      → get_execution N M t' j now ≡ (
          if str_eq job j
          then ok (if is_gone retention since now then none else some e)
          else get_execution N M t j now)
  unfolding get_execution validated
  get_execution-set t job e retention since j now h =
      ground (arith, N.get-set t job (M.model_dump e) retention since j now h, M.validate-dump e)

  cancelled_record-none :
      (e : Execution X) (now : ℕ) → cancelled_record e now ≡ none → is_terminal e.status ≡ true
  unfolding cancelled_record
  cancelled_record-none e now h = ground arith

  cancelled_record-some :
      (e u : Execution X) (now : ℕ)
      → cancelled_record e now ≡ some u
      → (is_terminal e.status ≡ false)
        × (u.cancel_requested ≡ true)
        × (u.status ≡ (if is_queued e.status then cancelled else e.status))
  unfolding cancelled_record
  cancelled_record-some e u now h = ground arith

  cancel_write-some :
      (t : N.Txn) (job : Str) (e new : Execution X) (now : ℕ) {t' : N.Txn}
      {u : Option (CancelUpdate X)}
      → cancel_write N M t job e (some new) now ≡ ok (t', u)
      → (u ≡ some (record { previous_status = e.status; execution = new }))
        × ((later : ℕ) → get_execution N M t' job later ≡ ok (some new))
  unfolding cancel_write
  cancel_write-some t job e new now {t'} {u} h =
      let (t1, p, q) = >>=-eq-ok (N.set t job (M.model_dump new) none now) _ h in
      (
        ground arith,
        λ later. ground (arith, get_execution-set t job new none now job later p, str_eq_self job),
      )

  -- The outcome that a client is told, and the state that a cancellation of a stored execution
  -- leaves where it returns: a finished one stays as it is; a queued one is cancelled at once; a
  -- running one is flagged and goes on. What is written is read at any later time.
  pub request_cancel_lem :
      (t : N.Txn) (job : Str) (now : ℕ) (e : Execution X) {t' : N.Txn} {u : Option (CancelUpdate X)}
      → get_execution N M t job now ≡ ok (some e)
      → request_cancel N M t job now ≡ ok (t', u)
      → (c : CancelUpdate X) × (u ≡ some c)
        × (c.previous_status ≡ e.status)
        × (if is_terminal e.status
            then (t' ≡ t) × (c.execution ≡ e)
            else (c.execution.cancel_requested ≡ true)
              × (c.execution.status ≡ (if is_queued e.status then cancelled else e.status))
              × ((later : ℕ) → get_execution N M t' job later ≡ ok (some c.execution)))
  unfolding request_cancel
  request_cancel_lem t job now e {t'} {u} l h =
      let loaded : cancel_loaded N M t job (some e) now ≡ ok (t', u) = rw l at h in
      elim (Option-cases (cancelled_record e now)) [
        | inl kept ↦
            let same : (t' ≡ t)
                × (u ≡ some (record { previous_status = e.status; execution = e })) =
              unfold cancel_loaded cancel_write in ground (arith, loaded, kept) in
            (
              record { previous_status = e.status; execution = e },
              same.1,
              refl,
              rw (cancelled_record-none e now kept) (same.0, refl),
            )
        | inr (new, made) ↦
            let wrote : cancel_write N M t job e (some new) now ≡ ok (t', u) =
              unfold cancel_loaded in rw made at loaded in
            let (told, read) = cancel_write-some t job e new now wrote in
            let (going, flagged, status) = cancelled_record-some e new now made in
            (
              record { previous_status = e.status; execution = new },
              told,
              refl,
              rw going (flagged, status, read),
            )
      ]

  -- A cancellation of an unfinished execution that comes between the read and the write of
  -- `_update_execution` is lost, if the updates leave the flag and the job as they are: it is
  -- stored, and the write puts back a record without the flag, which is what is read while it is
  -- kept.
  pub update_undoes_cancel :
      (t t1 t2 : N.Txn) (e : Execution X) (updates : Execution X → Execution X)
      (retention before now later : ℕ) {u : Option (CancelUpdate X)} {r : Option (Execution X)}
      → get_execution N M t e.job_id before ≡ ok (some e)
      → is_terminal e.status ≡ false
      → request_cancel N M t e.job_id before ≡ ok (t1, u)
      → update_write N M t1 (some e) updates retention now ≡ ok (t2, r)
      → (updates e).job_id ≡ e.job_id
      → (updates e).cancel_requested ≡ false
      → is_gone (some retention) now later ≡ false
      → ((c : Execution X) × (get_execution N M t1 e.job_id later ≡ ok (some c))
          × (c.cancel_requested ≡ true))
        × ((x : Execution X) × (get_execution N M t2 e.job_id later ≡ ok (some x))
            × (x.cancel_requested ≡ false)
            × (x.status ≡ (updates e).status))
  unfolding update_write put_execution
  update_undoes_cancel t t1 t2 e updates retention before now later loaded going asked wrote same
        unflagged live =
      let new = record (updates e) { updated_at = now } in
      let (t3, p, q) =
        >>=-eq-ok (N.set t1 (updates e).job_id (M.model_dump new) (some retention) now) _ wrote in
      let (c, told, previous, effect) = request_cancel_lem t e.job_id before e loaded asked in
      let (flagged, status, read) = rw going at effect in
      (
        (c.execution, read later, flagged),
        (
          new,
          ground (
            arith,
            get_execution-set t1 (updates e).job_id new (some retention) now e.job_id later p,
            str_eq_iff (updates e).job_id e.job_id,
          ),
          unflagged,
          refl,
        ),
      )

  -- An execution record is stored to expire; a cancellation of an unfinished execution, before
  -- that, stores it for good: at a time at which the record would have been gone it is still read.
  pub cancel_drops_retention :
      (t t1 t2 : N.Txn) (e : Execution X) (retention since now later : ℕ)
      {u : Option (CancelUpdate X)}
      → put_execution N M t e retention since ≡ ok t1
      → is_gone (some retention) since now ≡ false
      → is_gone (some retention) since later ≡ true
      → is_terminal e.status ≡ false
      → request_cancel N M t1 e.job_id now ≡ ok (t2, u)
      → (get_execution N M t1 e.job_id later ≡ ok none)
        × ((x : Execution X) × (get_execution N M t2 e.job_id later ≡ ok (some x))
            × (x.cancel_requested ≡ true))
  unfolding put_execution
  cancel_drops_retention t t1 t2 e retention since now later stored live gone going asked =
      let at_now = get_execution-set t e.job_id e (some retention) since e.job_id now stored in
      let at_later = get_execution-set t e.job_id e (some retention) since e.job_id later stored in
      let (c, told, previous, effect) =
        request_cancel_lem t1 e.job_id now e (ground (arith, at_now, str_eq_self e.job_id)) asked in
      let (flagged, status, read) = rw going at effect in
      (ground (arith, at_later, str_eq_self e.job_id), (c.execution, read later, flagged))
