-- ===== src/Store/Lifecycle.antt =====
-- `_operation`, `_assert_open` and `shutdown` of lmdb.py, as steps of the tasks that interleave at
-- their `await`s: operations begin and end in any order while a shutdown waits for them.
use vfront.Common.{
  ◌<◌, Str, List, [], Bool, true, false, ok, err, Exn, ◌≡◌, refl, ◌==◌, if◌then◌else◌, arith,
}
use vfront.Store.Lmdb.{Lmdb}
use vfront.Store.Service.{Service, enter, leave, assert_open}

module _ (L : Lmdb) where
  -- `shutdown` under the operation lock
  unfoldable pub request_close : Service L → Service L
  request_close s = if s.closed then s else record s { closing = true }

  -- The end of `shutdown`. If `env.sync` raises, the environment is closed as well, but `_closed` is
  -- not set.
  unfoldable pub finish_close : Bool → Service L → Service L
  finish_close sync_raises s = if sync_raises then s else record s { closed = true }

  unfoldable pub new_service : L.Txn → Service L
  new_service env = record {
    env = env;
    namespaces = [];
    active_operations = 0;
    drained = true;
    closing = false;
    closed = false;
  }

  pub data Step : Service L → Service L → Type 0 where
    begin : (s : Service L) → assert_open L s ≡ ok tt → Step s (enter L s)
    -- a running operation reads or writes
    work :
        (s : Service L) (env : L.Txn) (namespaces : List Str)
        → 0 < s.active_operations
        → Step s (record s { env = env; namespaces = namespaces })
    end : (s : Service L) → 0 < s.active_operations → Step s (leave L s)
    request : (s : Service L) → Step s (request_close s)
    -- `await self._operations_drained.wait()` has returned
    finish :
        (s : Service L) (sync_raises : Bool)
        → s.closing ≡ true
        → s.drained ≡ true
        → Step s (finish_close sync_raises s)

  pub data Reach (s : Service L) : Service L → Type 0 where
    here : Reach s s
    next : {t u : Service L} → Reach s t → Step t u → Reach s u

  record IsCounted (s : Service L) : Type 0 where
    counted : s.drained ≡ (s.active_operations == 0)
    closed_last : s.closed ≡ true → s.closing ≡ true
    closed_idle : s.closed ≡ true → s.active_operations ≡ 0

  Step-IsCounted : {s t : Service L} → Step s t → IsCounted s → IsCounted t
  unfolding enter leave assert_open request_close finish_close
  Step-IsCounted (begin s h) c = ground arith
  Step-IsCounted (work s env l h) c = ground arith
  Step-IsCounted (end s h) c = ground arith
  Step-IsCounted (request s) c = ground arith
  Step-IsCounted (finish s sync_raises h d) c = ground arith

  Reach-IsCounted : {s t : Service L} → Reach s t → IsCounted s → IsCounted t
  Reach-IsCounted here c = c
  Reach-IsCounted (next r st) c = Step-IsCounted st (Reach-IsCounted r c)

  -- However operations and shutdowns interleave from a new service: once the service is closed no
  -- operation is running, and none can begin any more.
  pub closed_is_idle :
      (env : L.Txn) {s : Service L}
      → Reach (new_service env) s
      → s.closed ≡ true
      → (s.active_operations ≡ 0) × (assert_open L s ≡ err Exn.runtime_error)
  unfolding new_service assert_open
  closed_is_idle env r h =
      let c =
        Reach-IsCounted r
          (record { counted = refl; closed_last = λ h. h; closed_idle = λ h. refl }) in
      ground (arith, c.closed_idle h)
