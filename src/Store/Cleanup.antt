-- ===== src/Store/Cleanup.antt =====
-- `_cleanup_env` of lmdb.py: the periodic purge of expired records.
pub mod Keeps
pub mod Losses
pub mod Budget
use vfront.Common.{
  ℕ, suc, ◌+◌, ◌/◌, ◌-◌, Str, List, [], ◌∷◌, Bool, true, false, Option, none, some, Result, ok, err,
  Exn, ◌>>=◌, ltb, leb, take, if◌then◌else◌,
}
use vfront.Store.Lmdb.{Lmdb}
use vfront.Store.Codec.{int_seconds, unpack_q, exp_db, expmeta_db}
use vfront.Store.Txn.{is_due}

-- The scan of the expiry index: it stops behind the current minute, or when `limit` entries are in
-- `to_delete`, which holds `n` already.
unfoldable pub collect : ℕ → ℕ → ℕ → List (Str × Str) → Result (List (Str × Str))
collect now_bucket limit n [] = ok []
collect now_bucket limit n ((bucket_bytes, key) ∷ l) = do
  bucket ← unpack_q bucket_bytes
  if ltb now_bucket bucket then ok [] else do
    rest ← if leb limit (suc n) then ok [] else collect now_bucket limit (suc n) l
    ok ((bucket_bytes, key) ∷ rest)

module _ (L : Lmdb) (now : ℕ) (ns : Str) where
  unfoldable pub delete_record : L.Txn → Str → Result (L.Txn × Bool)
  delete_record t key = do
    r1 ← L.delete t ns key
    r2 ← L.delete r1.0 (expmeta_db ns) key
    ok (r2.0, true)

  -- The record goes if it has expired; the flag says that it did.
  unfoldable pub drop_due : L.Txn → Str → Option Str → Result (L.Txn × Bool)
  drop_due t key none = ok (t, false)
  drop_due t key (some raw) = do
    expire_ts ← unpack_q (take 8 raw)
    if is_due expire_ts now then delete_record t key else ok (t, false)

  -- The entry leaves the index in any case. What is counted stays counted if this raises.
  unfoldable pub drop_entry : ℕ → Str → Str → Result (L.Txn × Bool) → Result L.Txn × ℕ
  drop_entry deleted bucket key (err e) = (err e, deleted)
  drop_entry deleted bucket key (ok (t, gone)) =
      (do r ← L.delete_dup t (exp_db ns) bucket key; ok r.0, if gone then suc deleted else deleted)

  unfoldable pub purge : L.Txn → ℕ → Str × Str → Result L.Txn × ℕ
  purge t deleted (bucket, key) = drop_entry deleted bucket key (drop_due t key (L.get t ns key))

  unfoldable pub purge_all : Result L.Txn × ℕ → List (Str × Str) → Result L.Txn × ℕ
  purge_all (r, deleted) [] = (r, deleted)
  purge_all (err e, deleted) (entry ∷ l) = (err e, deleted)
  purge_all (ok t, deleted) (entry ∷ l) = purge_all (purge t deleted entry) l

  -- An exception is logged, and the transaction is rolled back.
  unfoldable pub committed : L.Txn → Result L.Txn → L.Txn
  committed before (ok after) = after
  committed before (err e) = before

  unfoldable pub after_collect : L.Txn → ℕ → Result (List (Str × Str)) → L.Txn × ℕ
  after_collect t deleted (err e) = (t, deleted)
  after_collect t deleted (ok to_delete) =
      let (r, total) = purge_all (ok t, deleted) to_delete in (committed t r, total)

  unfoldable pub cleanup_namespace : ℕ → L.Txn → ℕ → L.Txn × ℕ
  cleanup_namespace max_deletes t deleted =
      after_collect t deleted
        (collect (int_seconds now / 60) (max_deletes - deleted) 0 (L.dups t (exp_db ns)))

module _ (L : Lmdb) (now : ℕ) (max_deletes : ℕ) where
  unfoldable pub cleanup_env : L.Txn → ℕ → List Str → L.Txn × ℕ
  cleanup_env t deleted [] = (t, deleted)
  cleanup_env t deleted (ns ∷ rest) = elim (leb max_deletes deleted) [
    | true ↦ (t, deleted)
    | false ↦
        let (t', deleted') = cleanup_namespace L now ns max_deletes t deleted in
        cleanup_env t' deleted' rest
  ]
