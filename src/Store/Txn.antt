-- ===== src/Store/Txn.antt =====
-- The operations inside one transaction of lmdb.py: `_encode_value`, `_decode_raw_value`,
-- `_txn_put`, `_txn_get`, `_txn_delete` and the handle `StoreMutation`.
pub mod Reads
use vfront.Common.{
  ℕ, ◌+◌, ◌*◌, ◌/◌, Str, [], ◌∷◌, ◌++◌, Bool, true, false, not, ◌&&◌, Option, none, some, Result,
  ok, err, Exn, value_error, ◌>>=◌, ◌>>◌, ◌==◌, ltb, leb, length, take, drop, if◌then◌else◌,
}
use vfront.Store.Lmdb.{Lmdb, Cbor}
use vfront.Store.Codec.{int_seconds, int64_max, pack_q, unpack_q, exp_db, expmeta_db}

-- The limits that `StoreService.__init__` keeps.
pub record Config : Type 0 where
  pub max_key_bytes : ℕ
  pub max_value_bytes : ℕ
  pub cleanup_max_deletes : ℕ

unfoldable pub is_due : ℕ → ℕ → Bool
is_due expire_ts now = not (expire_ts == 0) && leb expire_ts (int_seconds now)

-- The expiry that a retention in minutes stands for. A retention below 1 is refused.
unfoldable pub expiry_of : Option ℕ → ℕ → Result ℕ
expiry_of none now = ok 0
expiry_of (some retention) now =
    if ltb retention 1
    then err value_error
    else (let expire_ts = int_seconds (now + retention * 60 * 1000000) in
        if ltb int64_max expire_ts then err value_error else ok expire_ts)

unfoldable pub validate_key_size : Config → Str → Result (Unit {0})
validate_key_size cfg key = if ltb cfg.max_key_bytes (length key) then err value_error else ok tt

module _ (L : Lmdb) (C : Cbor) (cfg : Config) where
  unfoldable pub encode_value : C.Value → Result Str
  encode_value v =
      let value_bytes = C.dumps v in
      if ltb cfg.max_value_bytes (length value_bytes) then err value_error else ok value_bytes

  unfoldable pub decode_raw_value : Option Str → ℕ → Result (Option C.Value)
  decode_raw_value none now = ok none
  decode_raw_value (some raw) now = do
    expire_ts ← unpack_q (take 8 raw)
    if is_due expire_ts now then ok none else do v ← C.loads (drop 8 raw); ok (some v)

  -- `if old_ts: txn.delete(bucket, key_bytes, db=exp_db)`
  unfoldable pub drop_bucket : L.Txn → Str → Str → ℕ → Result L.Txn
  drop_bucket t ns key old_ts =
      if old_ts == 0
      then ok t
      else do r ← L.delete_dup t (exp_db ns) (pack_q (old_ts / 60)) key; ok r.0

  -- The old entry of a key leaves the expiry index.
  unfoldable pub forget_expiry : L.Txn → Str → Str → Str → Result L.Txn
  forget_expiry t ns key meta = do
    old_ts ← unpack_q (take 8 meta)
    t1 ← drop_bucket t ns key old_ts
    r ← L.delete t1 (expmeta_db ns) key
    ok r.0

  -- `if old_meta is not None`
  unfoldable pub forget_if_present : L.Txn → Str → Str → Option Str → Result L.Txn
  forget_if_present t ns key none = ok t
  forget_if_present t ns key (some meta) = forget_expiry t ns key meta

  -- `if meta`: an empty value does not count
  unfoldable pub forget_if_truthy : L.Txn → Str → Str → Option Str → Result L.Txn
  forget_if_truthy t ns key none = ok t
  forget_if_truthy t ns key (some []) = ok t
  forget_if_truthy t ns key (some (b ∷ meta)) = forget_expiry t ns key (b ∷ meta)

  unfoldable pub remember_expiry : L.Txn → Str → Str → ℕ → Result L.Txn
  remember_expiry t ns key expire_ts = if expire_ts == 0 then ok t else do
    t1 ← L.put_dup t (exp_db ns) (pack_q (expire_ts / 60)) key
    L.put t1 (expmeta_db ns) key (pack_q expire_ts)

  unfoldable pub txn_put : L.Txn → Str → Str → C.Value → ℕ → Result L.Txn
  txn_put t ns key value expire_ts = do
    value_bytes ← encode_value value
    t1 ← forget_if_present t ns key (L.get t (expmeta_db ns) key)
    t2 ← L.put t1 ns key (pack_q expire_ts ++ value_bytes)
    remember_expiry t2 ns key expire_ts

  unfoldable pub txn_get : L.Txn → Str → Str → ℕ → Result (Option C.Value)
  txn_get t ns key now = decode_raw_value (L.get t ns key) now

  unfoldable pub txn_delete : L.Txn → Str → Str → Result (L.Txn × Bool)
  txn_delete t ns key = do
    t1 ← forget_if_truthy t ns key (L.get t (expmeta_db ns) key)
    L.delete t1 ns key

  -- StoreMutation.set
  unfoldable pub mutation_set : L.Txn → Str → Str → C.Value → Option ℕ → ℕ → Result L.Txn
  mutation_set t ns key value retention now = do
    expire_ts ← expiry_of retention now
    validate_key_size cfg key
    txn_put t ns key value expire_ts
