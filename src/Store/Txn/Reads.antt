-- ===== src/Store/Txn/Reads.antt =====
-- What a read shows after a write.
use vfront.Common.{
  ℕ, ◌<◌, ◌^◌, ◌/◌, ◌++◌, Str, Bool, false, ◌&&◌, Option, none, some, ok, ◌≡◌, ◌==◌, >>=-eq-ok,
  str_eq, [], ◌∷◌, take, if◌then◌else◌, Bool-cases, arith, inl, inr, is_some,
}
use vfront.Store.Lmdb.{Lmdb, LmdbLaws, Cbor}
use vfront.Store.Codec.{
  exp_db, expmeta_db, is_reserved, pack_q, unpack_q, str_eq-exp_db-data, str_eq-expmeta_db-data,
  take-pack, drop-pack, unpack-pack,
}
use vfront.Store.Txn.{
  Config, is_due, drop_bucket, encode_value, decode_raw_value, forget_expiry, forget_if_present,
  forget_if_truthy, remember_expiry, txn_put, txn_get, txn_delete,
}

module _ (L : Lmdb) (laws : LmdbLaws L) (C : Cbor) (cfg : Config) where
  get-drop_bucket :
      (t : L.Txn) (ns key : Str) (e : ℕ) (d k : Str) {t' : L.Txn}
      → drop_bucket L C cfg t ns key e ≡ ok t'
      → is_reserved d ≡ false
      → L.get t' d k ≡ L.get t d k
  unfolding drop_bucket
  get-drop_bucket t ns key e d k h plain = elim (Bool-cases (e == 0)) [
    | inl zero ↦ ground arith
    | inr more ↦
        let ((t1, b), p, q) =
          >>=-eq-ok (L.delete_dup t (exp_db ns) (pack_q (e / 60)) key) _ (rw more at h) in
        ground (
          arith,
          laws.get-delete_dup t (exp_db ns) (pack_q (e / 60)) key d k p,
          str_eq-exp_db-data ns d plain,
        )
  ]

  get-forget_expiry :
      (t : L.Txn) (ns key meta d k : Str) {t' : L.Txn}
      → forget_expiry L C cfg t ns key meta ≡ ok t'
      → is_reserved d ≡ false
      → L.get t' d k ≡ L.get t d k
  unfolding forget_expiry
  get-forget_expiry t ns key meta d k h plain =
      let (old_ts, p, q) = >>=-eq-ok (unpack_q (take 8 meta)) _ h in
      let (t1, p1, q1) = >>=-eq-ok (drop_bucket L C cfg t ns key old_ts) _ q in
      let ((t2, b), p2, q2) = >>=-eq-ok (L.delete t1 (expmeta_db ns) key) _ q1 in
      ground (
        arith,
        laws.get-delete t1 (expmeta_db ns) key d k p2,
        get-drop_bucket t ns key old_ts d k p1 plain,
        str_eq-expmeta_db-data ns d plain,
      )

  get-remember_expiry :
      (t : L.Txn) (ns key : Str) (e : ℕ) (d k : Str) {t' : L.Txn}
      → remember_expiry L C cfg t ns key e ≡ ok t'
      → is_reserved d ≡ false
      → L.get t' d k ≡ L.get t d k
  unfolding remember_expiry
  get-remember_expiry t ns key e d k h plain = elim (Bool-cases (e == 0)) [
    | inl zero ↦ ground arith
    | inr more ↦
        let (t1, p, q) =
          >>=-eq-ok (L.put_dup t (exp_db ns) (pack_q (e / 60)) key) _ (rw more at h) in
        ground (
          arith,
          laws.get-put_dup t (exp_db ns) (pack_q (e / 60)) key d k p,
          laws.get-put t1 (expmeta_db ns) key (pack_q e) d k q,
          str_eq-exp_db-data ns d plain,
          str_eq-expmeta_db-data ns d plain,
        )
  ]

  get-forget_if_present :
      (t : L.Txn) (ns key : Str) (meta : Option Str) (d k : Str) {t' : L.Txn}
      → forget_if_present L C cfg t ns key meta ≡ ok t'
      → is_reserved d ≡ false
      → L.get t' d k ≡ L.get t d k
  unfolding forget_if_present
  get-forget_if_present t ns key none d k h plain = cc
  get-forget_if_present t ns key (some m) d k h plain = get-forget_expiry t ns key m d k h plain

  get-forget_if_truthy :
      (t : L.Txn) (ns key : Str) (meta : Option Str) (d k : Str) {t' : L.Txn}
      → forget_if_truthy L C cfg t ns key meta ≡ ok t'
      → is_reserved d ≡ false
      → L.get t' d k ≡ L.get t d k
  unfolding forget_if_truthy
  get-forget_if_truthy t ns key none d k h plain = cc
  get-forget_if_truthy t ns key (some []) d k h plain = cc
  get-forget_if_truthy t ns key (some (b ∷ m)) d k h plain =
      get-forget_expiry t ns key (b ∷ m) d k h plain

  -- The raw record that a put leaves, for every key of every namespace.
  pub raw-txn_put :
      (t : L.Txn) (ns key : Str) (v : C.Value) (e : ℕ) (d k : Str) {t' : L.Txn}
      → txn_put L C cfg t ns key v e ≡ ok t'
      → is_reserved d ≡ false
      → L.get t' d k
        ≡ (if str_eq ns d && str_eq key k then some (pack_q e ++ C.dumps v) else L.get t d k)
  unfolding txn_put encode_value
  raw-txn_put t ns key v e d k h plain =
      let (bytes, p, q) = >>=-eq-ok (encode_value L C cfg v) _ h in
      let (t1, p1, q1) =
        >>=-eq-ok (forget_if_present L C cfg t ns key (L.get t (expmeta_db ns) key)) _ q in
      let (t2, p2, q2) = >>=-eq-ok (L.put t1 ns key (pack_q e ++ bytes)) _ q1 in
      ground (
        arith,
        get-forget_if_present t ns key (L.get t (expmeta_db ns) key) d k p1 plain,
        laws.get-put t1 ns key (pack_q e ++ bytes) d k p2,
        get-remember_expiry t2 ns key e d k q2 plain,
      )

  pub decode-record :
      (e : ℕ) (v : C.Value) (now : ℕ)
      → e < 2 ^ 63
      → decode_raw_value L C cfg (some (pack_q e ++ C.dumps v)) now
        ≡ ok (if is_due e now then none else some v)
  unfolding decode_raw_value
  decode-record e v now fits =
      rw (take-pack e (C.dumps v), unpack-pack e fits, drop-pack e (C.dumps v), C.loads-dumps v)
        (ground arith)

  -- After a put that succeeds, with an expiry that fits a signed 64-bit integer, a read of the key
  -- returns the value until its expiry has come, and a read of any other key, or of any other
  -- namespace that is not reserved, returns what it returned before.
  pub txn_get-txn_put :
      (t : L.Txn) (ns key : Str) (v : C.Value) (e : ℕ) (ns' key' : Str) (now : ℕ) {t' : L.Txn}
      → txn_put L C cfg t ns key v e ≡ ok t'
      → is_reserved ns' ≡ false
      → e < 2 ^ 63
      → txn_get L C cfg t' ns' key' now ≡ (
          if str_eq ns ns' && str_eq key key'
          then ok (if is_due e now then none else some v)
          else txn_get L C cfg t ns' key' now)
  unfolding txn_get
  txn_get-txn_put t ns key v e ns' key' now h plain fits =
      rw (raw-txn_put t ns key v e ns' key' h plain)
        (elim (Bool-cases (str_eq ns ns' && str_eq key key')) [
          | inl here ↦ rw here (decode-record e v now fits)
          | inr there ↦ rw there
        ])

  -- In namespaces that are not reserved, a delete that succeeds says whether there was a record,
  -- removes that record, and shows nowhere else.
  pub txn_get-txn_delete :
      (t : L.Txn) (ns key ns' key' : Str) (now : ℕ) {t' : L.Txn} {found : Bool}
      → txn_delete L C cfg t ns key ≡ ok (t', found)
      → is_reserved ns ≡ false
      → is_reserved ns' ≡ false
      → (found ≡ is_some (L.get t ns key))
        × (txn_get L C cfg t' ns' key' now ≡ (
            if str_eq ns ns' && str_eq key key' then ok none else txn_get L C cfg t ns' key' now))
  unfolding txn_get txn_delete decode_raw_value
  txn_get-txn_delete t ns key ns' key' now h plain plain' =
      let (t1, p1, q1) =
        >>=-eq-ok (forget_if_truthy L C cfg t ns key (L.get t (expmeta_db ns) key)) _ h in
      (
        rw (← get-forget_if_truthy t ns key (L.get t (expmeta_db ns) key) ns key p1 plain)
            (laws.delete_found t1 ns key q1),
        rw
            (
              laws.get-delete t1 ns key ns' key' q1,
              get-forget_if_truthy t ns key (L.get t (expmeta_db ns) key) ns' key' p1 plain',
            )
            (ground arith),
      )
