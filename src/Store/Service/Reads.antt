-- ===== src/Store/Service/Reads.antt =====
-- What a client of the store reads after an operation, and that an operation that raises changes
-- nothing that can be read.
use vfront.Common.{
  ℕ, ◌⊎◌, ◌<◌, ◌^◌, ◌&&◌, Str, false, Option, none, some, Result, ok, err, Exn, inl, inr, ◌≡◌, ◌∙◌,
  ap, str_eq, if◌then◌else◌, arith,
}
use vfront.Common.Exec.{Exec, lift, >>=-eq-ok}
use vfront.Store.Lmdb.{Lmdb, LmdbLaws, Cbor}
use vfront.Store.Codec.{is_reserved}
use vfront.Store.Txn.{Config, is_due, expiry_of, txn_put, txn_get}
use vfront.Store.Checks.{check_set, check_set-ok}
use vfront.Store.Txn.Reads.{txn_get-txn_put}
use vfront.Store.Service.{
  Service, enter, leave, assert_open, operation, write, in_namespace, set_body, set,
}
use vfront.Store.Service.Keeps.{
  KeepsRaising, Keeps-lift, KeepsRaising-bind, KeepsRaising-in_namespace, in_namespace-ok,
}

module _ (L : Lmdb) (laws : LmdbLaws L) (d k : Str) (plain : is_reserved d ≡ false) where
  module _ (C : Cbor) (cfg : Config) where
    read-put :
        (t t' env : L.Txn) (ns namespace key : Str) (v : C.Value) (e later : ℕ)
        → write L (txn_put L C cfg t ns key v e) ≡ ok (t', tt)
        → L.get t d k ≡ L.get env d k
        → ns ≡ namespace
        → e < 2 ^ 63
        → txn_get L C cfg t' d k later ≡ (
            if str_eq namespace d && str_eq key k
            then ok (if is_due e later then none else some v)
            else txn_get L C cfg env d k later)
    read-put t t' env ns namespace key v e later h before at_ns fits =
        let h' : txn_put L C cfg t ns key v e ≡ ok t' = write-ok (txn_put L C cfg t ns key v e) h in
        txn_get-txn_put L laws C cfg t ns key v e d k later h' plain fits
        ∙ rw (at_ns, txn_get-same t env later before)
      where
        write-ok : (r : Result L.Txn) {t' : L.Txn} → write L r ≡ ok (t', tt) → r ≡ ok t'
        write-ok (ok t) h = cc
        write-ok (err e) h = cc

        txn_get-same :
            (t env : L.Txn) (later : ℕ)
            → L.get t d k ≡ L.get env d k
            → txn_get L C cfg t d k later ≡ txn_get L C cfg env d k later
        txn_get-same t env later h = unfold txn_get in rw h

    KeepsRaising-set_body :
        (namespace key : Str) (v : C.Value) (retention : Option ℕ) (now : ℕ)
        → KeepsRaising L laws d k plain (set_body L C cfg namespace key v retention now)
    unfolding set_body
    KeepsRaising-set_body namespace key v retention now =
        KeepsRaising-bind L laws d k plain _ _
          (Keeps-lift L laws d k plain (check_set cfg namespace key retention now))
          (λ p.
            KeepsRaising-in_namespace L laws d k plain p.0
              (λ t. write L (txn_put L C cfg t p.0 key v p.1)))

    -- What a set that returns leaves for a reader of `k` in `d`.
    read-set_body :
        (namespace key : Str) (v : C.Value) (retention : Option ℕ) (now later : ℕ) (s : Service L)
        → (set_body L C cfg namespace key v retention now s).0 ≡ ok tt
        → (e : ℕ) × (expiry_of retention now ≡ ok e)
          × (txn_get L C cfg (set_body L C cfg namespace key v retention now s).1.env d k later ≡ (
              if str_eq namespace d && str_eq key k
              then ok (if is_due e later then none else some v)
              else txn_get L C cfg s.env d k later))
    unfolding set_body
    read-set_body namespace key v retention now later s h =
        let ((ns, e), p, q, same) =
          >>=-eq-ok (lift (check_set cfg namespace key retention now)) _ s h in
        let (at_ns, good, expiry, fits) = check_set-ok cfg namespace key retention now p in
        let run = λ (t : L.Txn). write L (txn_put L C cfg t ns key v e) in
        let (t, ran, before) = in_namespace-ok L laws d k plain ns run s q in
        let after = (in_namespace L ns run s).1.env in
        (
          e,
          expiry,
          ap (λ (r : Result (Unit {0}) × Service L). txn_get L C cfg r.1.env d k later) same
              ∙ read-put t after s.env ns namespace key v e later ran before at_ns fits,
        )

operation-ok :
    (L : Lmdb) {A : Type 0} (body : Exec (Service L) A) (s : Service L) {a : A}
    → (operation L body s).0 ≡ ok a
    → ((body (enter L s)).0 ≡ ok a)
      × ((operation L body s).1.env ≡ (body (enter L s)).1.env)
      × (s.closed ≡ false)
      × (s.closing ≡ false)
unfolding operation leave assert_open
operation-ok L body s h = ground arith

operation-err :
    (L : Lmdb) {A : Type 0} (body : Exec (Service L) A) (s : Service L) {e : Exn}
    → (operation L body s).0 ≡ err e
    → ((operation L body s).1.env ≡ s.env)
      ⊎ (((body (enter L s)).0 ≡ err e) × ((operation L body s).1.env ≡ (body (enter L s)).1.env))
unfolding operation leave assert_open
operation-err L body s h = ground arith

module _ (L : Lmdb) (laws : LmdbLaws L) (C : Cbor) (cfg : Config) where
  -- After a set that returns, a read of the key returns the value until the retention is over, and
  -- every other read, in this namespace or in another one that is not reserved, returns what it
  -- returned before.
  pub read-set :
      (namespace key : Str) (v : C.Value) (retention : Option ℕ) (now : ℕ) (s : Service L)
      (d k : Str) (later : ℕ)
      → (set L C cfg namespace key v retention now s).0 ≡ ok tt
      → is_reserved d ≡ false
      → (e : ℕ) × (expiry_of retention now ≡ ok e)
        × (txn_get L C cfg (set L C cfg namespace key v retention now s).1.env d k later ≡ (
            if str_eq namespace d && str_eq key k
            then ok (if is_due e later then none else some v)
            else txn_get L C cfg s.env d k later))
  unfolding set enter
  read-set namespace key v retention now s d k later h plain =
      let body = set_body L C cfg namespace key v retention now in
      let (h', env, _, _) = operation-ok L body s h in
      let (e, expiry, shown) =
        read-set_body L laws d k plain C cfg namespace key v retention now later (enter L s) h' in
      (e, expiry, rw env shown)

  -- A set that raises, for whatever reason and at whatever step, changes no read in any namespace
  -- that is not reserved.
  pub read-set_raising :
      (namespace key : Str) (v : C.Value) (retention : Option ℕ) (now : ℕ) (s : Service L)
      (d k : Str) (later : ℕ) {e : Exn}
      → (set L C cfg namespace key v retention now s).0 ≡ err e
      → is_reserved d ≡ false
      → txn_get L C cfg (set L C cfg namespace key v retention now s).1.env d k later
        ≡ txn_get L C cfg s.env d k later
  unfolding set enter
  read-set_raising namespace key v retention now s d k later {e} h plain =
      let body = set_body L C cfg namespace key v retention now in
      elim (operation-err L body s h) [
        | inl same ↦ rw same
        | inr (h', env) ↦ rw env (
            unfold txn_get in
            rw (
              (KeepsRaising-set_body L laws d k plain C cfg namespace key v retention now).at
                (enter L s) e h'))
      ]
