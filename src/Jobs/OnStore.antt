-- ===== src/Jobs/OnStore.antt =====
-- The transactions of store/lmdb.py meet what the job services ask of a namespace.
use vfront.Common.{
  ℕ, Str, Bool, false, Option, none, some, ok, >>=-eq-ok, ◌≡◌, refl, str_eq, str_eq_self,
  if◌then◌else◌, arith,
}
use vfront.Store.Lmdb.{Lmdb, LmdbLaws, Cbor}
use vfront.Store.Codec.{is_reserved}
use vfront.Store.Txn.{
  Config, is_due, expiry_of, validate_key_size, txn_get, txn_delete, mutation_set,
}
use vfront.Store.Txn.Reads.{txn_get-txn_put, txn_get-txn_delete}
use vfront.Store.Checks.{expiry_of-fits}
use vfront.Jobs.Namespace.{Namespace, is_gone}

-- The stored expiry of a retention has come exactly when the retention is over.
is_due-is_gone :
    (retention : Option ℕ) (since now : ℕ) {e : ℕ}
    → expiry_of retention since ≡ ok e
    → is_due e now ≡ is_gone retention since now
unfolding expiry_of is_due
is_due-is_gone none since now h = ground arith
is_due-is_gone (some r) since now h = ground arith

module _ (L : Lmdb) (laws : LmdbLaws L) (C : Cbor) (cfg : Config) (ns : Str)
    (plain : is_reserved ns ≡ false) where
  -- A `StoreMutation.set` that returns does what the jobs' interface asks of a write: the key reads
  -- as the value until the retention is over, counted from the time of the write, and the other keys
  -- of the namespace, which is not reserved, read as before.
  pub get-mutation_set :
      (t : L.Txn) (k : Str) (v : C.Value) (retention : Option ℕ) (since : ℕ) (j : Str) (now : ℕ)
      {t' : L.Txn}
      → mutation_set L C cfg t ns k v retention since ≡ ok t'
      → txn_get L C cfg t' ns j now ≡ (
          if str_eq k j
          then ok (if is_gone retention since now then none else some v)
          else txn_get L C cfg t ns j now)
  unfolding mutation_set
  get-mutation_set t k v retention since j now h =
      let (e, p, q) = >>=-eq-ok (expiry_of retention since) _ h in
      let (u, p1, q1) = >>=-eq-ok (validate_key_size cfg k) _ q in
      rw
        (
          txn_get-txn_put L laws C cfg t ns k v e ns j now q1 plain
              (expiry_of-fits retention since p),
          str_eq_self ns,
          is_due-is_gone retention since now p,
        )
        refl

  pub get-txn_delete :
      (t : L.Txn) (k j : Str) (now : ℕ) {t' : L.Txn} {found : Bool}
      → txn_delete L C cfg t ns k ≡ ok (t', found)
      → txn_get L C cfg t' ns j now ≡ (if str_eq k j then ok none else txn_get L C cfg t ns j now)
  get-txn_delete t k j now h =
      rw ((txn_get-txn_delete L laws C cfg t ns k ns j now h plain plain).1, str_eq_self ns) refl

  abbrev pub store_namespace : Namespace C.Value
  store_namespace = record {
    Txn = L.Txn;
    get = λ t k now. txn_get L C cfg t ns k now;
    set = λ t k v retention now. mutation_set L C cfg t ns k v retention now;
    delete = λ t k. txn_delete L C cfg t ns k;
    get-set = get-mutation_set;
    get-delete = get-txn_delete;
  }
