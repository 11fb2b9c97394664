-- ===== src/Store/Service.antt =====
-- The public operations of `StoreService`, one call at a time: every operation runs in
-- `_operation`, registers its namespace and then runs one transaction.
pub mod Keeps
pub mod Reads
use vfront.Common.{
  ℕ, suc, ◌+◌, ◌-◌, Str, List, [], ◌∷◌, ◌++◌, Bool, true, false, ◌||◌, Option, none, some, Result,
  ok, err, Exn, value_error, runtime_error, ◌==◌, codes, str_eq, any, if◌then◌else◌,
}
use vfront.Common.Exec.{Exec, lift, gets, modify, pure, ◌>>=◌, ◌>>◌}
use vfront.Store.Lmdb.{Lmdb, Cbor}
use vfront.Store.Codec.{exp_db, expmeta_db, meta_db, esc_namespace}
use vfront.Store.Txn.{Config, expiry_of, validate_key_size, txn_put, txn_get, txn_delete}
use vfront.Store.Checks.{check_key, check_set}
use vfront.Store.Cleanup.{cleanup_env}

module _ (L : Lmdb) where
  pub record Service : Type 0 where
    pub env : L.Txn
    pub namespaces : List Str
    pub active_operations : ℕ
    pub drained : Bool
    pub closing : Bool
    pub closed : Bool

abbrev pub contains : List Str → Str → Bool
contains l s = any (λ t. str_eq t s) l

module _ (L : Lmdb) where
  unfoldable pub enter : Service L → Service L
  enter s = record s { active_operations = s.active_operations + 1; drained = false }

  unfoldable pub leave : Service L → Service L
  leave s =
      let n = s.active_operations - 1 in
      record s { active_operations = n; drained = if n == 0 then true else s.drained }

  unfoldable pub assert_open : Service L → Result (Unit {0})
  assert_open s = if s.closed || s.closing then err runtime_error else ok tt

  -- `finally`: the count goes down also when the body raises
  unfoldable pub operation : {A : Type 0} → Exec (Service L) A → Exec (Service L) A
  operation body s = elim (assert_open s) [
    | err e ↦ (err e, s)
    | ok _ ↦ let (r, s') = body (enter s) in (r, leave s')
  ]

  -- A transaction commits if the code in it returns, and is rolled back if it raises.
  unfoldable pub transaction : {A : Type 0} → (L.Txn → Result (L.Txn × A)) → Exec (Service L) A
  transaction run s = elim (run s.env) [
    | err e ↦ (err e, s)
    | ok (t, a) ↦ (ok a, record s { env = t })
  ]

  abbrev pub write : Result L.Txn → Result (L.Txn × Unit {0})
  write (ok t) = ok (t, tt)
  write (err e) = err e

  -- `_register_namespace_in_meta`
  unfoldable pub register_in_meta : L.Txn → Str → Result L.Txn
  register_in_meta t ns = elim (L.get t meta_db (codes "ns:" ++ ns)) [
    | none ↦ L.put t meta_db (codes "ns:" ++ ns) (codes "1")
    | some v ↦ ok t
  ]

  unfoldable pub open_databases : Str → Exec (Service L) (Unit {0})
  open_databases ns = do
    transaction (λ t. write (L.open_db t ns))
    transaction (λ t. write (L.open_db t (exp_db ns)))
    transaction (λ t. write (L.open_db t (expmeta_db ns)))
    transaction (λ t. write (register_in_meta t ns))

  unfoldable pub register_new : Str → Exec (Service L) (Unit {0})
  register_new ns = do open_databases ns; modify (λ s. record s { namespaces = ns ∷ s.namespaces })

  unfoldable pub register_namespace : Str → Exec (Service L) (Unit {0})
  register_namespace ns s = if contains s.namespaces ns then (ok tt, s) else register_new ns s

  -- The common end of the operations.
  unfoldable pub in_namespace :
      {A : Type 0} → Str → (L.Txn → Result (L.Txn × A)) → Exec (Service L) A
  in_namespace ns run = do register_namespace ns; transaction run

module _ (L : Lmdb) (C : Cbor) (cfg : Config) where
  unfoldable pub set_body : Str → Str → C.Value → Option ℕ → ℕ → Exec (Service L) (Unit {0})
  set_body namespace key value retention now = do
    p ← lift (check_set cfg namespace key retention now)
    in_namespace L p.0 (λ t. write L (txn_put L C cfg t p.0 key value p.1))

  unfoldable pub set : Str → Str → C.Value → Option ℕ → ℕ → Exec (Service L) (Unit {0})
  set namespace key value retention now = operation L (set_body namespace key value retention now)

  abbrev pub read : L.Txn → Result (Option C.Value) → Result (L.Txn × Option C.Value)
  read t (ok v) = ok (t, v)
  read t (err e) = err e

  unfoldable pub get_body : Str → Str → ℕ → Exec (Service L) (Option C.Value)
  get_body namespace key now = do
    ns ← lift (check_key namespace key)
    in_namespace L ns (λ t. read t (txn_get L C cfg t ns key now))

  unfoldable pub get : Str → Str → ℕ → Exec (Service L) (Option C.Value)
  get namespace key now = operation L (get_body namespace key now)

  unfoldable pub delete_body : Str → Str → Exec (Service L) Bool
  delete_body namespace key = do
    ns ← lift (check_key namespace key)
    in_namespace L ns (λ t. txn_delete L C cfg t ns key)

  unfoldable pub delete : Str → Str → Exec (Service L) Bool
  delete namespace key = operation L (delete_body namespace key)

  -- `handler` gets the namespace and the transaction, which `StoreMutation` wraps.
  unfoldable pub mutate_body :
      {A : Type 0} → Str → (Str → L.Txn → Result (L.Txn × A)) → Exec (Service L) A
  mutate_body namespace handler = do
    ns ← lift (esc_namespace namespace)
    in_namespace L ns (handler ns)

  unfoldable pub mutate :
      {A : Type 0} → Str → (Str → L.Txn → Result (L.Txn × A)) → Exec (Service L) A
  mutate namespace handler = operation L (mutate_body namespace handler)

  -- `_list_namespaces` gives `persisted`; a namespace that is only registered is added to it.
  unfoldable pub known_namespaces : List Str → List Str → List Str
  known_namespaces persisted [] = persisted
  known_namespaces persisted (ns ∷ rest) =
      known_namespaces (if contains persisted ns then persisted else persisted ++ ns ∷ []) rest

  unfoldable pub cleanup_expired : List Str → ℕ → Exec (Service L) (Unit {0})
  cleanup_expired persisted now = operation L (λ s. (
    ok tt,
    record s {
      env =
          (cleanup_env L now cfg.cleanup_max_deletes s.env 0
            (known_namespaces persisted s.namespaces)).0;
    },
  ))
