-- ===== src/Tests/StoreRuns.antt =====
-- The theorems on the store, at concrete contents of the engine in memory.
use vfront.Common.{
  ◌+◌, ℕ, Str, [], ◌∷◌, ◌++◌, ◌&&◌, Bool, true, false, none, some, Result, ok, err, Exn, ◌≡◌, ◌≤◌,
  refl, take, codes, str_eq, if◌then◌else◌, arith, starts_with,
}
use vfront.Tests.Memory.{Memory, empty, memory, memory_laws, raw_cbor}
use vfront.Jobs.OnStore.{get-mutation_set}
use vfront.Store.Lmdb.{has_dup}
use vfront.Store.Codec.{
  esc_namespace, pack_q, unpack_q, exp_db, expmeta_db, is_reserved, unpack-pack,
}
use vfront.Store.Txn.{
  mutation_set, Config, validate_key_size, encode_value, forget_if_present, forget_if_truthy,
  drop_bucket, forget_expiry, remember_expiry, is_due, expiry_of, txn_put, txn_get, txn_delete,
}
use vfront.Store.Cleanup.{drop_due, drop_entry, delete_record, cleanup_env, purge}
use vfront.Store.Cleanup.Keeps.{cleanup_env_hides_nothing}
use vfront.Store.Cleanup.Losses.{lost}
use vfront.Store.Cleanup.Budget.{cleanup_env-count, purge_not_due}
use vfront.Store.Service.{
  Service, set, set_body, operation, transaction, in_namespace, register_namespace, register_new,
  open_databases, register_in_meta, assert_open, enter, leave,
}
use vfront.Store.Checks.{check_set, require_key}
use vfront.Common.Digits.{digits, value}
use vfront.Store.Service.Reads.{read-set, read-set_raising}
use vfront.Store.Lifecycle.{new_service, request_close, finish_close, Step, Reach, closed_is_idle}

abbrev pub limits : Config
limits = record { max_key_bytes = 511; max_value_bytes = 100; cleanup_max_deletes = 10 }

abbrev jobs : Str
jobs = codes "jobs"

abbrev one : Str
one = codes "one"

abbrev fresh : Service memory
fresh = record {
  env = empty;
  namespaces = [];
  active_operations = 0;
  drained = true;
  closing = false;
  closed = false;
}

abbrev after_set : Result (Unit {0}) × Service memory
after_set = set memory raw_cbor limits jobs one (codes "v") (some 5) 1000000 fresh

plain_jobs : is_reserved jobs ≡ false
unfolding is_reserved starts_with
plain_jobs = refl

set_returns : after_set.0 ≡ ok tt
unfolding set set_body operation assert_open check_set require_key expiry_of esc_namespace
    is_reserved starts_with validate_key_size in_namespace register_namespace enter register_new
    open_databases transaction register_in_meta txn_put encode_value forget_if_present digits value
    str_eq pack_q unpack_q leave drop_bucket forget_expiry remember_expiry exp_db expmeta_db
set_returns = refl

read-set_example :
    (e : ℕ) × (expiry_of (some 5) 1000000 ≡ ok e)
    × (txn_get memory raw_cbor limits after_set.1.env jobs one 2000000
        ≡ ok (if is_due e 2000000 then none else some (codes "v")))
unfolding str_eq
read-set_example =
    read-set memory memory_laws raw_cbor limits jobs one (codes "v") (some 5) 1000000 fresh jobs one
      2000000 set_returns plain_jobs

-- A second set, with a key that is too long, raises.
abbrev long_key : Str
long_key = one

abbrev tight : Config
tight = record { max_key_bytes = 2; max_value_bytes = 100; cleanup_max_deletes = 10 }

set_raises :
    (set memory raw_cbor tight jobs long_key (codes "w") none 1000000 after_set.1).0
    ≡ err Exn.value_error
unfolding set set_body operation assert_open check_set require_key expiry_of esc_namespace
    is_reserved starts_with validate_key_size in_namespace register_namespace enter register_new
    open_databases transaction register_in_meta txn_put encode_value forget_if_present digits value
    str_eq pack_q unpack_q leave drop_bucket forget_expiry remember_expiry exp_db expmeta_db
set_raises = refl

read-set_raising_example :
    txn_get memory raw_cbor tight
      (set memory raw_cbor tight jobs long_key (codes "w") none 1000000 after_set.1).1.env
      jobs
      one
      2000000
    ≡ txn_get memory raw_cbor tight after_set.1.env jobs one 2000000
read-set_raising_example =
    read-set_raising memory memory_laws raw_cbor tight jobs long_key (codes "w") none 1000000
      after_set.1 jobs one 2000000 set_raises plain_jobs

abbrev stored : Memory
stored = record {
  plain = λ d k.
      if str_eq jobs d && str_eq one k
      then some (pack_q 301 ++ codes "v")
      else if str_eq (expmeta_db jobs) d && str_eq one k
      then some (pack_q 301)
      else none;
  dup = λ d. if str_eq (exp_db jobs) d then (pack_q 5, one) ∷ [] else [];
}

abbrev put_over : Result Memory
put_over = txn_put memory raw_cbor limits stored jobs one (codes "w") 0

abbrev memory_of : Result Memory → Memory
memory_of (ok m) = m
memory_of (err e) = empty

put_over_returns : put_over ≡ ok (memory_of put_over)
unfolding txn_put encode_value forget_if_present forget_expiry drop_bucket remember_expiry digits
    value str_eq pack_q unpack_q exp_db expmeta_db
put_over_returns = refl

abbrev deletion : Result (Memory × Bool)
deletion = txn_delete memory raw_cbor limits stored jobs one

abbrev memory_left : Result (Memory × Bool) → Memory
memory_left (ok (m, b)) = m
memory_left (err e) = empty

deletion_returns : deletion ≡ ok (memory_left deletion, true)
unfolding txn_delete forget_if_truthy forget_expiry drop_bucket digits value str_eq pack_q unpack_q
    exp_db expmeta_db
deletion_returns = refl

cleanup_env_hides_nothing_example :
    txn_get memory raw_cbor limits
      (cleanup_env memory 400000000 10 stored 0 (jobs ∷ [])).0
      jobs
      one
      500000000
    ≡ txn_get memory raw_cbor limits stored jobs one 500000000
cleanup_env_hides_nothing_example =
    cleanup_env_hides_nothing memory memory_laws raw_cbor limits 400000000 500000000 (omega arith)
      jobs one plain_jobs 10 stored 0 (jobs ∷ []) (rw plain_jobs refl)

abbrev purged_all : Memory × ℕ
purged_all = cleanup_env memory 400000000 10 stored 0 (jobs ∷ [])

cleanup_env-count_example :
    (0 + lost memory stored purged_all.0 ((jobs, one) ∷ []) ≤ purged_all.1) × (purged_all.1 ≤ 10)
unfolding has_dup
cleanup_env-count_example =
    cleanup_env-count memory memory_laws 400000000 10 stored 0 (jobs ∷ []) ((jobs, one) ∷ [])
      (rw plain_jobs refl) refl (omega arith)

-- The record expires at second 301, and the purge runs at second 300, in the same minute.
abbrev purged : Result Memory × ℕ
purged = purge memory 300000000 jobs stored 0 (pack_q 5, one)

purge_returns : purged.0 ≡ ok (memory_of purged.0)
unfolding purge drop_due drop_entry delete_record digits value str_eq pack_q unpack_q exp_db
    expmeta_db is_due
purge_returns = refl

stored_there : stored.plain jobs one ≡ some (pack_q 301 ++ codes "v")
unfolding str_eq
stored_there = refl

stored_stamp : unpack_q (take 8 (pack_q 301 ++ codes "v")) ≡ ok 301
unfolding digits value pack_q unpack_q
stored_stamp = refl

not_due : is_due 301 300000000 ≡ false
unfolding is_due
not_due = refl

purge_not_due_example :
    (has_dup (memory.dups (memory_of purged.0) (exp_db jobs)) (pack_q 5) one ≡ false)
    × ((memory_of purged.0).plain jobs one ≡ some (pack_q 301 ++ codes "v"))
    × (purged.1 ≡ 0)
purge_not_due_example =
    purge_not_due memory memory_laws 300000000 jobs stored 0 (pack_q 5) one
      (pack_q 301 ++ codes "v") 301 plain_jobs stored_there stored_stamp not_due purge_returns

unpack-pack_example : unpack_q (pack_q 301) ≡ ok 301
unpack-pack_example = unpack-pack 301 (omega arith)

-- An operation begins, a shutdown is asked for, the operation ends, and the shutdown finishes.
abbrev shut : Service memory
shut =
    finish_close memory false
      (leave memory (request_close memory (enter memory (new_service memory empty))))

Reach-shut : Reach memory (new_service memory empty) shut
unfolding enter leave request_close finish_close new_service assert_open
Reach-shut =
    Reach.next
      (Reach.next (Reach.next (Reach.next Reach.here (Step.begin _ refl)) (Step.request _))
        (Step.end _ (omega arith)))
      (Step.finish _ false refl refl)

closed_is_idle_example :
    (shut.active_operations ≡ 0) × (assert_open memory shut ≡ err Exn.runtime_error)
unfolding finish_close
closed_is_idle_example = closed_is_idle memory empty Reach-shut refl

abbrev mutation : Result Memory
mutation = mutation_set memory raw_cbor limits empty jobs one (codes "v") (some 5) 1000000

mutation_returns : mutation ≡ ok (memory_of mutation)
unfolding mutation_set expiry_of validate_key_size txn_put encode_value forget_if_present
    remember_expiry
mutation_returns = refl

get-mutation_set_example :
    txn_get memory raw_cbor limits (memory_of mutation) jobs one 301000000 ≡ ok none
unfolding str_eq
get-mutation_set_example =
    get-mutation_set memory memory_laws raw_cbor limits jobs plain_jobs empty one (codes "v")
      (some 5) 1000000 one 301000000 mutation_returns
