-- ===== src/Store/Cleanup/Budget.antt =====
-- How many records a purge deletes, and what it does to an index entry that is not due yet.
use vfront.Common.{
  ℕ, ◌/◌, suc, ◌≤◌, ◌<◌, ◌+◌, ◌-◌, Str, List, [], ◌∷◌, true, false, some, Result, ok, err,
  >>=-eq-ok, Result-cases, inl, inr, Bool-cases, ◌≡◌, str_eq_self, ltb, leb, leb→lt, take, length,
  if◌then◌else◌, arith,
}
use vfront.Store.Lmdb.{Lmdb, LmdbLaws, has_dup}
use vfront.Store.Codec.{int_seconds, unpack_q, exp_db, is_reserved, str_eq-exp_db-data}
use vfront.Store.Cleanup.Losses.{are_plain, are_distinct, lost, lost-cleanup_env}
use vfront.Store.Txn.{is_due}
use vfront.Store.Cleanup.{
  collect, drop_due, drop_entry, purge, purge_all, after_collect, cleanup_namespace, cleanup_env,
}

length-collect :
    (now_bucket limit n : ℕ) (l : List (Str × Str)) {found : List (Str × Str)}
    → collect now_bucket limit n l ≡ ok found
    → n < limit
    → n + length found ≤ limit
unfolding collect
length-collect b limit n [] h room = ground arith
length-collect b limit n ((c, k) ∷ l) h room =
    let (bucket, p, q) = >>=-eq-ok (unpack_q c) _ h in
    elim (Bool-cases (ltb b bucket)) [
      | inl past ↦ ground arith
      | inr now ↦ elim (Bool-cases (leb limit (suc n))) [
        | inl full ↦ ground arith
        | inr more ↦
            let (rest, p1, q1) =
              >>=-eq-ok (if leb limit (suc n) then ok [] else collect b limit (suc n) l) _
                (rw now at q) in
            ground
              (arith, length-collect b limit (suc n) l (rw more at p1) (leb→lt limit (suc n) more))
      ]
    ]

module _ (L : Lmdb) (now : ℕ) (ns : Str) where
  purge-count :
      (t : L.Txn) (deleted : ℕ) (entry : Str × Str)
      → (purge L now ns t deleted entry).1 ≤ suc deleted
  unfolding purge drop_entry
  purge-count t deleted (bucket, key) = ground arith

  purge_all-count :
      (r : Result L.Txn) (deleted : ℕ) (l : List (Str × Str))
      → (purge_all L now ns (r, deleted) l).1 ≤ deleted + length l
  unfolding purge_all
  purge_all-count r deleted [] = omega arith
  purge_all-count (err e) deleted (entry ∷ l) = omega arith
  purge_all-count (ok t) deleted (entry ∷ l) =
      let (r, deleted') = purge L now ns t deleted entry in
      omega (arith, purge_all-count r deleted' l, purge-count t deleted entry)

  cleanup_namespace-count :
      (max_deletes : ℕ) (t : L.Txn) (deleted : ℕ)
      → deleted < max_deletes
      → (cleanup_namespace L now ns max_deletes t deleted).1 ≤ max_deletes
  unfolding cleanup_namespace after_collect
  cleanup_namespace-count max_deletes t deleted h =
      elim (Result-cases
        (collect (int_seconds now / 60) (max_deletes - deleted) 0 (L.dups t (exp_db ns)))) [
          | inl (l, e) ↦ rw e (
              omega (
                arith,
                purge_all-count (ok t) deleted l,
                length-collect (int_seconds now / 60) (max_deletes - deleted) 0
                    (L.dups t (exp_db ns)) e (omega arith),
              ))
          | inr (x, e) ↦ rw e (omega arith)
        ]

cleanup_env-total :
    (L : Lmdb) (now max_deletes : ℕ) (t : L.Txn) (deleted : ℕ) (namespaces : List Str)
    → deleted ≤ max_deletes
    → (cleanup_env L now max_deletes t deleted namespaces).1 ≤ max_deletes
unfolding cleanup_env
cleanup_env-total L now max_deletes t deleted [] h = h
cleanup_env-total L now max_deletes t deleted (ns ∷ rest) h =
    elim (Bool-cases (leb max_deletes deleted)) [
      | inl spent ↦ rw (spent, cleanup_env) h
      | inr room ↦
          let (t', deleted') = cleanup_namespace L now ns max_deletes t deleted in
          rw (room, cleanup_env)
            (cleanup_env-total L now max_deletes t' deleted' rest (
              cleanup_namespace-count L now ns max_deletes t deleted
                (leb→lt max_deletes deleted room)))
    ]

-- A purge that has not counted more than its budget yet counts at least the records that it takes
-- out of the store, and no more than `cleanup_max_deletes` in all, over all the namespaces. So of
-- any keys that are different and not in a reserved namespace at most that many are stored before
-- and not stored behind it.
pub cleanup_env-count :
    (L : Lmdb) (laws : LmdbLaws L) (now max_deletes : ℕ) (t : L.Txn) (deleted : ℕ)
    (namespaces : List Str) (keys : List (Str × Str))
    → are_plain keys ≡ true
    → are_distinct keys ≡ true
    → deleted ≤ max_deletes
    → let (t', total) = cleanup_env L now max_deletes t deleted namespaces in
      (deleted + lost L t t' keys ≤ total) × (total ≤ max_deletes)
cleanup_env-count L laws now max_deletes t deleted namespaces keys plain distinct h = (
  lost-cleanup_env L laws now keys plain distinct max_deletes t deleted namespaces,
  cleanup_env-total L now max_deletes t deleted namespaces h,
)

purge_fresh :
    (L : Lmdb) (now : ℕ) (ns : Str) (t : L.Txn) (deleted : ℕ) (bucket key raw : Str) (ts : ℕ)
    → L.get t ns key ≡ some raw
    → unpack_q (take 8 raw) ≡ ok ts
    → is_due ts now ≡ false
    → purge L now ns t deleted (bucket, key)
      ≡ drop_entry L now ns deleted bucket key (ok (t, false))
unfolding purge drop_due
purge_fresh L now ns t deleted bucket key raw ts there stamp fresh =
    rw (there, drop_due, stamp, fresh)

-- An index entry that the scan selects for a record which is not due yet (its expiry is later in
-- the current minute) is dropped, if the engine does not raise, and the record stays, no longer
-- indexed there.
pub purge_not_due :
    (L : Lmdb) (laws : LmdbLaws L) (now : ℕ) (ns : Str) (t : L.Txn) (deleted : ℕ)
    (bucket key raw : Str) (ts : ℕ) {t' : L.Txn}
    → is_reserved ns ≡ false
    → L.get t ns key ≡ some raw
    → unpack_q (take 8 raw) ≡ ok ts
    → is_due ts now ≡ false
    → (purge L now ns t deleted (bucket, key)).0 ≡ ok t'
    → (has_dup (L.dups t' (exp_db ns)) bucket key ≡ false)
      × (L.get t' ns key ≡ some raw)
      × ((purge L now ns t deleted (bucket, key)).1 ≡ deleted)
unfolding drop_entry
purge_not_due L laws now ns t deleted bucket key raw ts plain there stamp fresh h =
    let same = purge_fresh L now ns t deleted bucket key raw ts there stamp fresh in
    let h' = rw same at h in
    let ((t2, b), e, q) = >>=-eq-ok (L.delete_dup t (exp_db ns) bucket key) _ h' in
    rw same (
      ground (
        arith,
        laws.dups-delete_dup t (exp_db ns) bucket key (exp_db ns) bucket key e,
        laws.get-delete_dup t (exp_db ns) bucket key ns key e (str_eq-exp_db-data ns ns plain),
        str_eq_self bucket,
        str_eq_self key,
        str_eq_self (exp_db ns),
      ))
