-- ===== src/Store/Cleanup/Losses.antt =====
-- The records that a purge takes out of the store are no more than it counts.
use vfront.Common.{
  ℕ, ◌/◌, ◌≤◌, ◌+◌, ◌-◌, Str, List, [], ◌∷◌, Bool, true, false, not, ◌&&◌, Option, none, some,
  Result, ok, err, Exn, >>=-eq-ok, Result-cases, inl, inr, Bool-cases, ◌≡◌, refl, all, is_some,
  str_eq, str_eq_iff, leb, take, if◌then◌else◌, arith,
}
use vfront.Store.Lmdb.{Lmdb, LmdbLaws, has_dup}
use vfront.Store.Codec.{
  int_seconds, unpack_q, exp_db, expmeta_db, is_reserved, str_eq-exp_db-data,
  str_eq-expmeta_db-data,
}
use vfront.Store.Txn.{is_due}
use vfront.Store.Cleanup.{
  collect, delete_record, drop_due, drop_entry, purge, purge_all, committed, after_collect,
  cleanup_namespace, cleanup_env,
}

-- Keys with their namespaces, none twice, and none in a database that the store keeps for itself.
abbrev pub are_distinct : List (Str × Str) → Bool
are_distinct [] = true
are_distinct ((d, k) ∷ l) = not (has_dup l d k) && are_distinct l

abbrev pub are_plain : List (Str × Str) → Bool
are_plain l = all (λ e. not (is_reserved e.0)) l

module _ (L : Lmdb) where
  abbrev pub is_lost : L.Txn → L.Txn → Str × Str → Bool
  is_lost t t' (d, k) = is_some (L.get t d k) && not (is_some (L.get t' d k))

  -- How many of the keys are stored in the first state and not in the second.
  unfoldable pub lost : L.Txn → L.Txn → List (Str × Str) → ℕ
  lost t t' [] = 0
  lost t t' (e ∷ l) = (if is_lost t t' e then 1 else 0) + lost t t' l

  lost_trans : (t t1 t2 : L.Txn) (l : List (Str × Str)) → lost t t2 l ≤ lost t t1 l + lost t1 t2 l
  unfolding lost
  lost_trans t t1 t2 [] = omega arith
  lost_trans t t1 t2 ((d, k) ∷ l) = ground (arith, lost_trans t t1 t2 l)

  lost_self : (t : L.Txn) (l : List (Str × Str)) → lost t t l ≡ 0
  unfolding lost
  lost_self t [] = refl
  lost_self t ((d, k) ∷ l) = ground (arith, lost_self t l)

  -- The second state reads like the first one but for one key, which is not stored any more.
  abbrev Removal : Str → Str → L.Txn → L.Txn → Type 0
  Removal ns key t t' =
      (d k : Str)
      → is_reserved d ≡ false
      → L.get t' d k ≡ (if str_eq ns d && str_eq key k then none else L.get t d k)

  abbrev Unread : L.Txn → L.Txn → Type 0
  Unread t t' = (d k : Str) → is_reserved d ≡ false → L.get t' d k ≡ L.get t d k

  lost-Unread :
      (t t' : L.Txn) (l : List (Str × Str)) → Unread t t' → are_plain l ≡ true → lost t t' l ≡ 0
  unfolding lost
  lost-Unread t t' [] same plain = refl
  lost-Unread t t' ((d, k) ∷ l) same plain =
      ground (arith, same d k (ground arith), lost-Unread t t' l same (ground arith))

  lost_elsewhere :
      (ns key : Str) (t t' : L.Txn) (l : List (Str × Str))
      → Removal ns key t t'
      → are_plain l ≡ true
      → has_dup l ns key ≡ false
      → lost t t' l ≡ 0
  unfolding lost has_dup
  lost_elsewhere ns key t t' [] removed plain other = refl
  lost_elsewhere ns key t t' ((d, k) ∷ l) removed plain other = ground (
    arith,
    removed d k (ground arith),
    str_eq_iff ns d,
    str_eq_iff d ns,
    str_eq_iff key k,
    str_eq_iff k key,
    lost_elsewhere ns key t t' l removed (ground arith) (ground arith),
  )

  lost_one :
      (ns key : Str) (t t' : L.Txn) (l : List (Str × Str))
      → Removal ns key t t'
      → are_plain l ≡ true
      → are_distinct l ≡ true
      → lost t t' l ≤ 1
  unfolding lost
  lost_one ns key t t' [] removed plain distinct = omega arith
  lost_one ns key t t' ((d, k) ∷ l) removed plain distinct =
      elim (Bool-cases (str_eq ns d && str_eq key k)) [
        | inl here ↦
            let same_d : ns ≡ d = (str_eq_iff ns d).0 (ground arith) in
            let same_k : key ≡ k = (str_eq_iff key k).0 (ground arith) in
            let none_left = lost_elsewhere ns key t t' l removed (ground arith) in
            ground (arith, none_left (rw (same_d, same_k) (ground arith)))
        | inr other ↦
            let kept = removed d k (ground arith) in
            ground (
              arith,
              rw other at kept,
              lost_one ns key t t' l removed (ground arith) (ground arith),
            )
      ]

module _ (L : Lmdb) (laws : LmdbLaws L) (now : ℕ) (keys : List (Str × Str))
    (plain : are_plain keys ≡ true) (distinct : are_distinct keys ≡ true) where
  lost-delete_record :
      (ns key : Str) (t : L.Txn) {t' : L.Txn} {b : Bool}
      → delete_record L now ns t key ≡ ok (t', b)
      → (b ≡ true) × (lost L t t' keys ≤ 1)
  unfolding delete_record
  lost-delete_record ns key t {t'} {b} h =
      let ((t1, b1), p1, q1) = >>=-eq-ok (L.delete t ns key) _ h in
      let ((t2, b2), p2, q2) = >>=-eq-ok (L.delete t1 (expmeta_db ns) key) _ q1 in
      let end : t2 ≡ t' = cc in
      let done : b ≡ true = cc in
      (
        done,
        lost_one L ns key t t' keys
            (λ d k other. ground (
              arith,
              laws.get-delete t ns key d k p1,
              laws.get-delete t1 (expmeta_db ns) key d k p2,
              str_eq-expmeta_db-data ns d other,
              end,
            ))
            plain distinct,
      )

  lost-drop_due :
      (ns key : Str) (t : L.Txn) (raw : Option Str) {t' : L.Txn} {gone : Bool}
      → drop_due L now ns t key raw ≡ ok (t', gone)
      → lost L t t' keys ≤ (if gone then 1 else 0)
  unfolding drop_due
  lost-drop_due ns key t none {t'} h =
      let same : t ≡ t' = cc in rw (← same, lost_self L t keys) (omega arith)
  lost-drop_due ns key t (some raw) {t'} {gone} h =
      let (ts, p, q) = >>=-eq-ok (unpack_q (take 8 raw)) _ h in
      elim (Bool-cases (is_due ts now)) [
        | inr fresh ↦
            let kept = rw fresh at q in
            let same : t ≡ t' = cc in rw (← same, lost_self L t keys) (omega arith)
        | inl due ↦ let (done, most) = lost-delete_record ns key t (rw due at q) in rw done most
      ]

  lost-drop_entry :
      (ns : Str) (deleted : ℕ) (bucket key : Str) (t t1 : L.Txn) (gone : Bool) {t' : L.Txn}
      → lost L t t1 keys ≤ (if gone then 1 else 0)
      → (drop_entry L now ns deleted bucket key (ok (t1, gone))).0 ≡ ok t'
      → deleted + lost L t t' keys ≤ (drop_entry L now ns deleted bucket key (ok (t1, gone))).1
  unfolding drop_entry
  lost-drop_entry ns deleted bucket key t t1 gone {t'} most h =
      let ((t2, b), p, q) = >>=-eq-ok (L.delete_dup t1 (exp_db ns) bucket key) _ h in
      let end : t2 ≡ t' = cc in
      let unread =
        lost-Unread L t1 t2 keys
          (λ d k other.
            laws.get-delete_dup t1 (exp_db ns) bucket key d k p (str_eq-exp_db-data ns d other))
          plain in
      rw (← end) (ground (arith, most, unread, lost_trans L t t1 t2 keys))

  lost-purge :
      (ns : Str) (t : L.Txn) (deleted : ℕ) (entry : Str × Str) {t' : L.Txn}
      → (purge L now ns t deleted entry).0 ≡ ok t'
      → deleted + lost L t t' keys ≤ (purge L now ns t deleted entry).1
  unfolding purge
  lost-purge ns t deleted (bucket, key) h =
      elim (Result-cases (drop_due L now ns t key (L.get t ns key))) [
        | inl ((t1, gone), e) ↦ rw e (
            lost-drop_entry ns deleted bucket key t t1 gone
              (lost-drop_due ns key t (L.get t ns key) e) (rw e at h))
        | inr (x, e) ↦ absurd (unfold drop_entry in cc (rw e at h))
      ]

  -- What is counted stays counted.
  purge-counts :
      (ns : Str) (t : L.Txn) (deleted : ℕ) (entry : Str × Str)
      → deleted ≤ (purge L now ns t deleted entry).1
  unfolding purge drop_entry
  purge-counts ns t deleted (bucket, key) = ground arith

  purge_all-counts :
      (ns : Str) (r : Result L.Txn) (deleted : ℕ) (l : List (Str × Str))
      → deleted ≤ (purge_all L now ns (r, deleted) l).1
  unfolding purge_all
  purge_all-counts ns r deleted [] = omega arith
  purge_all-counts ns (err x) deleted (entry ∷ l) = omega arith
  purge_all-counts ns (ok t) deleted (entry ∷ l) =
      let (r, deleted') = purge L now ns t deleted entry in
      omega (arith, purge_all-counts ns r deleted' l, purge-counts ns t deleted entry)

  lost-purge_all :
      (ns : Str) (t : L.Txn) (deleted : ℕ) (l : List (Str × Str)) {t' : L.Txn}
      → (purge_all L now ns (ok t, deleted) l).0 ≡ ok t'
      → deleted + lost L t t' keys ≤ (purge_all L now ns (ok t, deleted) l).1
  unfolding purge_all
  lost-purge_all ns t deleted [] {t'} h =
      let same : t ≡ t' = cc in rw (← same, lost_self L t keys) (omega arith)
  lost-purge_all ns t deleted (entry ∷ l) {t'} h =
      elim (Result-cases (purge L now ns t deleted entry).0) [
        | inl (t1, e) ↦
            let total = (purge L now ns t deleted entry).1 in
            let rest = lost-purge_all ns t1 total l {t' = t'} (rw e at h) in
            rw e (omega (arith, rest, lost-purge ns t deleted entry e, lost_trans L t t1 t' keys))
        | inr (x, e) ↦ absurd (failed x _ l (rw e at h))
      ]
    where
      failed :
          (x : Exn) (n : ℕ) (l : List (Str × Str)) → (purge_all L now ns (err x, n) l).0 ≡ ok t' → ⊥
      failed x n [] g = cc
      failed x n (e ∷ l) g = cc

  lost-after_collect :
      (ns : Str) (t : L.Txn) (deleted : ℕ) (found : Result (List (Str × Str)))
      → let (t', total) = after_collect L now ns t deleted found in
        deleted + lost L t t' keys ≤ total
  unfolding after_collect committed
  lost-after_collect ns t deleted (err x) = rw (lost_self L t keys) (omega arith)
  lost-after_collect ns t deleted (ok l) =
      elim (Result-cases (purge_all L now ns (ok t, deleted) l).0) [
        | inl (t1, e) ↦ rw e (lost-purge_all ns t deleted l e)
        | inr (x, e) ↦
            rw (e, lost_self L t keys) (omega (arith, purge_all-counts ns (ok t) deleted l))
      ]

  pub lost-cleanup_env :
      (max_deletes : ℕ) (t : L.Txn) (deleted : ℕ) (namespaces : List Str)
      → let (t', total) = cleanup_env L now max_deletes t deleted namespaces in
        deleted + lost L t t' keys ≤ total
  unfolding cleanup_env cleanup_namespace
  lost-cleanup_env max_deletes t deleted [] = rw (lost_self L t keys) (omega arith)
  lost-cleanup_env max_deletes t deleted (ns ∷ rest) = elim (Bool-cases (leb max_deletes deleted)) [
    | inl spent ↦ rw (spent, cleanup_env, lost_self L t keys) (omega arith)
    | inr room ↦
        let found =
          collect (int_seconds now / 60) (max_deletes - deleted) 0 (L.dups t (exp_db ns)) in
        let (t1, total) = after_collect L now ns t deleted found in
        let (t2, all_of_it) = cleanup_env L now max_deletes t1 total rest in
        rw (room, cleanup_env)
          (omega (
            arith,
            lost-after_collect ns t deleted found,
            lost-cleanup_env max_deletes t1 total rest,
            lost_trans L t t1 t2 keys,
          ))
  ]
