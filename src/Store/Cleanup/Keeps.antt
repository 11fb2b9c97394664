-- ===== src/Store/Cleanup/Keeps.antt =====
-- The purge takes no record that a reader could still see, and takes at most its budget.
use vfront.Common.{
  ℕ, ◌/◌, ◌≤◌, ◌-◌, Str, List, [], ◌∷◌, Bool, true, false, Option, none, some, Result, ok, err,
  >>=-eq-ok, Result-cases, inl, inr, Bool-cases, ◌≡◌, refl, ◌∙◌, str_eq_iff, leb, take, all, not,
  arith,
}
use vfront.Store.Lmdb.{Lmdb, LmdbLaws, Cbor}
use vfront.Store.Codec.{
  int_seconds, unpack_q, exp_db, expmeta_db, is_reserved, str_eq-exp_db-data,
  str_eq-expmeta_db-data,
}
use vfront.Store.Txn.{Config, is_due, decode_raw_value, txn_get}
use vfront.Store.Cleanup.{
  collect, drop_due, drop_entry, purge, purge_all, committed, after_collect, cleanup_namespace,
  cleanup_env, delete_record,
}

module _ (L : Lmdb) (laws : LmdbLaws L) (C : Cbor) (cfg : Config) (now later : ℕ)
    (since : int_seconds now ≤ int_seconds later) (d k : Str) (plain : is_reserved d ≡ false) where
  -- What a reader sees at `later` is the same in both states.
  abbrev SameRead : L.Txn → L.Txn → Type 0
  SameRead t t' = txn_get L C cfg t' d k later ≡ txn_get L C cfg t d k later

  read_due :
      (raw : Str) (ts : ℕ)
      → unpack_q (take 8 raw) ≡ ok ts
      → is_due ts now ≡ true
      → decode_raw_value L C cfg (some raw) later ≡ ok none
  unfolding decode_raw_value is_due
  read_due raw ts p due = rw p (ground arith)

  read_none : decode_raw_value L C cfg none later ≡ ok none
  unfolding decode_raw_value
  read_none = refl

  read-drop_due :
      (ns key : Str) (t : L.Txn) (raw : Option Str) {t' : L.Txn} {gone : Bool}
      → is_reserved ns ≡ false
      → L.get t ns key ≡ raw
      → drop_due L now ns t key raw ≡ ok (t', gone)
      → SameRead t t'
  unfolding drop_due delete_record txn_get
  read-drop_due ns key t none plain' g h = cc
  read-drop_due ns key t (some raw) plain' g h =
      let (ts, p, q) = >>=-eq-ok (unpack_q (take 8 raw)) _ h in
      elim (Bool-cases (is_due ts now)) [
        | inr fresh ↦ ground arith
        | inl due ↦
            let ((t1, b1), p1, q1) = >>=-eq-ok (L.delete t ns key) _ (rw due at q) in
            let ((t2, b2), p2, q2) = >>=-eq-ok (L.delete t1 (expmeta_db ns) key) _ q1 in
            ground (
              arith,
              laws.get-delete t ns key d k p1,
              laws.get-delete t1 (expmeta_db ns) key d k p2,
              str_eq-expmeta_db-data ns d plain,
              str_eq_iff ns d,
              str_eq_iff key k,
              read_due raw ts p due,
              read_none,
            )
      ]

  abbrev SameReadIf : L.Txn → Result L.Txn → Type 0
  SameReadIf t (err e) = Unit
  SameReadIf t (ok t') = SameRead t t'

  module _ (ns : Str) (plain' : is_reserved ns ≡ false) where
    read-drop_entry :
        (t t1 : L.Txn) (deleted : ℕ) (bucket key : Str) (gone : Bool)
        → SameRead t t1
        → SameReadIf t (drop_entry L now ns deleted bucket key (ok (t1, gone))).0
    unfolding drop_entry txn_get
    read-drop_entry t t1 deleted bucket key gone same =
        elim (Result-cases (L.delete_dup t1 (exp_db ns) bucket key)) [
          | inl ((t2, b), e) ↦ rw e (
              rw
                (laws.get-delete_dup t1 (exp_db ns) bucket key d k e
                  (str_eq-exp_db-data ns d plain))
                same)
          | inr (x, e) ↦ rw e tt
        ]

    read-purge :
        (t : L.Txn) (deleted : ℕ) (entry : Str × Str)
        → SameReadIf t (purge L now ns t deleted entry).0
    unfolding purge
    read-purge t deleted (bucket, key) =
        elim (Result-cases (drop_due L now ns t key (L.get t ns key))) [
          | inl ((t1, gone), e) ↦ rw e (
              read-drop_entry t t1 deleted bucket key gone
                (read-drop_due ns key t (L.get t ns key) plain' refl e))
          | inr (x, e) ↦ rw e (unfold drop_entry in tt)
        ]

    read-purge_all :
        (t : L.Txn) (r : Result L.Txn) (deleted : ℕ) (l : List (Str × Str))
        → SameReadIf t r
        → SameReadIf t (purge_all L now ns (r, deleted) l).0
    unfolding purge_all
    read-purge_all t r deleted [] h = h
    read-purge_all t (err e) deleted (entry ∷ l) h = tt
    read-purge_all t (ok t1) deleted (entry ∷ l) h =
        let (r, deleted') = purge L now ns t1 deleted entry in
        read-purge_all t r deleted' l (trans_read t t1 r h (read-purge t1 deleted entry))
      where
        trans_read :
            (t t1 : L.Txn) (r : Result L.Txn) → SameRead t t1 → SameReadIf t1 r → SameReadIf t r
        trans_read t t1 (ok t2) h h' = h' ∙ h
        trans_read t t1 (err e) h h' = tt

    read-committed :
        (t : L.Txn) (r : Result L.Txn) → SameReadIf t r → SameRead t (committed L now ns t r)
    unfolding committed
    read-committed t (ok t1) h = h
    read-committed t (err e) h = refl

    read-cleanup_namespace :
        (max_deletes : ℕ) (t : L.Txn) (deleted : ℕ)
        → SameRead t (cleanup_namespace L now ns max_deletes t deleted).0
    unfolding cleanup_namespace
    read-cleanup_namespace max_deletes t deleted =
        after (collect (int_seconds now / 60) (max_deletes - deleted) 0 (L.dups t (exp_db ns)))
      where
        after : (r : Result (List (Str × Str))) → SameRead t (after_collect L now ns t deleted r).0
        after (err e) = unfold after_collect in refl
        after (ok l) =
            unfold after_collect in
            read-committed t (purge_all L now ns (ok t, deleted) l).0
              (read-purge_all t (ok t) deleted l refl)

  -- A purge at `now` of namespaces that are not reserved hides nothing: at `now` and at any later
  -- time each read, of any key in any namespace that is not reserved, returns what it would have
  -- returned without the purge. That holds also where the engine raises in the middle, and where
  -- the budget runs out.
  pub cleanup_env_hides_nothing :
      (max_deletes : ℕ) (t : L.Txn) (deleted : ℕ) (namespaces : List Str)
      → all (λ ns. not (is_reserved ns)) namespaces ≡ true
      → txn_get L C cfg (cleanup_env L now max_deletes t deleted namespaces).0 d k later
        ≡ txn_get L C cfg t d k later
  unfolding cleanup_env
  cleanup_env_hides_nothing max_deletes t deleted [] h = refl
  cleanup_env_hides_nothing max_deletes t deleted (ns ∷ rest) h =
      elim (Bool-cases (leb max_deletes deleted)) [
        | inl spent ↦ rw (spent, cleanup_env)
        | inr room ↦
            let (t', deleted') = cleanup_namespace L now ns max_deletes t deleted in
            rw (room, cleanup_env)
              (cleanup_env_hides_nothing max_deletes t' deleted' rest (ground arith)
                ∙ read-cleanup_namespace ns (ground arith) max_deletes t deleted)
      ]
