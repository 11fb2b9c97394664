-- ===== src/Store/Service/Keeps.antt =====
-- What the steps of an operation leave as it was for a reader.
use vfront.Common.{
  Str, [], ◌++◌, false, Result, ok, err, Exn, inl, inr, Result-cases, ◌≡◌, refl, ◌∙◌, str_eq,
  str_eq_iff, codes, arith, starts_with-append,
}
use vfront.Common.Exec.{Exec, lift, continue, ◌>>=◌, >>=-eq-ok}
use vfront.Store.Lmdb.{Lmdb, LmdbLaws}
use vfront.Store.Codec.{exp_db, expmeta_db, meta_db, is_reserved}
use vfront.Store.Service.{
  Service, transaction, write, register_in_meta, open_databases, register_new, register_namespace,
  in_namespace,
}

meta_db-reserved : (d : Str) → is_reserved d ≡ false → str_eq meta_db d ≡ false
unfolding is_reserved
meta_db-reserved d h = ground (arith, str_eq_iff meta_db d, starts_with-append meta_db [])

module _ (L : Lmdb) (laws : LmdbLaws L) (d k : Str) (plain : is_reserved d ≡ false) where
  -- `m` leaves the record of `k` in `d` as it was, whether it returns or raises.
  pub record Keeps {A : Type 0} (m : Exec (Service L) A) : Type 0 where
    pub at : (s : Service L) → L.get (m s).1.env d k ≡ L.get s.env d k

  -- `m` does so where it raises.
  pub record KeepsRaising {A : Type 0} (m : Exec (Service L) A) : Type 0 where
    pub at : (s : Service L) (e : Exn) → (m s).0 ≡ err e → L.get (m s).1.env d k ≡ L.get s.env d k

  pub Keeps-lift : {A : Type 0} (r : Result A) → Keeps (lift r)
  Keeps-lift r = record { at = λ s. refl }

  Keeps-bind :
      {A B : Type 0} (m : Exec (Service L) A) (f : A → Exec (Service L) B)
      → Keeps m
      → ((a : A) → Keeps (f a))
      → Keeps (m >>= f)
  Keeps-bind {A} m f km kf = record { at = λ s. let (r, s') = m s in rest r s' ∙ km.at s }
    where
      rest : (r : Result A) (s' : Service L) → L.get (continue r f s').1.env d k ≡ L.get s'.env d k
      rest (ok a) s' = (kf a).at s'
      rest (err e) s' = refl

  pub KeepsRaising-bind :
      {A B : Type 0} (m : Exec (Service L) A) (f : A → Exec (Service L) B)
      → Keeps m
      → ((a : A) → KeepsRaising (f a))
      → KeepsRaising (m >>= f)
  KeepsRaising-bind {A} m f km kf = record {
    at = λ s e h. let (r, s') = m s in rest r s' e h ∙ km.at s;
  }
    where
      rest :
          (r : Result A) (s' : Service L) (e : Exn)
          → (continue r f s').0 ≡ err e
          → L.get (continue r f s').1.env d k ≡ L.get s'.env d k
      rest (ok a) s' e h = (kf a).at s' e h
      rest (err x) s' e h = refl

  KeepsRaising-transaction :
      {A : Type 0} (run : L.Txn → Result (L.Txn × A)) → KeepsRaising (transaction L run)
  unfolding transaction
  KeepsRaising-transaction run = record {
    at = λ s e h. elim (Result-cases (run s.env)) [
      | inl ((t, a), p) ↦ absurd (cc (rw (p, transaction) at h))
      | inr (x, p) ↦ rw (p, transaction)
    ];
  }

  Keeps-write :
      (run : L.Txn → Result L.Txn)
      → ((t t' : L.Txn) → run t ≡ ok t' → L.get t' d k ≡ L.get t d k)
      → Keeps (transaction L (λ t. write L (run t)))
  unfolding transaction
  Keeps-write run kept = record {
    at = λ s. elim (Result-cases (run s.env)) [
      | inl (t, p) ↦ rw (p, transaction) (kept s.env t p)
      | inr (x, p) ↦ rw (p, transaction)
    ];
  }

  get-register_in_meta :
      (ns : Str) (t t' : L.Txn) → register_in_meta L t ns ≡ ok t' → L.get t' d k ≡ L.get t d k
  unfolding register_in_meta
  get-register_in_meta ns t t' h = ground (
    arith,
    laws.get-put t meta_db (codes "ns:" ++ ns) (codes "1") d k {t' = t'},
    meta_db-reserved d plain,
  )

  Keeps-open_db : (name : Str) → Keeps (transaction L (λ t. write L (L.open_db t name)))
  Keeps-open_db name = Keeps-write (λ t. L.open_db t name) (λ t t' p. laws.get-open_db t name d k p)

  Keeps-open_databases : (ns : Str) → Keeps (open_databases L ns)
  unfolding open_databases
  Keeps-open_databases ns = Keeps-bind _ _ (Keeps-open_db ns) (λ _.
      Keeps-bind _ _ (Keeps-open_db (exp_db ns)) (λ _.
        Keeps-bind _ _ (Keeps-open_db (expmeta_db ns))
          (λ _. Keeps-write (λ t. register_in_meta L t ns) (get-register_in_meta ns))))

  Keeps-register_new : (ns : Str) → Keeps (register_new L ns)
  unfolding register_new
  Keeps-register_new ns = Keeps-bind _ _ (Keeps-open_databases ns) (λ _. record { at = λ s. refl })

  Keeps-register_namespace : (ns : Str) → Keeps (register_namespace L ns)
  unfolding register_namespace
  Keeps-register_namespace ns = record { at = λ s. ground (arith, (Keeps-register_new ns).at s) }

  pub KeepsRaising-in_namespace :
      {A : Type 0} (ns : Str) (run : L.Txn → Result (L.Txn × A))
      → KeepsRaising (in_namespace L ns run)
  unfolding in_namespace
  KeepsRaising-in_namespace ns run =
      KeepsRaising-bind _ _ (Keeps-register_namespace ns) (λ _. KeepsRaising-transaction run)

  transaction-ok :
      {A : Type 0} (run : L.Txn → Result (L.Txn × A)) (s : Service L) {a : A}
      → (transaction L run s).0 ≡ ok a
      → run s.env ≡ ok ((transaction L run s).1.env, a)
  unfolding transaction
  transaction-ok run s h = elim (Result-cases (run s.env)) [
    | inl ((t, b), p) ↦ rw (p, transaction) (cc (rw (p, transaction) at h))
    | inr (e, p) ↦ absurd (cc (rw (p, transaction) at h))
  ]

  in_namespace-eq :
      {A : Type 0} (ns : Str) (run : L.Txn → Result (L.Txn × A)) (s : Service L) {a : A}
      → (in_namespace L ns run s).0 ≡ ok a
      → in_namespace L ns run s ≡ transaction L run (register_namespace L ns s).1
  unfolding in_namespace
  in_namespace-eq ns run s h = (>>=-eq-ok (register_namespace L ns) _ s h).3

  -- An operation that returns has run its transaction on a content that reads as before.
  pub in_namespace-ok :
      {A : Type 0} (ns : Str) (run : L.Txn → Result (L.Txn × A)) (s : Service L) {a : A}
      → (in_namespace L ns run s).0 ≡ ok a
      → (t : L.Txn) × (run t ≡ ok ((in_namespace L ns run s).1.env, a))
        × (L.get t d k ≡ L.get s.env d k)
  in_namespace-ok ns run s h =
      let same = in_namespace-eq ns run s h in
      let s' = (register_namespace L ns s).1 in
      (s'.env, rw same (transaction-ok run s' (rw same at h)), (Keeps-register_namespace ns).at s)
