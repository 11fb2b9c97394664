-- ===== src/Tests/Memory.antt =====
-- An engine in memory, which shows that the laws asked of LMDB and of cbor2 can be met.
use vfront.Common.{
  Str, List, [], ◌∷◌, Bool, false, ◌&&◌, Option, none, some, ok, ◌≡◌, refl, str_eq, str_eq_iff,
  is_some, if◌then◌else◌, arith, ok-injective, ap, sym,
}
use vfront.Store.Lmdb.{Lmdb, LmdbLaws, Cbor, has_dup}

pub record Memory : Type 0 where
  pub plain : Str → Str → Option Str
  pub dup : Str → List (Str × Str)

abbrev pub empty : Memory
empty = record { plain = λ d k. none; dup = λ d. [] }

unfoldable pub without : List (Str × Str) → Str → Str → List (Str × Str)
without [] b v = []
without ((c, w) ∷ l) b v =
    let rest = without l b v in if str_eq b c && str_eq v w then rest else (c, w) ∷ rest

has_dup-without :
    (l : List (Str × Str)) (b v b' v' : Str)
    → has_dup (without l b v) b' v'
      ≡ (if str_eq b b' && str_eq v v' then false else has_dup l b' v')
unfolding has_dup without
has_dup-without [] b v b' v' = ground arith
has_dup-without ((c, w) ∷ l) b v b' v' = ground (
  arith,
  has_dup-without l b v b' v',
  str_eq_iff b c,
  str_eq_iff v w,
  str_eq_iff b b',
  str_eq_iff v v',
  str_eq_iff c b',
  str_eq_iff w v',
)

abbrev pub memory : Lmdb
memory = record {
  Txn = Memory;
  get = λ t d k. t.plain d k;
  put = λ t d k v.
      ok (record t {
        plain = λ d' k'. if str_eq d d' && str_eq k k' then some v else t.plain d' k';
      });
  delete = λ t d k. ok (
    record t { plain = λ d' k'. if str_eq d d' && str_eq k k' then none else t.plain d' k' },
    is_some (t.plain d k),
  );
  dups = λ t d. t.dup d;
  put_dup =
      λ t d b v. ok (record t { dup = λ d'. if str_eq d d' then (b, v) ∷ t.dup d' else t.dup d' });
  delete_dup = λ t d b v. ok (
    record t { dup = λ d'. if str_eq d d' then without (t.dup d') b v else t.dup d' },
    has_dup (t.dup d) b v,
  );
  open_db = λ t d. ok t;
}

pub memory_laws : LmdbLaws memory
unfolding has_dup
memory_laws = record {
  get-put = λ t d k v d' k' h. ap (λ (m : Memory). m.plain d' k') (sym (ok-injective h));
  get-delete = λ t d k d' k' h. ap (λ (r : Memory × Bool). r.0.plain d' k') (sym (ok-injective h));
  delete_found = λ t d k h. ap (λ (r : Memory × Bool). r.1) (sym (ok-injective h));
  get-put_dup = λ t d b v d' k' h e. ap (λ (m : Memory). m.plain d' k') (sym (ok-injective h));
  get-delete_dup =
      λ t d b v d' k' h e. ap (λ (r : Memory × Bool). r.0.plain d' k') (sym (ok-injective h));
  dups-put = λ t d k v d' h e. ap (λ (m : Memory). m.dup d') (sym (ok-injective h));
  dups-delete = λ t d k d' h e. ap (λ (r : Memory × Bool). r.0.dup d') (sym (ok-injective h));
  dups-put_dup = λ t d b v d' b' v' h.
      rw (ap (λ (m : Memory). m.dup d') (sym (ok-injective h))) (ground arith);
  dups-delete_dup = λ t d b v d' b' v' h.
      rw (ap (λ (r : Memory × Bool). r.0.dup d') (sym (ok-injective h)))
        (ground (arith, has_dup-without (t.dup d') b v b' v'));
  get-open_db = λ t d d' k' h. ap (λ (m : Memory). m.plain d' k') (sym (ok-injective h));
}

-- Values are byte strings.
abbrev pub raw_cbor : Cbor
raw_cbor = record { Value = Str; dumps = λ v. v; loads = λ b. ok b; loads-dumps = λ v. refl }
