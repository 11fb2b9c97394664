-- ===== src/Store/Lmdb.antt =====
-- What the store relies on of the LMDB binding and of cbor2, neither of which is part of the
-- repository. A `Txn` is the content that a transaction sees. What raises returns an error.
use vfront.Common.{
  Str, List, [], ◌∷◌, Option, none, some, Bool, true, false, ◌&&◌, ◌||◌, ◌≡◌, Result, ok, str_eq,
  is_some, if◌then◌else◌,
}

-- Whether a dupsort database holds the value `k` under the key `b`.
unfoldable pub has_dup : List (Str × Str) → Str → Str → Bool
has_dup [] b k = false
has_dup ((c, j) ∷ l) b k = str_eq c b && str_eq j k || has_dup l b k

-- A plain database holds one value for a key; in a dupsort database a key holds a set of values.
pub record Lmdb : Type 1 where
  pub Txn : Type 0
  pub get : Txn → Str → Str → Option Str
  pub put : Txn → Str → Str → Str → Result Txn
  pub delete : Txn → Str → Str → Result (Txn × Bool)
  pub dups : Txn → Str → List (Str × Str)
  pub put_dup : Txn → Str → Str → Str → Result Txn
  pub delete_dup : Txn → Str → Str → Str → Result (Txn × Bool)
  pub open_db : Txn → Str → Result Txn

-- The documented behaviour: a write shows at its own key, in its own database, and nowhere else.
pub record LmdbLaws (L : Lmdb) : Type 0 where
  pub get-put :
      (t : L.Txn) (d k v d' k' : Str) {t' : L.Txn}
      → L.put t d k v ≡ ok t'
      → L.get t' d' k' ≡ (if str_eq d d' && str_eq k k' then some v else L.get t d' k')
  pub get-delete :
      (t : L.Txn) (d k d' k' : Str) {t' : L.Txn} {b : Bool}
      → L.delete t d k ≡ ok (t', b)
      → L.get t' d' k' ≡ (if str_eq d d' && str_eq k k' then none else L.get t d' k')
  pub delete_found :
      (t : L.Txn) (d k : Str) {t' : L.Txn} {b : Bool}
      → L.delete t d k ≡ ok (t', b)
      → b ≡ is_some (L.get t d k)
  pub get-put_dup :
      (t : L.Txn) (d b v d' k' : Str) {t' : L.Txn}
      → L.put_dup t d b v ≡ ok t'
      → str_eq d d' ≡ false
      → L.get t' d' k' ≡ L.get t d' k'
  pub get-delete_dup :
      (t : L.Txn) (d b v d' k' : Str) {t' : L.Txn} {r : Bool}
      → L.delete_dup t d b v ≡ ok (t', r)
      → str_eq d d' ≡ false
      → L.get t' d' k' ≡ L.get t d' k'
  pub dups-put :
      (t : L.Txn) (d k v d' : Str) {t' : L.Txn}
      → L.put t d k v ≡ ok t'
      → str_eq d d' ≡ false
      → L.dups t' d' ≡ L.dups t d'
  pub dups-delete :
      (t : L.Txn) (d k d' : Str) {t' : L.Txn} {r : Bool}
      → L.delete t d k ≡ ok (t', r)
      → str_eq d d' ≡ false
      → L.dups t' d' ≡ L.dups t d'
  pub dups-put_dup :
      (t : L.Txn) (d b v d' b' v' : Str) {t' : L.Txn}
      → L.put_dup t d b v ≡ ok t'
      → has_dup (L.dups t' d') b' v' ≡ (
          if str_eq d d' && (str_eq b b' && str_eq v v') then true else has_dup (L.dups t d') b' v')
  pub dups-delete_dup :
      (t : L.Txn) (d b v d' b' v' : Str) {t' : L.Txn} {r : Bool}
      → L.delete_dup t d b v ≡ ok (t', r)
      → has_dup (L.dups t' d') b' v' ≡ (
          if str_eq d d' && (str_eq b b' && str_eq v v')
          then false
          else has_dup (L.dups t d') b' v')
  -- opening a database creates it empty, if it is not there
  pub get-open_db :
      (t : L.Txn) (d d' k' : Str) {t' : L.Txn}
      → L.open_db t d ≡ ok t'
      → L.get t' d' k' ≡ L.get t d' k'

-- cbor2: the values that it encodes come back.
pub record Cbor : Type 1 where
  pub Value : Type 0
  pub dumps : Value → Str
  pub loads : Str → Result Value
  pub loads-dumps : (v : Value) → loads (dumps v) ≡ ok v
