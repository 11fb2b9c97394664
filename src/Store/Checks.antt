-- ===== src/Store/Checks.antt =====
-- What the public operations of lmdb.py check before they touch the engine.
use vfront.Common.{
  ℕ, ◌<◌, ◌^◌, Str, [], ◌∷◌, Option, none, some, Result, ok, err, value_error, ◌>>=◌, ◌>>◌,
  >>=-eq-ok, ◌≡◌, Bool-cases, inl, inr, false, arith,
}
use vfront.Store.Codec.{esc_namespace, is_reserved}
use vfront.Store.Txn.{Config, expiry_of, validate_key_size}

unfoldable pub require_key : Str → Result (Unit {0})
require_key [] = err value_error
require_key (c ∷ s) = ok tt

-- The checks of `get` and of `delete`.
unfoldable pub check_key : Str → Str → Result Str
check_key namespace key = do require_key key; esc_namespace namespace

-- The checks of `set`, with the expiry that it computes.
unfoldable pub check_set : Config → Str → Str → Option ℕ → ℕ → Result (Str × ℕ)
check_set cfg namespace key retention now = do
  require_key key
  expire_ts ← expiry_of retention now
  ns ← esc_namespace namespace
  validate_key_size cfg key
  ok (ns, expire_ts)

-- A retention that is accepted gives an expiry that fits the eight bytes.
pub expiry_of-fits :
    (retention : Option ℕ) (now : ℕ) {e : ℕ} → expiry_of retention now ≡ ok e → e < 2 ^ 63
unfolding expiry_of
expiry_of-fits none now h = ground arith
expiry_of-fits (some r) now h = ground arith

esc_namespace-ok :
    (ns : Str) {ns' : Str} → esc_namespace ns ≡ ok ns' → (ns' ≡ ns) × (is_reserved ns ≡ false)
unfolding esc_namespace
esc_namespace-ok ns h = elim (Bool-cases (is_reserved ns)) [
  | inl bad ↦ absurd (cc (rw bad at h))
  | inr good ↦ ground arith
]

pub check_set-ok :
    (cfg : Config) (namespace key : Str) (retention : Option ℕ) (now : ℕ) {ns : Str} {e : ℕ}
    → check_set cfg namespace key retention now ≡ ok (ns, e)
    → (ns ≡ namespace)
      × (is_reserved namespace ≡ false)
      × (expiry_of retention now ≡ ok e)
      × (e < 2 ^ 63)
unfolding check_set
check_set-ok cfg namespace key retention now h =
    let (u, p, q) = >>=-eq-ok (require_key key) _ h in
    let (e', p1, q1) = >>=-eq-ok (expiry_of retention now) _ q in
    let (ns', p2, q2) = >>=-eq-ok (esc_namespace namespace) _ q1 in
    let (u', p3, q3) = >>=-eq-ok (validate_key_size cfg key) _ q2 in
    ground (arith, esc_namespace-ok namespace p2, expiry_of-fits retention now p1)
