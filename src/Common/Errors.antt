-- ===== src/Common/Errors.antt =====
-- Code that raises returns a `Result`; `Exn` names the exceptions that the modelled code raises.
use mathlib.Core.Path.{◌≡◌, refl}
use mathlib.Core.Logic.{◌⊎◌, inl, inr}

pub data Exn : Type 0 where
  -- Python's ValueError and RuntimeError, and `struct.error`
  value_error runtime_error struct_error : Exn
  -- an exception of the LMDB binding, such as MapFullError
  lmdb_error : Exn
  -- frontend/middleware/exceptions.py
  invalid_request not_found : Exn

pub data Result {ℓ} (A : Type ℓ) : Type ℓ where
  ok : A → Result A
  err : Exn → Result A

module _ {ℓ} {A : Type ℓ} where
  pub Result-cases : (r : Result A) → ((a : A) × (r ≡ ok a)) ⊎ ((e : Exn) × (r ≡ err e))
  Result-cases (ok a) = inl (a, refl)
  Result-cases (err e) = inr (e, refl)

  pub ok-injective : {a b : A} → ok a ≡ ok b → a ≡ b
  ok-injective h = cc

module _ {ℓ κ} {A : Type ℓ} {B : Type κ} where
  infixl 5 ◌>>=◌ ◌>>◌
  -- an exception ends the block
  abbrev pub ◌>>=◌ : Result A → (A → Result B) → Result B
  err x >>= body = err x
  ok v >>= body = body v

  abbrev pub ◌>>◌ : Result A → Result B → Result B
  first >> second = first >>= λ _. second

  -- What a block that returns has done first.
  pub >>=-eq-ok :
      (first : Result A) (body : A → Result B) {out : B}
      → (first >>= body) ≡ ok out
      → (v : A) × (first ≡ ok v) × (body v ≡ ok out)
  >>=-eq-ok (err x) body h = cc
  >>=-eq-ok (ok v) body h = (v, refl, h)
