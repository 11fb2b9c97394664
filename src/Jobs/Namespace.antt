-- ===== src/Jobs/Namespace.antt =====
-- What the job services use of the store: one namespace inside a write transaction, as
-- `StoreMutation` and `StoreService` offer it. Store/Txn implements it.
use vfront.Common.{
  ℕ, ◌+◌, ◌*◌, ◌/◌, Str, Bool, false, Option, none, some, Result, ok, ◌≡◌, leb, str_eq,
  if◌then◌else◌,
}

-- A record kept for `retention` minutes from `since` is gone at `now`; with no retention it stays.
abbrev pub is_gone : Option ℕ → ℕ → ℕ → Bool
is_gone none since now = false
is_gone (some retention) since now =
    leb ((since + retention * 60 * 1000000) / 1000000) (now / 1000000)

pub record Namespace (V : Type 0) : Type 1 where
  pub Txn : Type 0
  pub get : Txn → Str → ℕ → Result (Option V)
  pub set : Txn → Str → V → Option ℕ → ℕ → Result Txn
  pub delete : Txn → Str → Result (Txn × Bool)
  pub get-set :
      (t : Txn) (k : Str) (v : V) (retention : Option ℕ) (since : ℕ) (j : Str) (now : ℕ) {t' : Txn}
      → set t k v retention since ≡ ok t'
      → get t' j now ≡ (
          if str_eq k j
          then ok (if is_gone retention since now then none else some v)
          else get t j now)
  pub get-delete :
      (t : Txn) (k j : Str) (now : ℕ) {t' : Txn} {found : Bool}
      → delete t k ≡ ok (t', found)
      → get t' j now ≡ (if str_eq k j then ok none else get t j now)

-- How pydantic's `model_dump` and `model_validate` carry a model through a stored value.
pub record Model (M V : Type 0) : Type 0 where
  pub model_dump : M → V
  pub model_validate : V → Result M
  pub validate-dump : (m : M) → model_validate (model_dump m) ≡ ok m
