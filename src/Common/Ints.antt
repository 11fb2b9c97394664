-- ===== src/Common/Ints.antt =====
-- Python's `int`, and the range tests that the program makes on optional ones.
use Prim.Native.Nat.{ℕ, ◌≤◌}
use mathlib.Core.Path.{◌≡◌, refl, subst}
use mathlib.Core.Logic.{◌↔◌}
use mathlib.Core.Bool.{Bool, true, false, ◌&&◌}
use mathlib.Core.Option.{Option, none, some}
use native.Mathlib.Omega.{arith}
use vfront.Common.Tests.{leb}

pub data ℤ : Type 0 where
  pos negsuc : ℕ → ℤ

abbrev pub is_within : ℕ → ℕ → ℤ → Bool
is_within lo hi (pos n) = leb lo n && leb n hi
is_within lo hi (negsuc n) = false

abbrev pub is_at_least : ℕ → ℤ → Bool
is_at_least lo (pos n) = leb lo n
is_at_least lo (negsuc n) = false

module _ {A : Type 0} where
  -- `x is None or test(x)`
  abbrev pub if_given : (A → Bool) → Option A → Bool
  if_given test none = true
  if_given test (some a) = test a

  abbrev pub IfGiven : (A → Type 0) → Option A → Type 0
  IfGiven P o = (a : A) → o ≡ some a → P a

  pub if_given_iff :
      (test : A → Bool) (P : A → Type 0)
      → ((a : A) → (test a ≡ true) ↔ P a)
      → (o : Option A) → (if_given test o ≡ true) ↔ IfGiven P o
  if_given_iff test P iff none = (λ h a e. absurd (cc), λ h. refl)
  if_given_iff test P iff (some a) =
      (λ h b e. subst P (some-injective e) ((iff a).0 h), λ h. (iff a).1 (h a refl))
    where
      some-injective : {b : A} → some a ≡ some b → a ≡ b
      some-injective e = cc

abbrev pub Within : ℕ → ℕ → ℤ → Type 0
Within lo hi i = (n : ℕ) × (i ≡ pos n) × (lo ≤ n) × (n ≤ hi)

abbrev pub AtLeast : ℕ → ℤ → Type 0
AtLeast lo i = (n : ℕ) × (i ≡ pos n) × (lo ≤ n)

pub Within-iff : (lo hi : ℕ) (i : ℤ) → (is_within lo hi i ≡ true) ↔ Within lo hi i
Within-iff lo hi (pos n) = (λ h. (n, refl, (ground arith), ground arith), λ h. ground (arith, h))
Within-iff lo hi (negsuc n) = (λ h. cc, λ h. let (m, e, _, _) = h in absurd (cc))

pub AtLeast-iff : (lo : ℕ) (i : ℤ) → (is_at_least lo i ≡ true) ↔ AtLeast lo i
AtLeast-iff lo (pos n) = (λ h. (n, refl, ground arith), λ h. ground (arith, h))
AtLeast-iff lo (negsuc n) = (λ h. cc, λ h. let (m, e, _) = h in absurd (cc))
