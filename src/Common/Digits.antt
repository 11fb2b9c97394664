-- ===== src/Common/Digits.antt =====
-- Fixed-width big-endian digits: `struct.pack(">q", n)` has eight at base 256, `f"{n:020d}"` has
-- twenty at base 10. Their lexicographic order is that of the numbers, which LMDB's key order uses.
use Prim.Native.Nat.{ℕ, zero, suc, ◌+◌, ◌*◌, ◌/◌, ◌%◌, ◌^◌, ◌<◌}
use mathlib.Core.Path.{◌≡◌, refl}
use mathlib.Core.Bool.{Bool, true, false}
use mathlib.Core.List.{List, [], ◌∷◌, ◌++◌, append_assoc}
use native.Mathlib.Nat.{pow-zero, pow-suc, div-lt_iff_lt-mul, div-add-mod', mod-lt}
use native.Mathlib.Decide.{dec_lt}
use native.Mathlib.Omega.{arith}
use vfront.Common.Tests.{◌==◌, ltb, if◌then◌else◌}
use vfront.Common.Lists.{length, length-append}

-- The order of LMDB's keys: byte by byte, a proper prefix first.
unfoldable pub lex_lt : List ℕ → List ℕ → Bool
lex_lt s [] = false
lex_lt [] (b ∷ t) = true
lex_lt (a ∷ s) (b ∷ t) = if a == b then lex_lt s t else ltb a b

pub lex_lt-append : (p s t : List ℕ) → lex_lt (p ++ s) (p ++ t) ≡ lex_lt s t
unfolding lex_lt
lex_lt-append [] s t = refl
lex_lt-append (c ∷ p) s t = ground (arith, lex_lt-append p s t)

module _ (base : ℕ) where
  unfoldable pub digits : ℕ → ℕ → List ℕ
  digits zero n = []
  digits (suc w) n = digits w (n / base) ++ (n % base) ∷ []

  unfoldable pub value : ℕ → List ℕ → ℕ
  value acc [] = acc
  value acc (d ∷ ds) = value (acc * base + d) ds

  pub length-digits : (w n : ℕ) → length (digits w n) ≡ w
  unfolding digits
  length-digits zero n = refl
  length-digits (suc w) n =
      omega
        (arith, length-append (digits w (n / base)) ((n % base) ∷ []), length-digits w (n / base))

  value-append :
      (acc : ℕ) (ds : List ℕ) (d : ℕ) → value acc (ds ++ d ∷ []) ≡ value acc ds * base + d
  unfolding value
  value-append acc [] d = refl
  value-append acc (c ∷ ds) d = value-append (acc * base + c) ds d

module _ (base : ℕ) (pos : 0 < base) where
  div-lt-pow : (w n : ℕ) → n < base ^ suc w → n / base < base ^ w
  div-lt-pow w n h = (div-lt_iff_lt-mul pos).1 (rw (← pow-suc base w) h)

  value-digits_acc :
      (w acc n : ℕ) → n < base ^ w → value base acc (digits base w n) ≡ acc * base ^ w + n
  unfolding digits value
  value-digits_acc zero acc n h = rw (pow-zero base) (omega (arith, rw pow-zero at h))
  value-digits_acc (suc w) acc n h =
      rw (value-append base acc (digits base w (n / base)) (n % base)) (
        rw (value-digits_acc w acc (n / base) (div-lt-pow w n h), pow-suc base w)
          (omega (arith, div-add-mod' n base)))

  same_quotient :
      (a b : ℕ) → a < b → ¬ (a / base < b / base) → (a / base ≡ b / base) × (a % base < b % base)
  same_quotient a b h equal =
      let qa = div-add-mod' a base in
      let qb = div-add-mod' b base in
      let ra = mod-lt a pos in let rb = mod-lt b pos in (grind arith, grind arith)

  -- Reading the digits of a number that fits gives the number back.
  pub value-digits : (w n : ℕ) → n < base ^ w → value base 0 (digits base w n) ≡ n
  value-digits w n h = omega (arith, value-digits_acc w 0 n h)

  -- The digits of a smaller number come first, whatever follows them.
  pub lex_lt-digits :
      (w a b : ℕ) (s t : List ℕ)
      → a < b
      → b < base ^ w
      → lex_lt (digits base w a ++ s) (digits base w b ++ t) ≡ true
  unfolding digits
  lex_lt-digits zero a b s t h fits = absurd (omega (arith, rw pow-zero at fits))
  lex_lt-digits (suc w) a b s t h fits =
      rw
        (
          append_assoc (digits base w (a / base)) ((a % base) ∷ []) s,
          append_assoc (digits base w (b / base)) ((b % base) ∷ []) t,
        )
        (elim (dec_lt (a / base) (b / base)) [
          | yes lower ↦
              lex_lt-digits w (a / base) (b / base) ((a % base) ∷ s) ((b % base) ∷ t) lower
                (div-lt-pow w b fits)
          | no equal ↦
              let (q, r) = same_quotient a b h equal in
              rw (q, lex_lt-append (digits base w (b / base))) (unfold lex_lt in ground (arith))
        ])
