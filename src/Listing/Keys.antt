-- ===== src/Listing/Keys.antt =====
-- The keys of an index sort by time.
use mathlib.Core.List.{append-nil, append_assoc}
use vfront.Common.{
  ℕ, zero, suc, ◌+◌, ◌^◌, ◌<◌, Str, [], ◌∷◌, ◌++◌, map, true, ℤ, codes, ◌≡◌, refl, sym, ap, ◌∙◌,
  length, ltb, arith,
}
use vfront.Common.Digits.{digits, lex_lt, length-digits, lex_lt-digits}
use vfront.Listing.{width, padded, normalized, build_created_at_index_key}

shifted :
    (a b s t : Str)
    → length a ≡ length b
    → lex_lt a b ≡ true
    → lex_lt (map (λ d. 48 + d) a ++ s) (map (λ d. 48 + d) b ++ t) ≡ true
unfolding lex_lt
shifted a [] s t h p = absurd (cc p)
shifted [] (d ∷ b) s t h p = absurd (omega (arith, h))
shifted (c ∷ a) (d ∷ b) s t h p =
    let rest = shifted a b s t (omega (arith, h)) in ground (arith, p, rest)

width_lem : (fuel n : ℕ) → n < 10 ^ 20 → width fuel 20 n ≡ 20
unfolding width
width_lem zero n h = refl
width_lem (suc fuel) n h = let fits : ltb n (10 ^ 20) ≡ true = ground (arith, h) in rw fits refl

-- Of two objects whose times fit in twenty digits, the one with the earlier time has the smaller key; a time
-- before zero counts as zero.
pub build_created_at_index_key-order :
    (a b : ℤ) (id other : Str)
    → normalized a < normalized b
    → normalized b < 10 ^ 20
    → lex_lt (build_created_at_index_key a id) (build_created_at_index_key b other) ≡ true
unfolding build_created_at_index_key padded
build_created_at_index_key-order a b id other h k =
    let m = normalized a in
    let n = normalized b in
    let smaller : m < 10 ^ 20 = omega (arith, h, k) in
    let order =
      ap (λ s. lex_lt s (digits 10 20 n)) (sym (append-nil (digits 10 20 m)))
      ∙ ap (lex_lt (digits 10 20 m ++ [])) (sym (append-nil (digits 10 20 n)))
      ∙ lex_lt-digits 10 (omega arith) 20 m n [] [] h k in
    rw (width_lem m m smaller, width_lem n n k)
      (rw
        (
          append_assoc (map (λ d. 48 + d) (digits 10 20 m)) (codes ":") id,
          append_assoc (map (λ d. 48 + d) (digits 10 20 n)) (codes ":") other,
        )
        (shifted (digits 10 20 m) (digits 10 20 n) (codes ":" ++ id) (codes ":" ++ other)
          (length-digits 10 20 m ∙ sym (length-digits 10 20 n)) order))
