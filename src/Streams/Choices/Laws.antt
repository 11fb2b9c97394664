-- ===== src/Streams/Choices/Laws.antt =====
-- The choices of a stream as a map.
use vfront.Common.{
  ℕ, List, [], ◌∷◌, map, Bool, true, false, ◌&&◌, ◌||◌, ◌≡◌, refl, ltb, ◌==◌, any, all, arith,
}
use vfront.Streams.Choices.{lookup, store}

-- Strictly ascending, from a bound on.
abbrev pub is_ascending : List ℕ → Bool
is_ascending [] = true
is_ascending (i ∷ l) = all (λ j. ltb i j) l && is_ascending l

all_trans :
    (i j : ℕ) (l : List ℕ)
    → ltb i j ≡ true
    → all (λ k. ltb j k) l ≡ true
    → all (λ k. ltb i k) l ≡ true
all_trans i j [] h p = refl
all_trans i j (k ∷ l) h p = ground (arith, all_trans i j l h)

abbrev pub has_key : ℕ → List ℕ → Bool
has_key i l = any (λ j. i == j) l

module _ {A : Type 0} where
  abbrev pub keys : List (ℕ × A) → List ℕ
  keys l = map (λ p. p.0) l

  pub lookup-store : (i : ℕ) (default c : A) (l : List (ℕ × A)) → lookup i default (store i c l) ≡ c
  unfolding lookup store
  lookup-store i default c [] = ground arith
  lookup-store i default c ((j, d) ∷ l) = ground (arith, lookup-store i default c l)

  pub lookup-store_other :
      (i k : ℕ) (default c : A) (l : List (ℕ × A))
      → (k == i) ≡ false
      → lookup k default (store i c l) ≡ lookup k default l
  unfolding lookup store
  lookup-store_other i k default c [] h = ground arith
  lookup-store_other i k default c ((j, d) ∷ l) h =
      ground (arith, lookup-store_other i k default c l h)

  all-store :
      (i j : ℕ) (c : A) (l : List (ℕ × A))
      → ltb j i ≡ true
      → all (λ k. ltb j k) (keys l) ≡ true
      → all (λ k. ltb j k) (keys (store i c l)) ≡ true
  unfolding store
  all-store i j c [] h p = ground arith
  all-store i j c ((k, d) ∷ l) h p = ground (arith, all-store i j c l h)

  pub is_ascending-store :
      (i : ℕ) (c : A) (l : List (ℕ × A))
      → is_ascending (keys l) ≡ true
      → is_ascending (keys (store i c l)) ≡ true
  unfolding store
  is_ascending-store i c [] h = refl
  is_ascending-store i c ((j, d) ∷ l) h =
      ground (arith, is_ascending-store i c l, all-store i j c l, all_trans i j (keys l))

  pub has_key-store :
      (i k : ℕ) (c : A) (l : List (ℕ × A))
      → has_key k (keys (store i c l)) ≡ (k == i || has_key k (keys l))
  unfolding store
  has_key-store i k c [] = ground arith
  has_key-store i k c ((j, d) ∷ l) = ground (arith, has_key-store i k c l)
