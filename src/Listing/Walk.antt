-- ===== src/Listing/Walk.antt =====
-- The entries of an index in the order of a walk, and what is left of them behind a key.
use vfront.Common.{
  Str, List, [], ◌∷◌, ◌++◌, reverse, Bool, true, false, ◌&&◌, Option, none, some, ◌≡◌, refl, sym,
  ap, ◌∙◌, inl, inr, Bool-cases, all, keep, keep-all, keep-reverse, if◌then◌else◌, arith,
}
use mathlib.Core.List.{reverse-cons}
use vfront.Common.Digits.{lex_lt}
use vfront.Store.Pages.Place.{is_ascending, is_beyond, lex_lt_asym, lex_lt_trans}

is_beyond_asym :
    (reversed : Bool) (a b : Str)
    → is_beyond (some a) reversed b ≡ true
    → is_beyond (some b) reversed a ≡ false
is_beyond_asym true a b h = lex_lt_asym b a h
is_beyond_asym false a b h = lex_lt_asym a b h

is_beyond_self : (reversed : Bool) (a : Str) → is_beyond (some a) reversed a ≡ false
is_beyond_self reversed a = elim (Bool-cases (is_beyond (some a) reversed a)) [
  | inl p ↦ is_beyond_asym reversed a a p
  | inr p ↦ p
]

is_beyond_trans :
    (reversed : Bool) (after : Option Str) (a b : Str)
    → is_beyond after reversed a ≡ true
    → is_beyond (some a) reversed b ≡ true
    → is_beyond after reversed b ≡ true
is_beyond_trans reversed none a b h k = refl
is_beyond_trans true (some after) a b h k = lex_lt_trans b a after k h
is_beyond_trans false (some after) a b h k = lex_lt_trans after a b h k

module _ {A : Type 0} where
  abbrev pub behind : Option Str → Bool → List (Str × A) → List (Str × A)
  behind after reversed l = keep (λ e. is_beyond after reversed e.0) l

  -- What a walk from a key on meets.
  abbrev pub walk : List (Str × A) → Option Str → Bool → List (Str × A)
  walk shown after reversed =
      let chosen = behind after reversed shown in if reversed then reverse chosen else chosen

  abbrev is_ordered : Bool → List (Str × A) → Bool
  is_ordered reversed [] = true
  is_ordered reversed (e ∷ l) =
      all (λ d. is_beyond (some e.0) reversed d.0) l && is_ordered reversed l

  -- What is behind a key that is behind another is behind both.
  behind_both :
      (after : Option Str) (reversed : Bool) (a : Str) (l : List (Str × A))
      → is_beyond after reversed a ≡ true
      → behind (some a) reversed l ≡ behind (some a) reversed (behind after reversed l)
  behind_both after reversed a [] h = refl
  behind_both after reversed a (e ∷ l) h =
      let ih = behind_both after reversed a l h in
      elim (Bool-cases (is_beyond (some a) reversed e.0)) [
        | inl far ↦
            let p = is_beyond_trans reversed after a e.0 h far in rw p (rw far (ap (λ t. e ∷ t) ih))
        | inr near ↦ elim (Bool-cases (is_beyond after reversed e.0)) [
          | inl p ↦ rw p (rw near ih)
          | inr p ↦ rw p (rw near ih)
        ]
      ]

  all-append_back :
      (p : Str × A → Bool) (a b : List (Str × A))
      → all p (a ++ b) ≡ true
      → (all p a ≡ true) × (all p b ≡ true)
  all-append_back p [] b h = (refl, h)
  all-append_back p (x ∷ a) b h =
      let (here, there) = all-append_back p a b (ground arith) in (ground (arith, h, here), there)

  behind_last :
      (reversed : Bool) (a : List (Str × A)) (e : Str × A) (b : List (Str × A))
      → is_ordered reversed (a ++ e ∷ b) ≡ true
      → behind (some e.0) reversed (a ++ e ∷ b) ≡ b
  behind_last reversed [] e b h =
      let beyond : all (λ d. is_beyond (some e.0) reversed d.0) b ≡ true = ground arith in
      rw (is_beyond_self reversed e.0) (keep-all (λ d. is_beyond (some e.0) reversed d.0) b beyond)
  behind_last reversed (d ∷ a) e b h =
      let all_behind : all (λ c. is_beyond (some d.0) reversed c.0) (a ++ e ∷ b) ≡ true =
        ground arith in
      let (_, from) =
        all-append_back (λ c. is_beyond (some d.0) reversed c.0) a (e ∷ b) all_behind in
      let near = is_beyond_asym reversed d.0 e.0 (ground (arith, from)) in
      rw near (behind_last reversed a e b (ground arith))

  all_kept : (p q : Str × A → Bool) (l : List (Str × A)) → all p l ≡ true → all p (keep q l) ≡ true
  all_kept p q [] h = refl
  all_kept p q (e ∷ l) h = ground (arith, all_kept p q l)

  is_ordered-keep :
      (reversed : Bool) (q : Str × A → Bool) (l : List (Str × A))
      → is_ordered reversed l ≡ true
      → is_ordered reversed (keep q l) ≡ true
  is_ordered-keep reversed q [] h = refl
  is_ordered-keep reversed q (e ∷ l) h =
      let rest = is_ordered-keep reversed q l (ground arith) in
      let beyond = all_kept (λ d. is_beyond (some e.0) reversed d.0) q l (ground arith) in
      ground (arith, rest, beyond)

  all_last :
      (p : Str × A → Bool) (l : List (Str × A)) (e : Str × A)
      → all p l ≡ true
      → p e ≡ true
      → all p (l ++ e ∷ []) ≡ true
  all_last p [] e h k = ground (arith, k)
  all_last p (c ∷ l) e h k = ground (arith, all_last p l e)

  is_ordered-append :
      (l : List (Str × A)) (e : Str × A)
      → is_ordered true l ≡ true
      → all (λ d. lex_lt e.0 d.0) l ≡ true
      → is_ordered true (l ++ e ∷ []) ≡ true
  is_ordered-append [] e h k = refl
  is_ordered-append (d ∷ l) e h k =
      let ih = is_ordered-append l e (ground arith) (ground arith) in
      let last = all_last (λ c. lex_lt c.0 d.0) l e (ground arith) (ground arith) in
      ground (arith, ih, last)

  all-reverse :
      (p : Str × A → Bool) (l : List (Str × A)) → all p l ≡ true → all p (reverse l) ≡ true
  all-reverse p [] h = refl
  all-reverse p (e ∷ l) h =
      rw (reverse-cons e l)
        (all_last p (reverse l) e (all-reverse p l (ground arith)) (ground arith))

  abbrev turned : Bool → List (Str × A) → List (Str × A)
  turned reversed l = if reversed then reverse l else l

  is_ordered-turned :
      (reversed : Bool) (l : List (Str × A))
      → is_ascending l ≡ true
      → is_ordered reversed (turned reversed l) ≡ true
  is_ordered-turned true [] h = refl
  is_ordered-turned false [] h = refl
  is_ordered-turned true (e ∷ l) h = rw (reverse-cons e l) (
      is_ordered-append (reverse l) e (is_ordered-turned true l (ground arith))
        (all-reverse (λ d. lex_lt e.0 d.0) l (ground arith)))
  is_ordered-turned false (e ∷ l) h = ground (arith, is_ordered-turned false l)

  walk-turned :
      (shown : List (Str × A)) (after : Option Str) (reversed : Bool)
      → walk shown after reversed ≡ behind after reversed (turned reversed shown)
  walk-turned shown after true = sym (keep-reverse (λ e. is_beyond after true e.0) shown)
  walk-turned shown after false = refl

  behind-all :
      (after : Option Str) (reversed : Bool) (l : List (Str × A))
      → all (λ e. is_beyond after reversed e.0) (behind after reversed l) ≡ true
  behind-all after reversed [] = refl
  behind-all after reversed (e ∷ l) = ground (arith, behind-all after reversed l)

  -- Behind the last entry of a page the walk goes on with the entry that follows.
  pub walk_on :
      (shown : List (Str × A)) (after : Option Str) (reversed : Bool) (a : List (Str × A))
      (e : Str × A) (b : List (Str × A))
      → is_ascending shown ≡ true
      → walk shown after reversed ≡ a ++ e ∷ b
      → walk shown (some e.0) reversed ≡ b
  walk_on shown after reversed a e b h w =
      let l = turned reversed shown in
      let is : behind after reversed l ≡ a ++ e ∷ b = sym (walk-turned shown after reversed) ∙ w in
      let ordered : is_ordered reversed (a ++ e ∷ b) ≡ true =
        ap (is_ordered reversed) (sym is)
        ∙ is_ordered-keep reversed (λ d. is_beyond after reversed d.0) l
            (is_ordered-turned reversed shown h) in
      let met : all (λ d. is_beyond after reversed d.0) (a ++ e ∷ b) ≡ true =
        ap (all (λ d. is_beyond after reversed d.0)) (sym is) ∙ behind-all after reversed l in
      let (_, from) = all-append_back (λ d. is_beyond after reversed d.0) a (e ∷ b) met in
      walk-turned shown (some e.0) reversed
      ∙ behind_both after reversed e.0 l (ground (arith, from))
      ∙ ap (behind (some e.0) reversed) is
      ∙ behind_last reversed a e b ordered
