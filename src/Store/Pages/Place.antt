-- ===== src/Store/Pages/Place.antt =====
-- Where a cursor starts: at the nearest entry strictly beyond the key, in the direction of the walk.
use vfront.Common.{
  Str, List, [], ◌∷◌, ◌++◌, reverse, Bool, true, false, not, ◌&&◌, Option, none, some, ◌≡◌, refl,
  sym, ap, ◌∙◌, inl, inr, Bool-cases, all, keep, keep-all, keep_none, str_eq, str_eq_iff,
  if◌then◌else◌, arith,
}
use mathlib.Core.List.{append-nil, append_assoc, reverse-cons}
use vfront.Common.Digits.{lex_lt}
use vfront.Store.Pages.{
  Entry, Cursor, first, last, last_of, set_range, step_next, back_off, past_key, before_key,
  position_cursor, ahead,
}

pub lex_lt_asym : (s t : Str) → lex_lt s t ≡ true → lex_lt t s ≡ false
unfolding lex_lt
lex_lt_asym [] t h = refl
lex_lt_asym (a ∷ s) [] h = cc
lex_lt_asym (a ∷ s) (b ∷ t) h = ground (arith, lex_lt_asym s t)

pub lex_lt_trans : (s t u : Str) → lex_lt s t ≡ true → lex_lt t u ≡ true → lex_lt s u ≡ true
unfolding lex_lt
lex_lt_trans s t [] h k = cc
lex_lt_trans [] t (c ∷ u) h k = refl
lex_lt_trans (a ∷ s) [] (c ∷ u) h k = cc
lex_lt_trans (a ∷ s) (b ∷ t) (c ∷ u) h k = ground (arith, lex_lt_trans s t u)

lex_lt_total : (s t : Str) → lex_lt s t ≡ false → str_eq s t ≡ false → lex_lt t s ≡ true
unfolding lex_lt str_eq
lex_lt_total [] [] h k = cc
lex_lt_total [] (b ∷ t) h k = cc
lex_lt_total (a ∷ s) [] h k = refl
lex_lt_total (a ∷ s) (b ∷ t) h k = ground (arith, lex_lt_total s t)

module _ {A : Type 0} where
  -- LMDB keeps its keys in order, each once.
  abbrev pub is_ascending : List (Str × A) → Bool
  is_ascending [] = true
  is_ascending (e ∷ l) = all (λ d. lex_lt e.0 d.0) l && is_ascending l

-- The entries that a page may show: those strictly beyond `after` in the direction of the walk.
abbrev pub is_beyond : Option Str → Bool → Str → Bool
is_beyond none reversed key = true
is_beyond (some after) reversed key = if reversed then lex_lt key after else lex_lt after key

abbrev pub walked : Bool → Option Cursor → List Entry
walked reversed none = []
walked reversed (some c) = ahead reversed c

lt_of_ge : (e a k : Str) → lex_lt e a ≡ false → lex_lt e k ≡ true → lex_lt a k ≡ true
lt_of_ge e a k h p = elim (Bool-cases (str_eq e a)) [
  | inl same ↦ rw ((str_eq_iff e a).0 same) at p
  | inr other ↦ lex_lt_trans a e k (lex_lt_total e a h other) p
]

all_after :
    (a e : Str) (l : List Entry)
    → lex_lt e a ≡ false
    → all (λ d. lex_lt e d.0) l ≡ true
    → all (λ d. lex_lt a d.0) l ≡ true
all_after a e [] h k = refl
all_after a e (d ∷ l) h k = ground (arith, all_after a e l h, lt_of_ge e a d.0 h)

not_below :
    (a e : Str) (l : List Entry)
    → lex_lt e a ≡ false
    → all (λ d. lex_lt e d.0) l ≡ true
    → all (λ d. not (lex_lt d.0 a)) l ≡ true
not_below a e [] h k = refl
not_below a e (d ∷ l) h k = ground (arith, not_below a e l h, lt_of_ge e a d.0 h, lex_lt_asym a d.0)

module _ (a : Str) where
  walked_forward :
      (before l : List Entry)
      → is_ascending l ≡ true
      → walked false (past_key a (set_range a before l)) ≡ keep (λ e. lex_lt a e.0) l
  unfolding set_range
  walked_forward before [] h = refl
  walked_forward before (e ∷ l) h = elim (Bool-cases (lex_lt e.0 a)) [
    | inl below ↦ rw (below, lex_lt_asym e.0 a below) (walked_forward (e ∷ before) l (ground arith))
    | inr from ↦
        let rest : keep (λ d. lex_lt a d.0) l ≡ l =
          keep-all (λ d. lex_lt a d.0) l (all_after a e.0 l from (ground arith)) in
        elim (Bool-cases (str_eq e.0 a)) [
          | inl same ↦
              let none_yet : lex_lt a e.0 ≡ false =
                let same_key = (str_eq_iff e.0 a).0 same in rw same_key (rw same_key at from) in
              rw (from, same, none_yet, rest) (walked_next before e l)
          | inr other ↦ rw (from, other, lex_lt_total e.0 a from other, rest)
        ]
  ]
    where
      walked_next :
          (before : List Entry) (e : Entry) (l : List Entry)
          → walked false (step_next before e l) ≡ l
      walked_next before e [] = refl
      walked_next before e (d ∷ l) = refl

  walked-back_off :
      (before : List Entry) (e : Entry) (behind : List Entry)
      → lex_lt e.0 a ≡ false
      → all (λ d. lex_lt d.0 a) before ≡ true
      → walked true (back_off a before e behind) ≡ before
  unfolding back_off
  walked-back_off [] e behind h k = rw h
  walked-back_off (d ∷ []) e behind h k = let p : lex_lt d.0 a ≡ true = ground arith in rw (h, p)
  walked-back_off (d ∷ c ∷ l) e behind h k = let p : lex_lt d.0 a ≡ true = ground arith in rw (h, p)

  walked_last : (l : List Entry) → walked true (last_of l) ≡ l
  walked_last [] = refl
  walked_last (e ∷ l) = refl

  -- `before` holds the entries that the search has passed.
  walked_back :
      (entries before l : List Entry)
      → is_ascending l ≡ true
      → all (λ d. lex_lt d.0 a) before ≡ true
      → reverse entries ≡ reverse l ++ before
      → walked true (before_key a entries (set_range a before l))
        ≡ reverse (keep (λ e. lex_lt e.0 a) l) ++ before
  unfolding set_range last
  walked_back entries before [] h k p = walked_last (reverse entries) ∙ p
  walked_back entries before (e ∷ l) h k p = elim (Bool-cases (lex_lt e.0 a)) [
    | inl below ↦ rw below (
        walked_back entries (e ∷ before) l (ground arith) (ground arith) (p ∙ shift e l before)
        ∙ sym (shift e (keep (λ d. lex_lt d.0 a) l) before))
    | inr from ↦
        rw (from, keep_none (λ d. lex_lt d.0 a) l (not_below a e.0 l from (ground arith)))
          (walked-back_off before e l from k)
  ]
    where
      shift :
          (e : Entry) (l before : List Entry) → reverse (e ∷ l) ++ before ≡ reverse l ++ e ∷ before
      shift e l before = rw (reverse-cons e l) (append_assoc (reverse l) (e ∷ []) before)

-- The entries that the walk meets are those strictly beyond the key, in the order of the walk.
pub walked-position_cursor :
    (entries : List Entry) (after : Option Str) (reversed : Bool)
    → is_ascending entries ≡ true
    → let chosen = keep (λ e. is_beyond after reversed e.0) entries in
      walked reversed (position_cursor entries after reversed)
      ≡ (if reversed then reverse chosen else chosen)
unfolding position_cursor last
walked-position_cursor entries none true h =
    walked_last [] (reverse entries)
    ∙ ap reverse (sym (keep-all (λ e. true) entries (all_true entries)))
  where
    all_true : (l : List Entry) → all (λ e. true) l ≡ true
    all_true [] = refl
    all_true (e ∷ l) = all_true l
walked-position_cursor entries none false h = walked_first entries
  where
    keep_true : (l : List Entry) → keep (λ e. true) l ≡ l
    keep_true [] = refl
    keep_true (e ∷ l) = ap (λ t. e ∷ t) (keep_true l)

    walked_first : (l : List Entry) → walked false (first l) ≡ keep (λ e. true) l
    walked_first [] = unfold first in refl
    walked_first (e ∷ l) = unfold first in ap (λ t. e ∷ t) (sym (keep_true l))
walked-position_cursor entries (some after) false h = walked_forward after [] entries h
walked-position_cursor entries (some after) true h =
    walked_back after entries [] entries h refl (sym (append-nil (reverse entries)))
    ∙ append-nil (reverse (keep (λ e. lex_lt e.0 after) entries))
