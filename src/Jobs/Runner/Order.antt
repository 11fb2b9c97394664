-- ===== src/Jobs/Runner/Order.antt =====
-- The order in which candidates are tried.
use mathlib.Core.List.{Perm}
use mathlib.Core.List.Perm
use vfront.Common.{
  List, [], ◌∷◌, Bool, true, false, ◌&&◌, all, ◌≡◌, refl, inl, inr, Bool-cases, arith,
}
use vfront.Jobs.Runner.{Candidate, not_after, insert_candidate, sort_candidates}

not_after_total : (c d : Candidate) → not_after c d ≡ false → not_after d c ≡ true
unfolding not_after
not_after_total c d h = ground arith

not_after_trans :
    (a b c : Candidate) → not_after a b ≡ true → not_after b c ≡ true → not_after a c ≡ true
unfolding not_after
not_after_trans a b c h k = ground arith

-- Each candidate goes before all those behind it.
abbrev pub is_sorted : List Candidate → Bool
is_sorted [] = true
is_sorted (c ∷ l) = all (not_after c) l && is_sorted l

all_trans :
    (c d : Candidate) (l : List Candidate)
    → not_after c d ≡ true
    → all (not_after d) l ≡ true
    → all (not_after c) l ≡ true
all_trans c d [] h k = refl
all_trans c d (x ∷ l) h k = ground (arith, not_after_trans c d x h, all_trans c d l h)

all-insert :
    (d c : Candidate) (l : List Candidate)
    → not_after d c ≡ true
    → all (not_after d) l ≡ true
    → all (not_after d) (insert_candidate c l) ≡ true
unfolding insert_candidate
all-insert d c [] h k = ground arith
all-insert d c (x ∷ l) h k = ground (arith, all-insert d c l h)

insert-is_sorted :
    (c : Candidate) (l : List Candidate)
    → is_sorted l ≡ true
    → is_sorted (insert_candidate c l) ≡ true
unfolding insert_candidate
insert-is_sorted c [] h = refl
insert-is_sorted c (d ∷ l) h = elim (Bool-cases (not_after c d)) [
  | inl before ↦ rw before (ground (arith, all_trans c d l before))
  | inr behind ↦
      rw behind
        (ground (arith, insert-is_sorted c l, all-insert d c l (not_after_total c d behind)))
]

sort-is_sorted : (l : List Candidate) → is_sorted (sort_candidates l) ≡ true
unfolding sort_candidates
sort-is_sorted [] = refl
sort-is_sorted (c ∷ l) = insert-is_sorted c (sort_candidates l) (sort-is_sorted l)

insert-perm : (c : Candidate) (l : List Candidate) → Perm (insert_candidate c l) (c ∷ l)
unfolding insert_candidate
insert-perm c [] = Perm.refl (c ∷ [])
insert-perm c (d ∷ l) = elim (Bool-cases (not_after c d)) [
  | inl before ↦ rw before (Perm.refl (c ∷ d ∷ l))
  | inr behind ↦ rw behind (Perm.trans (Perm.cons d (insert-perm c l)) (Perm.swap c d l))
]

sort-perm : (l : List Candidate) → Perm (sort_candidates l) l
unfolding sort_candidates
sort-perm [] = Perm.refl []
sort-perm (c ∷ l) = Perm.trans (insert-perm c (sort_candidates l)) (Perm.cons c (sort-perm l))

-- The candidates are tried in a reordering of the listing in which each one goes before all later
-- ones: running before queued, then the more recently updated, then the more recently created.
pub sort_candidates_lem :
    (l : List Candidate) → (is_sorted (sort_candidates l) ≡ true) × Perm (sort_candidates l) l
sort_candidates_lem l = (sort-is_sorted l, sort-perm l)
