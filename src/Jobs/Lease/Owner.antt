-- ===== src/Jobs/Lease/Owner.antt =====
-- Whom a lease keeps out, and who may give it back.
use vfront.Common.{
  ℕ, ◌<◌, Str, Option, none, some, true, false, ◌≡◌, ◌≢◌, ◌⊎◌, inl, inr, refl, Bool-cases, str_eq,
  str_eq_iff, ap, ◌∙◌, if◌then◌else◌, arith,
}
use vfront.Jobs.Lease.{JobLease, is_held, may_release}

-- Another owner's lease that has not expired.
abbrev pub LiveOther : Option JobLease → Str → ℕ → Type 0
LiveOther current owner now =
    (l : JobLease) × (current ≡ some l) × (l.owner_id ≢ owner) × (now < l.lease_expires_at)

abbrev pub Own : Option JobLease → Str → Type 0
Own current owner = (l : JobLease) × (current ≡ some l) × (l.owner_id ≡ owner)

-- The owner's lease is gone, or there was none of this owner and nothing has changed.
abbrev pub Released : Str → Option JobLease → Option JobLease → Type 0
Released owner before after =
    (Own before owner × (after ≡ none)) ⊎ (¬ Own before owner × (after ≡ before))

pub held-LiveOther :
    (current : Option JobLease) (owner : Str) (now : ℕ)
    → is_held current owner now ≡ true
    → LiveOther current owner now
unfolding is_held
held-LiveOther none owner now h = absurd (cc)
held-LiveOther (some l) owner now h =
    (l, refl, ground (arith, str_eq_iff l.owner_id owner), ground arith)

pub free-LiveOther :
    (current : Option JobLease) (owner : Str) (now : ℕ)
    → is_held current owner now ≡ false
    → ¬ LiveOther current owner now
unfolding is_held
free-LiveOther none owner now h (l, e, other, live) = cc
free-LiveOther (some k) owner now h (l, e, other, live) =
    let same : k ≡ l = cc in
    ground (arith, str_eq_iff k.owner_id owner, rw (← same) at other, rw (← same) at live)

pub released :
    (owner : Str) (before : Option JobLease)
    → Released owner before (if may_release before owner then none else before)
unfolding may_release
released owner none = inr (λ (l, e, mine). cc, refl)
released owner (some l) = elim (Bool-cases (str_eq l.owner_id owner)) [
  | inl mine ↦ rw mine (inl ((l, refl, (str_eq_iff l.owner_id owner).0 mine), refl))
  | inr other ↦ rw other (
      inr (
        λ (k, e, mine).
            let same : l ≡ k = cc in
            let own : l.owner_id ≡ owner = ap (λ (x : JobLease). x.owner_id) same ∙ mine in
            cc (other, (str_eq_iff l.owner_id owner).1 own),
        refl,
      ))
]
