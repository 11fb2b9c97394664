-- ===== src/Jobs/Lease/Exclusive.antt =====
-- While a lease is live, no other runner gets the job, whatever the runners do.
use vfront.Common.{
  ℕ, ◌+◌, ◌*◌, Str, List, [], ◌∷◌, Bool, true, false, not, ◌&&◌, Option, none, some, Result, ok,
  err, Result-cases, >>=-eq-ok, Bool-cases, ◌⊎◌, inl, inr, ◌≡◌, ◌≢◌, refl, sym, ltb, str_eq,
  str_eq_iff, if◌then◌else◌, arith, ◌∙◌, ap, all, str_eq_self, ok-injective,
}
use vfront.Jobs.Lease.Owner.{LiveOther, held-LiveOther, free-LiveOther}
use vfront.Jobs.Namespace.{Namespace, Model}
use vfront.Jobs.Lease.{
  JobLease, is_held, attempts, claimed, refreshed, may_release, validated, load, store,
  claim_mutation, heartbeat_mutation, release_mutation,
}

-- One call of a runner on the lease table, with the clock that it reads.
pub data Call : Type 0 where
  claim heartbeat : Str → Str → ℕ → ℕ → Call
  release : Str → Str → ℕ → Call

abbrev pub caller : Call → Str
caller (claim job owner seconds now) = owner
caller (heartbeat job owner seconds now) = owner
caller (release job owner now) = owner

abbrev pub clock : Call → ℕ
clock (claim job owner seconds now) = now
clock (heartbeat job owner seconds now) = now
clock (release job owner now) = now

module _ {V : Type 0} (N : Namespace V) (M : Model JobLease V) where
  abbrev pub after : {A : Type 0} → N.Txn → Result (N.Txn × A) → N.Txn
  after t (ok (t', a)) = t'
  after t (err e) = t

  -- A call that raises is rolled back.
  unfoldable pub perform : N.Txn → Call → N.Txn
  perform t (claim job owner seconds now) = after t (claim_mutation N M t job owner seconds now)
  perform t (heartbeat job owner seconds now) =
      after t (heartbeat_mutation N M t job owner seconds now)
  perform t (release job owner now) = after t (release_mutation N M t job owner now)

  unfoldable pub perform_all : N.Txn → List Call → N.Txn
  perform_all t [] = t
  perform_all t (c ∷ cs) = perform_all (perform t c) cs

  -- The table holds this lease for the job, at any time of reading.
  abbrev pub Holds : N.Txn → Str → JobLease → Type 0
  Holds t job lease = (now : ℕ) → load N M t job now ≡ ok (some lease)

  load-store :
      (t : N.Txn) (job : Str) (lease : JobLease) (since : ℕ) (j : Str) (now : ℕ) {t' : N.Txn}
      {r : Option JobLease}
      → store N M t job (some lease) since ≡ ok (t', r)
      → load N M t' j now ≡ (if str_eq job j then ok (some lease) else load N M t j now)
  unfolding store load validated
  load-store t job lease since j now h =
      let (t1, p, q) = >>=-eq-ok (N.set t job (M.model_dump lease) none since) _ h in
      ground (arith, N.get-set t job (M.model_dump lease) none since j now p, M.validate-dump lease)

  load-delete :
      (t : N.Txn) (job j : Str) (now : ℕ) {t' : N.Txn} {r : Bool}
      → N.delete t job ≡ ok (t', r)
      → load N M t' j now ≡ (if str_eq job j then ok none else load N M t j now)
  unfolding load validated
  load-delete t job j now h = ground (arith, N.get-delete t job j now h)

  pub stored_lease :
      (t : N.Txn) (job : Str) (lease : JobLease) (since : ℕ) {t' : N.Txn} {r : Option JobLease}
      → store N M t job (some lease) since ≡ ok (t', r)
      → (r ≡ some lease) × Holds t' job lease
  unfolding store
  stored_lease t job lease since {t'} {r} h =
      (result, λ now. rw (load-store t job lease since job now h, str_eq_self job))
    where
      result : r ≡ some lease
      result =
          let (t1, p, q) = >>=-eq-ok (N.set t job (M.model_dump lease) none since) _ h in
          ground arith

  module _ (t : N.Txn) (job : Str) (lease : JobLease) (held : Holds t job lease) where
    -- A step that stores nothing, or stores for another job, leaves the lease.
    store_other :
        (j : Str) (new : Option JobLease) (since : ℕ)
        → (j ≡ job → new ≡ none)
        → Holds (after t (store N M t j new since)) job lease
    store_other j none since other now = unfold store in held now
    store_other j (some l) since other now = elim (Result-cases (store N M t j (some l) since)) [
      | inl ((t', r), e) ↦ rw e (
          ground (
            arith,
            load-store t j l since job now e,
            held now,
            str_eq_iff j job,
            λ (p : j ≡ job). other p,
          ))
      | inr (x, e) ↦ rw e (held now)
    ]

    delete_other : (j : Str) → j ≢ job → Holds (after t (N.delete t j)) job lease
    delete_other j other now = elim (Result-cases (N.delete t j)) [
      | inl ((t', r), e) ↦
          rw e (ground (arith, load-delete t j job now e, held now, str_eq_iff j job))
      | inr (x, e) ↦ rw e (held now)
    ]

    loaded :
        (j : Str) (now : ℕ) (l : Option JobLease)
        → load N M t j now ≡ ok l
        → j ≡ job
        → l ≡ some lease
    loaded j now l h at_job = ok-injective (sym h ∙ ap (λ k. load N M t k now) at_job ∙ held now)

    perform_other :
        (c : Call)
        → str_eq lease.owner_id (caller c) ≡ false
        → ltb (clock c) lease.lease_expires_at ≡ true
        → Holds (perform t c) job lease
    perform_other (claim j owner seconds now) other live = elim (Result-cases (load N M t j now)) [
      | inl (l, e) ↦
          unfold perform claim_mutation in
          rw e (
            store_other j (claimed l j owner seconds now) now
              (λ p. unfold claimed is_held in ground (arith, loaded j now l e p)))
      | inr (x, e) ↦ unfold perform claim_mutation in rw e held
    ]
    perform_other (heartbeat j owner seconds now) other live =
        elim (Result-cases (load N M t j now)) [
          | inl (l, e) ↦
              unfold perform heartbeat_mutation in
              rw e (
                store_other j (refreshed l owner seconds now) now
                  (λ p. unfold refreshed in ground (arith, loaded j now l e p)))
          | inr (x, e) ↦ unfold perform heartbeat_mutation in rw e held
        ]
    perform_other (release j owner now) other live = elim (Result-cases (load N M t j now)) [
      | inl (l, e) ↦ unfold perform release_mutation in rw e (released l e)
      | inr (x, e) ↦ unfold perform release_mutation in rw e held
    ]
      where
        released :
            (l : Option JobLease)
            → load N M t j now ≡ ok l
            → Holds
                (after t (if may_release l owner then N.delete t j else ok (t, false)))
                job
                lease
        released l e = elim (Bool-cases (may_release l owner)) [
          | inl mine ↦
              rw mine
                (delete_other j (λ p. unfold may_release in ground (arith, loaded j now l e p)))
          | inr refused ↦ rw refused held
        ]

-- The call is another owner's, and comes before the lease runs out.
abbrev pub is_early_other : JobLease → Call → Bool
is_early_other lease c =
    not (str_eq lease.owner_id (caller c)) && ltb (clock c) lease.lease_expires_at

module _ {V : Type 0} (N : Namespace V) (M : Model JobLease V) where
  -- A runner that holds a lease keeps it, unchanged, through any claims, heartbeats and releases of
  -- other runners, on any jobs and in any order, until it expires.
  pub lease_is_kept :
      (t : N.Txn) (job : Str) (lease : JobLease) (calls : List Call)
      → Holds N M t job lease
      → all (is_early_other lease) calls ≡ true
      → Holds N M (perform_all N M t calls) job lease
  unfolding perform_all
  lease_is_kept t job lease [] held h = held
  lease_is_kept t job lease (c ∷ cs) held h =
      lease_is_kept (perform N M t c) job lease cs
        (perform_other N M t job lease held c (ground arith) (ground arith)) (ground arith)

  -- What a claim that returns has done: refused and changed nothing, or stored a lease.
  abbrev pub Answer : N.Txn → Str → Str → ℕ → ℕ → Option JobLease → N.Txn → Option JobLease → Type 0
  Answer t job owner seconds now current t' r =
      (LiveOther current owner now × (r ≡ none) × (t' ≡ t))
      ⊎ (¬ LiveOther current owner now
          × ((lease : JobLease) × (r ≡ some lease)
              × (lease.owner_id ≡ owner)
              × (lease.lease_expires_at ≡ now + seconds * 1000000)
              × (lease.attempt ≡ attempts current + 1)
              × Holds N M t' job lease))

  -- A claim that returns was refused, with nothing written, exactly while another owner's lease is
  -- live: a lease with another owner and a later expiry. Otherwise it stores a lease of the claimant
  -- with the attempt counted up.
  pub claim_mutation_lem :
      (t : N.Txn) (job owner : Str) (seconds now : ℕ) (current : Option JobLease) {t' : N.Txn}
      {r : Option JobLease}
      → load N M t job now ≡ ok current
      → claim_mutation N M t job owner seconds now ≡ ok (t', r)
      → Answer t job owner seconds now current t' r
  unfolding claim_mutation
  claim_mutation_lem t job owner seconds now current {t'} {r} l h =
      elim (Bool-cases (is_held current owner now)) [
        | inl held ↦
            let (unanswered, same) = refused held in
            inl (held-LiveOther current owner now held, unanswered, same)
        | inr free ↦ inr (free-LiveOther current owner now free, granted free)
      ]
    where
      new : JobLease
      new = record {
        job_id = job;
        owner_id = owner;
        lease_expires_at = now + seconds * 1000000;
        heartbeat_at = now;
        attempt = attempts current + 1;
      }

      stored : store N M t job (claimed current job owner seconds now) now ≡ ok (t', r)
      stored = rw l at h

      refused : is_held current owner now ≡ true → (r ≡ none) × (t' ≡ t)
      refused held = unfold store claimed in ground (arith, stored)

      granted :
          is_held current owner now ≡ false
          → (lease : JobLease) × (r ≡ some lease)
            × (lease.owner_id ≡ owner)
            × (lease.lease_expires_at ≡ now + seconds * 1000000)
            × (lease.attempt ≡ attempts current + 1)
            × Holds N M t' job lease
      granted free =
          let here : store N M t job (some new) now ≡ ok (t', r) =
            unfold claimed in rw free at stored in
          let (result, holds) = stored_lease N M t job new now here in
          (new, result, refl, refl, refl, holds)
