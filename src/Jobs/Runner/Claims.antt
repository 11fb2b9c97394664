-- ===== src/Jobs/Runner/Claims.antt =====
-- The claiming round keeps its bounds, and what a claim leaves behind on each path.
use vfront.Common.{
  ℕ, ◌+◌, ◌*◌, ◌≤◌, ◌-◌, Str, List, [], ◌∷◌, ◌++◌, Bool, true, false, Option, none, some, Result,
  ok, err, Exn, ◌==◌, ◌≡◌, refl, ap, ◌∙◌, ◌⊎◌, inl, inr, Bool-cases, Result-cases, length,
  if◌then◌else◌, arith, length-append,
}
use vfront.Jobs.Lease.{JobLease, is_held, attempts, claimed}
use vfront.Jobs.Lease.Owner.{LiveOther, held-LiveOther, free-LiveOther, Released, released}
use vfront.Jobs.Executions.{Execution, running}
use vfront.Jobs.World.{Kind, response, batch, World, Settings, or_now}
use vfront.Jobs.World.Laws.{
  frame-update, executions-update, frame-release, leases-release, put_at_self,
}
use vfront.Jobs.Runner.{
  Between, paused, grant_lease, start, answered, claim, Candidate, sort_candidates, candidates_of,
  try_claim, claim_loop, claim_pending,
}

abbrev pub is_success : Result Bool → Bool
is_success (ok b) = b
is_success (err x) = false

module _ {X : Type 0} (cfg : Settings) (now : ℕ) where
  answered-tasks :
      (b : Between X) (w : World X) (kind : Kind) (e : Execution X) (lease : Option JobLease)
      → let (w', done) = answered cfg b w kind e lease now in
        w'.tasks ≡ (if is_success done then w.tasks ++ (kind, e.job_id) ∷ [] else w.tasks)
  unfolding answered
  answered-tasks b w kind e none = refl
  answered-tasks b w kind e (some lease) =
      started (paused b (grant_lease w kind e.job_id lease)) b.raises
        (unfold paused grant_lease in refl)
    where
      started :
          (w1 : World X) (raises : Option Exn)
          → w1.tasks ≡ w.tasks
          → let (w', done) = start cfg w1 kind e lease raises now in
            w'.tasks ≡ (if is_success done then w.tasks ++ (kind, e.job_id) ∷ [] else w.tasks)
      started w1 none same =
          unfold start in
          rw (frame-update w1 kind e.job_id _ now).3 (ap (λ l. l ++ (kind, e.job_id) ∷ []) same)
      started w1 (some x) same =
          unfold start in ((frame-release w1 kind e.job_id cfg.owner).3 ∙ same)

  -- A try adds one task if it succeeds, and none if it does not.
  try_claim-count :
      (b : Between X) (w : World X) (c : Candidate) (e : Option (Execution X))
      → let (w', done) = try_claim cfg b w c e now in
        length w'.tasks ≡ (if is_success done then length w.tasks + 1 else length w.tasks)
  unfolding try_claim claim
  try_claim-count b w c none = refl
  try_claim-count b w c (some e) =
      let l = claimed (w.leases c.kind e.job_id) e.job_id cfg.owner cfg.lease_seconds now in
      ground (arith, answered-tasks b w c.kind e l, length-append w.tasks ((c.kind, e.job_id) ∷ []))

  claim_loop-count :
      (b : Candidate → Between X) (w : World X) (available : ℕ) (cs : List Candidate)
      → length (claim_loop cfg b w available cs now).0.tasks ≤ length w.tasks + available
  unfolding claim_loop
  claim_loop-count b w available [] = omega arith
  claim_loop-count b w available (c ∷ cs) =
      let (w', done) = try_claim cfg (b c) w c (w.executions c.kind c.job_id) now in
      let count = try_claim-count (b c) w c (w.executions c.kind c.job_id) in
      elim (Bool-cases (available == 0)) [
        | inl spent ↦ rw (spent, claim_loop) (omega arith)
        | inr room ↦ elim (Result-cases done) [
          | inl (success, e) ↦
              rw (room, e, claim_loop)
                (ground (
                  arith,
                  claim_loop-count b w' (if success then available - 1 else available) cs,
                  rw e at count,
                ))
          | inr (x, e) ↦ rw (room, e, claim_loop) (ground (arith, rw e at count))
        ]
      ]

  -- A claiming round never makes a runner that is within its limit on parallel jobs exceed it,
  -- whatever comes between in its claims, and also if one of them raises.
  pub claim_pending-count :
      (b : Candidate → Between X) (w : World X) (responses batches : List (Execution X))
      → length w.tasks ≤ cfg.max_parallel_jobs
      → length (claim_pending cfg b w responses batches now).0.tasks ≤ cfg.max_parallel_jobs
  unfolding claim_pending
  claim_pending-count b w responses batches h = omega (
    arith,
    claim_loop-count b w (cfg.max_parallel_jobs - length w.tasks)
        (sort_candidates (candidates_of w response responses ++ candidates_of w batch batches)),
  )

  -- What a claim that was granted a lease leaves, from the world `w1` that it finds behind it.
  abbrev pub Settled :
      World X
      → Kind
      → Execution X
      → Execution X
      → JobLease
      → Option Exn
      → World X
      → Result Bool
      → Type 0
  Settled w1 kind e stored lease (some x) w' done =
      (done ≡ err x)
      × Released cfg.owner (w1.leases kind e.job_id) (w'.leases kind e.job_id)
      × (w'.executions ≡ w1.executions)
      × (w'.tasks ≡ w1.tasks)
  Settled w1 kind e stored lease none w' done =
      (done ≡ ok true)
      × (w'.leases ≡ w1.leases)
      × (w'.executions kind e.job_id
          ≡ some (record stored {
            status = running;
            owner_id = some cfg.owner;
            attempt = lease.attempt;
            started_at = some (or_now e.started_at now);
            updated_at = now;
          }))
      × (w'.tasks ≡ w1.tasks ++ (kind, e.job_id) ∷ [])

  start-Settled :
      (w1 : World X) (kind : Kind) (e stored : Execution X) (lease : JobLease) (raises : Option Exn)
      → w1.executions kind e.job_id ≡ some stored
      → stored.job_id ≡ e.job_id
      → let (w', done) = start cfg w1 kind e lease raises now in
        Settled w1 kind e stored lease raises w' done
  unfolding start
  start-Settled w1 kind e stored lease none there same =
      let frame = frame-update w1 kind e.job_id _ now in
      (
        refl,
        frame.0,
        executions-update w1 kind e.job_id _ now stored there same,
        ap (λ l. l ++ (kind, e.job_id) ∷ []) frame.3,
      )
  start-Settled w1 kind e stored lease (some x) there same =
      let frame = frame-release w1 kind e.job_id cfg.owner in
      (
        refl,
        rw (leases-release w1 kind e.job_id cfg.owner)
            (released cfg.owner (w1.leases kind e.job_id)),
        frame.0,
        frame.3,
      )

  -- The lease that a claim takes.
  unfoldable pub next_lease : World X → Kind → Str → JobLease
  next_lease w kind job = record {
    job_id = job;
    owner_id = cfg.owner;
    lease_expires_at = now + cfg.lease_seconds * 1000000;
    heartbeat_at = now;
    attempt = attempts (w.leases kind job) + 1;
  }

  -- The world that a claim with a lease finds behind what comes between.
  abbrev pub granted : Between X → World X → Kind → Str → World X
  granted b w kind job = paused b (grant_lease w kind job (next_lease w kind job))

  -- A claim is refused, and nothing has changed, exactly if another runner's lease on the job is
  -- live. Otherwise the runner is given a lease for the full time with the attempt counted up. If
  -- then the update of the stored execution goes through, the claim succeeds: the execution says
  -- that this runner runs it, and the task is known. If it raises, the claim raises the same, the
  -- lease is given back where it is still the runner's, and no task is added. Other tasks and
  -- processes may change the store between the lease and the update.
  pub claim_lem :
      (b : Between X) (w : World X) (kind : Kind) (e stored : Execution X)
      → (granted b w kind e.job_id).executions kind e.job_id ≡ some stored
      → stored.job_id ≡ e.job_id
      → let (w', done) = claim cfg b w kind e now in
        let current = w.leases kind e.job_id in
        (LiveOther current cfg.owner now × (done ≡ ok false) × (w' ≡ w))
        ⊎ (¬ LiveOther current cfg.owner now
            × ((lease : JobLease) × (lease.owner_id ≡ cfg.owner)
                × (lease.lease_expires_at ≡ now + cfg.lease_seconds * 1000000)
                × (lease.attempt ≡ attempts current + 1)
                × ((grant_lease w kind e.job_id lease).leases kind e.job_id ≡ some lease)
                × Settled
                    (paused b (grant_lease w kind e.job_id lease))
                    kind
                    e
                    stored
                    lease
                    b.raises
                    w'
                    done))
  unfolding claim claimed answered next_lease
  claim_lem b w kind e stored there same =
      elim (Bool-cases (is_held (w.leases kind e.job_id) cfg.owner now)) [
        | inl held ↦ rw held (inl (held-LiveOther _ cfg.owner now held, refl, refl))
        | inr free ↦ rw free (
            inr (
              free-LiveOther _ cfg.owner now free,
              (
                next_lease w kind e.job_id,
                refl,
                refl,
                refl,
                unfold grant_lease in put_at_self w.leases kind e.job_id _,
                start-Settled (granted b w kind e.job_id) kind e stored (next_lease w kind e.job_id)
                    b.raises there same,
              ),
            ))
      ]
