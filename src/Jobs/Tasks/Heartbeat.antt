-- ===== src/Jobs/Tasks/Heartbeat.antt =====
-- The heartbeat of a runner that has lost its lease.
use vfront.Common.{ℕ, Str, true, false, Option, some, ok, ◌≡◌, ap, ◌∙◌, inl, inr, str_eq}
use vfront.Jobs.Lease.{JobLease, is_held, refreshed}
use vfront.Jobs.Lease.Owner.{free-LiveOther}
use vfront.Jobs.Executions.{Execution}
use vfront.Jobs.World.{Kind, World, Settings}
use vfront.Jobs.Runner.{claim, undisturbed, paused, grant_lease}
use vfront.Jobs.Runner.Claims.{claim_lem}
use vfront.Jobs.Tasks.{heartbeat_task}

module _ {X : Type 0} where
  heartbeat_refused :
      (cfg : Settings) (w : World X) (kind : Kind) (job : Str) (later : ℕ) (lease : JobLease)
      (e : Execution X)
      → w.leases kind job ≡ some lease
      → str_eq lease.owner_id cfg.owner ≡ false
      → w.executions kind job ≡ some e
      → heartbeat_task cfg w (kind, job) later ≡ (w, e.cancel_requested)
  unfolding heartbeat_task refreshed
  heartbeat_refused cfg w kind job later lease e there other stored =
      rw (there, stored, other, refreshed, heartbeat_task)

  -- When the lease of a runner has run out and another runner has claimed the stored job, in a claim
  -- that nothing disturbs, the next heartbeat of the first changes nothing and does not cancel its
  -- task, so that both run the job.
  pub lost_lease_is_ignored :
      (first second : Settings) (w : World X) (kind : Kind) (e stored : Execution X) (now later : ℕ)
      → str_eq second.owner first.owner ≡ false
      → is_held (w.leases kind e.job_id) second.owner now ≡ false
      → w.executions kind e.job_id ≡ some stored
      → stored.job_id ≡ e.job_id
      → stored.cancel_requested ≡ false
      → let (w', done) = claim second undisturbed w kind e now in
        (done ≡ ok true) × (heartbeat_task first w' (kind, e.job_id) later ≡ (w', false))
  unfolding undisturbed paused grant_lease
  lost_lease_is_ignored first second w kind e stored now later other free there same going =
      let (w', b) = claim second undisturbed w kind e now in
      elim (claim_lem second now undisturbed w kind e stored there same) [
        | inl (live, refused, same_world) ↦ absurd (free-LiveOther _ second.owner now free live)
        | inr
              (
                open_to_us,
                (lease, owner, expires, attempt, there', (done, leases, execution, tasks)),
              ) ↦
            (
              done,
              rw going at (
                  heartbeat_refused first w' kind e.job_id later lease _
                    (ap (λ (t : Kind → Str → Option JobLease). t kind e.job_id) leases ∙ there')
                    (rw owner other) execution),
            )
      ]
