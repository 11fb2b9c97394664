-- ===== src/Jobs/Lease.antt =====
-- jobs/lease.py. A lease names the runner that may work on a job, and until when. Times are in
-- microseconds.
pub mod Exclusive
pub mod Owner
use vfront.Common.{
  ℕ, ◌+◌, ◌*◌, Str, Bool, true, false, not, ◌&&◌, Option, none, some, Result, ok, ◌>>=◌, ltb,
  str_eq, if◌then◌else◌,
}
use vfront.Jobs.Namespace.{Namespace, Model}

-- protocol/job.py
pub record JobLease : Type 0 where
  pub job_id : Str
  pub owner_id : Str
  pub lease_expires_at : ℕ
  pub heartbeat_at : ℕ
  pub attempt : ℕ

abbrev pub attempts : Option JobLease → ℕ
attempts none = 0
attempts (some lease) = lease.attempt

-- Whether a live lease of another owner stands.
unfoldable pub is_held : Option JobLease → Str → ℕ → Bool
is_held none owner now = false
is_held (some lease) owner now = ltb now lease.lease_expires_at && not (str_eq lease.owner_id owner)

-- The lease that `_claim_mutation` writes, if it grants the claim.
unfoldable pub claimed : Option JobLease → Str → Str → ℕ → ℕ → Option JobLease
claimed lease job owner seconds now =
    if is_held lease owner now
    then none
    else some (record {
      job_id = job;
      owner_id = owner;
      lease_expires_at = now + seconds * 1000000;
      heartbeat_at = now;
      attempt = attempts lease + 1;
    })

-- The lease that `_heartbeat_mutation` writes.
unfoldable pub refreshed : Option JobLease → Str → ℕ → ℕ → Option JobLease
refreshed none owner seconds now = none
refreshed (some lease) owner seconds now =
    if str_eq lease.owner_id owner
    then some (record lease { lease_expires_at = now + seconds * 1000000; heartbeat_at = now })
    else none

unfoldable pub may_release : Option JobLease → Str → Bool
may_release none owner = false
may_release (some lease) owner = str_eq lease.owner_id owner

module _ {V : Type 0} (N : Namespace V) (M : Model JobLease V) where
  unfoldable pub validated : Option V → Result (Option JobLease)
  validated none = ok none
  validated (some v) = do lease ← M.model_validate v; ok (some lease)

  -- `mutation.get`, and `model_validate` if there is a value
  unfoldable pub load : N.Txn → Str → ℕ → Result (Option JobLease)
  load t job now = do current ← N.get t job now; validated current

  unfoldable pub store : N.Txn → Str → Option JobLease → ℕ → Result (N.Txn × Option JobLease)
  store t job none now = ok (t, none)
  store t job (some lease) now = do
    t' ← N.set t job (M.model_dump lease) none now
    ok (t', some lease)

  unfoldable pub claim_mutation : N.Txn → Str → Str → ℕ → ℕ → Result (N.Txn × Option JobLease)
  claim_mutation t job owner seconds now = do
    lease ← load t job now
    store t job (claimed lease job owner seconds now) now

  unfoldable pub heartbeat_mutation : N.Txn → Str → Str → ℕ → ℕ → Result (N.Txn × Option JobLease)
  heartbeat_mutation t job owner seconds now = do
    lease ← load t job now
    store t job (refreshed lease owner seconds now) now

  unfoldable pub release_mutation : N.Txn → Str → Str → ℕ → Result (N.Txn × Bool)
  release_mutation t job owner now = do
    lease ← load t job now
    if may_release lease owner then N.delete t job else ok (t, false)

  unfoldable pub clear_mutation : N.Txn → Str → Result (N.Txn × Bool)
  clear_mutation t job = N.delete t job
