-- ===== src/Tests/RunnerRuns.antt =====
-- The theorems on the job runner, in a small world.
use vfront.Common.{
  Bool, Result, ok, runtime_error, ◌⊎◌, Str, [], ◌∷◌, true, false, Option, none, some, ◌≡◌, ◌≤◌,
  refl, codes, str_eq, length, if◌then◌else◌, arith,
}
use vfront.Jobs.Lease.{JobLease, is_held}
use vfront.Jobs.Lease.Owner.{LiveOther, Released}
use vfront.Jobs.Executions.{ExecutionStatus, queued, running, completed, Execution}
use vfront.Jobs.World.{response, World, Settings}
use vfront.Jobs.Runner.{Between, undisturbed, paused, grant_lease, claim, claim_pending}
use vfront.Jobs.Runner.Claims.{claim_pending-count, Settled, granted, claim_lem}
use vfront.Jobs.Tasks.{heartbeat_task, returned, run_job}
use vfront.Jobs.Tasks.Heartbeat.{lost_lease_is_ignored}
use vfront.Jobs.Tasks.Outcomes.{leases-run_job, executions-run_job}

abbrev job : Str
job = codes "job"

abbrev us : Str
us = codes "us"

abbrev settings : Settings
settings = record { owner = us; max_parallel_jobs = 2; lease_seconds = 30 }

abbrev in_status : ExecutionStatus → Option Str → Execution (Unit {0})
in_status status owner = record {
  job_id = job;
  status = status;
  cancel_requested = false;
  attempt = 1;
  owner_id = owner;
  last_error = none;
  created_at = 0;
  updated_at = 0;
  started_at = none;
  finished_at = none;
  extra = tt;
}

abbrev our_lease : JobLease
our_lease = record {
  job_id = job;
  owner_id = us;
  lease_expires_at = 30000000;
  heartbeat_at = 0;
  attempt = 1;
}

abbrev world : Option (Execution (Unit {0})) → Option JobLease → World (Unit {0})
world e l = record {
  executions = λ kind j. if str_eq job j then e else none;
  leases = λ kind j. if str_eq job j then l else none;
  specs = λ kind j. str_eq job j;
  resources = λ kind j. none;
  tasks = [];
}

abbrev waiting : World (Unit {0})
waiting = world (some (in_status queued none)) none

abbrev working : World (Unit {0})
working = world (some (in_status running (some us))) (some our_lease)

claim_pending-count_example :
    length
      (claim_pending settings
        (λ c. undisturbed)
        waiting
        (in_status queued none ∷ [])
        []
        5000000).0.tasks
    ≤ 2
claim_pending-count_example =
    claim_pending-count settings 5000000 (λ c. undisturbed) waiting (in_status queued none ∷ []) []
      (omega arith)

-- The update of the execution raises, while the world stays as it is.
abbrev disturbed : Between (Unit {0})
disturbed = record { meanwhile = λ w. w; raises = some runtime_error }

waiting_there :
    (granted settings 5000000 disturbed waiting response job).executions response job
    ≡ some (in_status queued none)
unfolding str_eq paused grant_lease
waiting_there = refl

abbrev failed_claim : World (Unit {0}) × Result Bool
failed_claim = claim settings disturbed waiting response (in_status queued none) 5000000

claim_lem_example :
    (LiveOther none us 5000000 × (failed_claim.1 ≡ ok false) × (failed_claim.0 ≡ waiting))
    ⊎ (¬ LiveOther none us 5000000
        × ((lease : JobLease) × (lease.owner_id ≡ us)
            × (lease.lease_expires_at ≡ 35000000)
            × (lease.attempt ≡ 1)
            × ((grant_lease waiting response job lease).leases response job ≡ some lease)
            × Settled settings 5000000
                (paused disturbed (grant_lease waiting response job lease))
                response
                (in_status queued none)
                (in_status queued none)
                lease
                (some runtime_error)
                failed_claim.0
                failed_claim.1))
unfolding str_eq
claim_lem_example =
    claim_lem settings 5000000 disturbed waiting response (in_status queued none)
      (in_status queued none) waiting_there refl

abbrev done_world : World (Unit {0})
done_world = run_job settings working response job (codes "no spec") working returned none 9000000

leases-run_job_example : Released us (some our_lease) (
    (run_job settings working response job
        (codes "no spec")
        working
        returned
        (some 1)
        9000000).leases
      response job)
unfolding str_eq
leases-run_job_example =
    leases-run_job settings working working response job (codes "no spec") returned (some 1) 9000000

spec_there : working.specs response job ≡ true
unfolding str_eq
spec_there = refl

working_there : working.executions response job ≡ some (in_status running (some us))
unfolding str_eq
working_there = refl

executions-run_job_example :
    (x : Execution (Unit {0})) × (done_world.executions response job ≡ some x)
    × (x.status ≡ completed)
    × (x.owner_id ≡ none)
    × (x.finished_at ≡ some 9000000)
    × (done_world.specs response job ≡ false)
executions-run_job_example =
    executions-run_job settings working working response job (codes "no spec") returned 9000000
      (in_status running (some us)) spec_there refl working_there refl

abbrev other_settings : Settings
other_settings = record { owner = codes "them"; max_parallel_jobs = 2; lease_seconds = 30 }

-- Our lease runs out at 30 seconds, and the other runner claims at 40.
abbrev taken : World (Unit {0}) × Result Bool
taken = claim other_settings undisturbed working response (in_status running (some us)) 40000000

owners_differ : str_eq other_settings.owner settings.owner ≡ false
unfolding str_eq
owners_differ = refl

run_out : is_held (working.leases response job) other_settings.owner 40000000 ≡ false
unfolding is_held str_eq
run_out = refl

lost_lease_is_ignored_example :
    (taken.1 ≡ ok true)
    × (heartbeat_task settings taken.0 (response, job) 41000000 ≡ (taken.0, false))
lost_lease_is_ignored_example =
    lost_lease_is_ignored settings other_settings working response (in_status running (some us))
      (in_status running (some us)) 40000000 41000000 owners_differ run_out working_there refl refl
