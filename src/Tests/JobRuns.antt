-- ===== src/Tests/JobRuns.antt =====
-- The theorems on the job services, at concrete jobs.
use vfront.Common.{
  ℕ, Str, List, [], ◌∷◌, Bool, true, false, Option, none, some, Result, ok, ◌≡◌, refl, codes,
  str_eq, if◌then◌else◌, arith, ok-injective, ap, sym,
}
use vfront.Jobs.Namespace.{Namespace, Model, is_gone}
use vfront.Jobs.Lease.{JobLease, is_held, claimed, load, store, validated, claim_mutation}
use vfront.Jobs.Lease.Exclusive.{
  Call, claim, heartbeat, release, perform_all, Answer, lease_is_kept, claim_mutation_lem,
}
use vfront.Jobs.Executions.{
  running, completed, Execution, CancelUpdate, cancelled_record, validated as read_back,
  get_execution, put_execution, update_write, cancel_write, cancel_loaded, request_cancel,
}
use vfront.Jobs.Executions.Cancel.{request_cancel_lem, update_undoes_cancel, cancel_drops_retention}

-- A namespace in memory: what a key reads at a time.
abbrev table : (V : Type 0) → Namespace V
table V = record {
  Txn = Str → ℕ → Option V;
  get = λ t k now. ok (t k now);
  set = λ t k v retention since. ok (λ j now.
      if str_eq k j then (if is_gone retention since now then none else some v) else t j now);
  delete = λ t k. ok (λ j now. if str_eq k j then none else t j now, true);
  get-set = λ t k v retention since j now h.
      rw (ap (λ (u : Str → ℕ → Option V). u j now) (sym (ok-injective h))) (ground arith);
  get-delete = λ t k j now h.
      rw (ap (λ (u : (Str → ℕ → Option V) × Bool). u.0 j now) (sym (ok-injective h)))
        (ground arith);
}

abbrev itself : {A : Type 0} → Model A A
itself = record { model_dump = λ a. a; model_validate = λ a. ok a; validate-dump = λ a. refl }

abbrev job : Str
job = codes "job"

abbrev us : Str
us = codes "us"

abbrev them : Str
them = codes "them"

abbrev lease_of_us : JobLease
lease_of_us = record {
  job_id = job;
  owner_id = us;
  lease_expires_at = 30000000;
  heartbeat_at = 0;
  attempt = 1;
}

abbrev leases : Str → ℕ → Option JobLease
leases = λ j now. if str_eq job j then some lease_of_us else none

leases_hold : (now : ℕ) → load (table JobLease) itself leases job now ≡ ok (some lease_of_us)
unfolding load validated str_eq
leases_hold now = refl

abbrev calls : List Call
calls = claim job them 30 1000000 ∷ release job them 2000000 ∷ heartbeat job them 30 29999999 ∷ []

lease_is_kept_example :
    load (table JobLease) itself (perform_all (table JobLease) itself leases calls) job 29999999
    ≡ ok (some lease_of_us)
lease_is_kept_example =
    lease_is_kept (table JobLease) itself leases job lease_of_us calls leases_hold
      (unfold str_eq in refl) 29999999

-- The lease has run out: the other runner gets the job.
abbrev late_claim : Result ((Str → ℕ → Option JobLease) × Option JobLease)
late_claim = claim_mutation (table JobLease) itself leases job them 30 40000000

abbrev lease_of_them : JobLease
lease_of_them = record {
  job_id = job;
  owner_id = them;
  lease_expires_at = 70000000;
  heartbeat_at = 40000000;
  attempt = 2;
}

abbrev leases_after : Str → ℕ → Option JobLease
leases_after = λ j now. if str_eq job j then some lease_of_them else leases j now

late_claim_returns : late_claim ≡ ok (leases_after, some lease_of_them)
unfolding claim_mutation load validated claimed is_held store str_eq
late_claim_returns = refl

claim_mutation_lem_example :
    Answer
      (table JobLease)
      itself
      leases
      job
      them
      30
      40000000
      (some lease_of_us)
      leases_after
      (some lease_of_them)
claim_mutation_lem_example =
    claim_mutation_lem (table JobLease) itself leases job them 30 40000000 (some lease_of_us)
      (leases_hold 40000000) late_claim_returns

abbrev going : Execution (Unit {0})
going = record {
  job_id = job;
  status = running;
  cancel_requested = false;
  attempt = 1;
  owner_id = some us;
  last_error = none;
  created_at = 0;
  updated_at = 0;
  started_at = some 1;
  finished_at = none;
  extra = tt;
}

abbrev flagged : ℕ → Execution (Unit {0})
flagged now = record going { cancel_requested = true; updated_at = now }

abbrev Table : Type 0
Table = Str → ℕ → Option (Execution (Unit {0}))

abbrev Executions : Namespace (Execution (Unit {0}))
Executions = table (Execution (Unit {0}))

-- Stored at time 0 for one minute.
abbrev kept_a_minute : Table
kept_a_minute =
    λ j now. if str_eq job j then (if is_gone (some 1) 0 now then none else some going) else none

abbrev with_flag : ℕ → Table
with_flag now = λ j later.
    if str_eq job j
    then (if is_gone none now later then none else some (flagged now))
    else kept_a_minute j later

put_returns : put_execution Executions itself (λ j now. none) going 1 0 ≡ ok kept_a_minute
unfolding put_execution
put_returns = refl

going_there : get_execution Executions itself kept_a_minute job 5000000 ≡ ok (some going)
unfolding get_execution read_back str_eq
going_there = refl

asked :
    request_cancel Executions itself kept_a_minute job 5000000
    ≡ ok (
      with_flag 5000000,
      some (record { previous_status = running; execution = flagged 5000000 }),
    )
unfolding request_cancel get_execution read_back cancel_loaded cancel_write cancelled_record str_eq
asked = refl

request_cancel_lem_example :
    (c : CancelUpdate (Unit {0})) × (some
        (record { previous_status = running; execution = flagged 5000000 })
      ≡ some c)
    × (c.previous_status ≡ running)
    × ((c.execution.cancel_requested ≡ true)
        × (c.execution.status ≡ running)
        × ((later : ℕ)
            → get_execution Executions itself (with_flag 5000000) job later
              ≡ ok (some c.execution)))
request_cancel_lem_example =
    request_cancel_lem Executions itself kept_a_minute job 5000000 going going_there asked

abbrev completes : Execution (Unit {0}) → Execution (Unit {0})
completes e = record e { status = completed; owner_id = none }

abbrev overwritten : Table
overwritten = λ j later.
    if str_eq job j
    then (if is_gone (some 1) 6000000 later
        then none
        else some (record (completes going) { updated_at = 6000000 }))
    else with_flag 5000000 j later

write_returns :
    update_write Executions itself (with_flag 5000000) (some going) completes 1 6000000
    ≡ ok (overwritten, some (record (completes going) { updated_at = 6000000 }))
unfolding update_write put_execution
write_returns = refl

update_undoes_cancel_example :
    ((c : Execution (Unit {0})) × (get_execution Executions itself (with_flag 5000000) job 7000000
        ≡ ok (some c))
      × (c.cancel_requested ≡ true))
    × ((x : Execution (Unit {0})) × (get_execution Executions itself overwritten job 7000000
          ≡ ok (some x))
        × (x.cancel_requested ≡ false)
        × (x.status ≡ completed))
update_undoes_cancel_example =
    update_undoes_cancel Executions itself kept_a_minute (with_flag 5000000) overwritten going
      completes 1 5000000 6000000 7000000 going_there refl asked write_returns refl refl refl

cancel_drops_retention_example :
    (get_execution Executions itself kept_a_minute job 90000000 ≡ ok none)
    × ((x : Execution (Unit {0})) × (get_execution Executions itself
            (with_flag 5000000)
            job
            90000000
          ≡ ok (some x))
        × (x.cancel_requested ≡ true))
cancel_drops_retention_example =
    cancel_drops_retention Executions itself (λ j now. none) kept_a_minute (with_flag 5000000) going
      1 0 5000000 90000000 put_returns refl refl refl asked
