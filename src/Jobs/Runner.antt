-- ===== src/Jobs/Runner.antt =====
-- How jobs/runner.py chooses and claims jobs: `_claim_pending` and what it calls.
pub mod Claims
pub mod Order
use vfront.Common.{
  ℕ, ◌+◌, ◌/◌, ◌-◌, Str, List, [], ◌∷◌, ◌++◌, Bool, true, false, not, ◌&&◌, ◌||◌, Option, none,
  some, ◌==◌, ltb, leb, length, any, str_eq, is_some, Result, ok, err, Exn, if◌then◌else◌,
}
use vfront.Jobs.Lease.{JobLease, claimed, refreshed, may_release}
use vfront.Jobs.Executions.{
  Execution, ExecutionStatus, queued, running, completed, failed, cancelled,
}
use vfront.Jobs.World.{
  Kind, response, batch, kind_eq, ResourceStatus, cancelled_at, failed_at, World, Settings, put_at,
  has_task, or_now, is_active, is_running, owned_by, stamp, update_execution, release_lease,
  delete_spec, set_resource,
}

-- What the awaits of one claim meet behind the answer of the lease service: what other tasks and
-- processes have done to the store, and whether the update of the execution raises. An update that
-- has written before it raises counts as done meanwhile.
pub record Between (X : Type 0) : Type 0 where
  pub meanwhile : World X → World X
  pub raises : Option Exn

-- Nothing comes between, and nothing raises.
unfoldable pub undisturbed : {X : Type 0} → Between X
undisturbed = record { meanwhile = λ w. w; raises = none }

module _ {X : Type 0} where
  -- `_is_claimable_response`, `_is_claimable_batch`
  unfoldable pub is_claimable : World X → Kind → Execution X → Bool
  is_claimable w kind e =
      if has_task w.tasks kind e.job_id || e.cancel_requested then false else is_active e.status

  -- The store as others leave it; `_tasks` is the runner's own.
  unfoldable pub paused : Between X → World X → World X
  paused b w = record (b.meanwhile w) { tasks = w.tasks }

  -- JobLeaseService.claim_response, claim_batch, when the lease is granted
  unfoldable pub grant_lease : World X → Kind → Str → JobLease → World X
  grant_lease w kind job lease = record w { leases = put_at w.leases kind job (some lease) }

  -- The `try` of `_claim_response` and `_claim_batch`, behind the lease. What raises gives the lease
  -- back.
  unfoldable pub start :
      Settings → World X → Kind → Execution X → JobLease → Option Exn → ℕ → World X × Result Bool
  start cfg w kind e lease (some x) now = (release_lease w kind e.job_id cfg.owner, err x)
  start cfg w kind e lease none now =
      let updated =
        update_execution w kind e.job_id
          (λ x. record x {
            status = running;
            owner_id = some cfg.owner;
            attempt = lease.attempt;
            started_at = some (or_now e.started_at now);
          })
          now in
      (record updated { tasks = updated.tasks ++ (kind, e.job_id) ∷ [] }, ok true)

  -- `_claim_response`, `_claim_batch` after the lease service has answered
  unfoldable pub answered :
      Settings
      → Between X
      → World X
      → Kind
      → Execution X
      → Option JobLease
      → ℕ
      → World X × Result Bool
  answered cfg b w kind e none now = (w, ok false)
  answered cfg b w kind e (some lease) now =
      start cfg (paused b (grant_lease w kind e.job_id lease)) kind e lease b.raises now

  unfoldable pub claim :
      Settings → Between X → World X → Kind → Execution X → ℕ → World X × Result Bool
  claim cfg b w kind e now =
      answered cfg b w kind e
        (claimed (w.leases kind e.job_id) e.job_id cfg.owner cfg.lease_seconds now) now

-- `_ClaimCandidate`
pub record Candidate : Type 0 where
  pub kind : Kind
  pub job_id : Str
  pub status : ExecutionStatus
  pub created_at : ℕ
  pub updated_at : ℕ

abbrev pub rank : ExecutionStatus → ℕ
rank running = 0
rank _ = 1

-- The order of the sort keys `(rank, -updated_at, -created_at)`.
unfoldable pub not_after : Candidate → Candidate → Bool
not_after a b =
    if ltb (rank a.status) (rank b.status)
    then true
    else if ltb (rank b.status) (rank a.status)
    then false
    else if ltb b.updated_at a.updated_at
    then true
    else if ltb a.updated_at b.updated_at
    then false
    else leb b.created_at a.created_at

unfoldable pub insert_candidate : Candidate → List Candidate → List Candidate
insert_candidate c [] = c ∷ []
insert_candidate c (d ∷ l) = if not_after c d then c ∷ d ∷ l else d ∷ insert_candidate c l

unfoldable pub sort_candidates : List Candidate → List Candidate
sort_candidates [] = []
sort_candidates (c ∷ l) = insert_candidate c (sort_candidates l)

module _ {X : Type 0} where
  unfoldable pub candidates_of : World X → Kind → List (Execution X) → List Candidate
  candidates_of w kind [] = []
  candidates_of w kind (e ∷ l) =
      let rest = candidates_of w kind l in
      if is_claimable w kind e
      then record {
        kind = kind;
        job_id = e.job_id;
        status = e.status;
        created_at = e.created_at;
        updated_at = e.updated_at;
      }
        ∷ rest
      else rest

  -- One round of the loop over the candidates, which looks at the execution again.
  unfoldable pub try_claim :
      Settings → Between X → World X → Candidate → Option (Execution X) → ℕ → World X × Result Bool
  try_claim cfg b w c none now = (w, ok false)
  try_claim cfg b w c (some e) now =
      if is_claimable w c.kind e then claim cfg b w c.kind e now else (w, ok false)

  -- The loop over the candidates; what raises leaves it. `b` has what comes between in each claim.
  unfoldable pub claim_loop :
      Settings
      → (Candidate → Between X)
      → World X
      → ℕ
      → List Candidate
      → ℕ
      → World X × Result (Unit {0})
  claim_loop cfg b w available [] now = (w, ok tt)
  claim_loop cfg b w available (c ∷ cs) now = elim (available == 0) [
    | true ↦ (w, ok tt)
    | false ↦
        let (w', done) = try_claim cfg (b c) w c (w.executions c.kind c.job_id) now in
        elim done [
          | err x ↦ (w', err x)
          | ok success ↦ claim_loop cfg b w' (if success then available - 1 else available) cs now
        ]
  ]

  -- `_claim_pending`, given what the two listings return
  unfoldable pub claim_pending :
      Settings
      → (Candidate → Between X)
      → World X
      → List (Execution X)
      → List (Execution X)
      → ℕ
      → World X × Result (Unit {0})
  claim_pending cfg b w responses batches now =
      claim_loop cfg b w (cfg.max_parallel_jobs - length w.tasks)
        (sort_candidates (candidates_of w response responses ++ candidates_of w batch batches)) now
