-- ===== src/Jobs/World.antt =====
-- What jobs/runner.py reaches through the job store and the lease service. The tables are functions
-- here; what those services do to a record is the code of Jobs/Executions and of Jobs/Lease.
-- Responses and batches are handled alike.
pub mod Laws
use vfront.Common.{
  ℕ, ◌+◌, ◌/◌, ◌-◌, Str, List, [], ◌∷◌, ◌++◌, Bool, true, false, not, ◌&&◌, ◌||◌, Option, none,
  some, ◌==◌, ltb, leb, length, any, str_eq, is_some, if◌then◌else◌,
}
use vfront.Jobs.Lease.{JobLease, claimed, refreshed, may_release}
use vfront.Jobs.Executions.{
  Execution, ExecutionStatus, queued, running, completed, failed, cancelled,
}

pub data Kind : Type 0 where
  response batch : Kind

abbrev pub kind_eq : Kind → Kind → Bool
kind_eq response response = true
kind_eq batch batch = true
kind_eq _ _ = false

-- What the job code reads and writes of a stored response or batch.
pub data ResourceStatus : Type 0 where
  cancelled_at : ℕ → ResourceStatus
  failed_at : ℕ → ResourceStatus
  other_status : ResourceStatus

pub record World (X : Type 0) : Type 0 where
  pub executions : Kind → Str → Option (Execution X)
  pub leases : Kind → Str → Option JobLease
  pub specs : Kind → Str → Bool
  pub resources : Kind → Str → Option ResourceStatus
  -- the keys of `_tasks`
  pub tasks : List (Kind × Str)

pub record Settings : Type 0 where
  pub owner : Str
  pub max_parallel_jobs : ℕ
  pub lease_seconds : ℕ

abbrev pub put_at : {A : Type 0} → (Kind → Str → A) → Kind → Str → A → Kind → Str → A
put_at table kind job a kind' job' =
    if kind_eq kind kind' && str_eq job job' then a else table kind' job'

abbrev pub has_task : List (Kind × Str) → Kind → Str → Bool
has_task tasks kind job = any (λ key. kind_eq key.0 kind && str_eq key.1 job) tasks

-- `execution.started_at or now`: zero counts as missing
abbrev pub or_now : Option ℕ → ℕ → ℕ
or_now none now = now
or_now (some t) now = if t == 0 then now else t

abbrev pub is_active : ExecutionStatus → Bool
is_active queued = true
is_active running = true
is_active _ = false

abbrev pub is_running : ExecutionStatus → Bool
is_running running = true
is_running _ = false

abbrev pub owned_by : Option Str → Str → Bool
owned_by none owner = false
owned_by (some o) owner = str_eq o owner

-- `completed_at` of a response is a float, `cancelled_at` and `failed_at` of a batch are `int(...)`.
abbrev pub stamp : Kind → ℕ → ℕ
stamp response t = t
stamp batch t = t / 1000000

module _ {X : Type 0} where
  -- JobStoreService._update_execution
  unfoldable pub update_execution : World X → Kind → Str → (Execution X → Execution X) → ℕ → World X
  update_execution w kind job updates now = elim (w.executions kind job) [
    | none ↦ w
    | some e ↦
        let new = record (updates e) { updated_at = now } in
        record w { executions = put_at w.executions kind new.job_id (some new) }
  ]

  -- JobLeaseService.release_response, release_batch
  unfoldable pub release_lease : World X → Kind → Str → Str → World X
  release_lease w kind job owner =
      if may_release (w.leases kind job) owner
      then record w { leases = put_at w.leases kind job none }
      else w

  unfoldable pub delete_spec : World X → Kind → Str → World X
  delete_spec w kind job = record w { specs = put_at w.specs kind job false }

  -- A stored response or batch is stored again with a new status; one that is gone stays gone.
  unfoldable pub set_resource : World X → Kind → Str → ResourceStatus → World X
  set_resource w kind job status =
      if is_some (w.resources kind job)
      then record w { resources = put_at w.resources kind job (some status) }
      else w
