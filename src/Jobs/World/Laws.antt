-- ===== src/Jobs/World/Laws.antt =====
-- What one change of the tables leaves alone, and what it writes.
use vfront.Common.{
  ℕ, Str, true, none, some, ◌≡◌, refl, str_eq_iff, str_eq_self, if◌then◌else◌, arith,
}
use vfront.Jobs.Lease.{may_release}
use vfront.Jobs.Executions.{Execution}
use vfront.Jobs.World.{
  Kind, response, batch, kind_eq, ResourceStatus, World, put_at, update_execution, release_lease,
  set_resource,
}

pub kind_eq_self : (k : Kind) → kind_eq k k ≡ true
kind_eq_self response = refl
kind_eq_self batch = refl

pub put_at_self :
    {A : Type 0} (table : Kind → Str → A) (kind : Kind) (job : Str) (a : A)
    → put_at table kind job a kind job ≡ a
put_at_self table kind job a = rw (kind_eq_self kind, str_eq_self job)

module _ {X : Type 0} (w : World X) (kind : Kind) (job : Str) where
  pub executions-update :
      (updates : Execution X → Execution X) (now : ℕ) (e : Execution X)
      → w.executions kind job ≡ some e
      → (updates e).job_id ≡ job
      → (update_execution w kind job updates now).executions kind job
        ≡ some (record (updates e) { updated_at = now })
  unfolding update_execution
  executions-update updates now e there same =
      rw (there, update_execution)
        (ground (arith, kind_eq_self kind, str_eq_iff (updates e).job_id job))

  pub frame-update :
      (updates : Execution X → Execution X) (now : ℕ)
      → let w' = update_execution w kind job updates now in
        (w'.leases ≡ w.leases)
        × (w'.specs ≡ w.specs)
        × (w'.resources ≡ w.resources)
        × (w'.tasks ≡ w.tasks)
  unfolding update_execution
  frame-update updates now = ground arith

  pub frame-set_resource :
      (status : ResourceStatus)
      → let w' = set_resource w kind job status in
        (w'.leases ≡ w.leases)
        × (w'.specs ≡ w.specs)
        × (w'.executions ≡ w.executions)
        × (w'.tasks ≡ w.tasks)
  unfolding set_resource
  frame-set_resource status = ground arith

  pub leases-release :
      (owner : Str)
      → (release_lease w kind job owner).leases kind job
        ≡ (if may_release (w.leases kind job) owner then none else w.leases kind job)
  unfolding release_lease
  leases-release owner = ground (arith, kind_eq_self kind, str_eq_self job)

  pub frame-release :
      (owner : Str)
      → let w' = release_lease w kind job owner in
        (w'.executions ≡ w.executions)
        × (w'.specs ≡ w.specs)
        × (w'.resources ≡ w.resources)
        × (w'.tasks ≡ w.tasks)
  unfolding release_lease
  frame-release owner = ground arith
