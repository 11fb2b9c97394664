-- ===== src/Jobs/Tasks.antt =====
-- How jobs/runner.py runs, watches and hands back the jobs that it has claimed.
pub mod Heartbeat
pub mod Outcomes
pub mod HandBack
use vfront.Common.{
  ℕ, zero, suc, ◌+◌, ◌/◌, ◌-◌, Str, List, [], ◌∷◌, ◌++◌, Bool, true, false, not, ◌&&◌, ◌||◌, Option,
  none, some, ◌==◌, ltb, leb, length, any, str_eq, is_some, if◌then◌else◌,
}
use vfront.Jobs.Lease.{JobLease, claimed, refreshed, may_release}
use vfront.Jobs.Executions.{
  Execution, ExecutionStatus, queued, running, completed, failed, cancelled,
}
use vfront.Jobs.World.{
  Kind, response, batch, kind_eq, ResourceStatus, cancelled_at, failed_at, World, Settings, put_at,
  has_task, or_now, is_active, is_running, owned_by, stamp, update_execution, release_lease,
  delete_spec, set_resource,
}

-- How the work of a task ends: it returns, it raises, or it is cancelled while the runner goes on
-- or while it stops.
pub data Outcome : Type 0 where
  returned cancelled_job cancelled_stopping : Outcome
  raised : Str → Outcome

module _ {X : Type 0} where
  -- The execution is finished; `error` is what `last_error` becomes, if the update names it.
  unfoldable pub finish_execution :
      Kind → Str → ExecutionStatus → Option (Option Str) → ℕ → World X → World X
  finish_execution kind job status error now w =
      update_execution w kind job
        (λ e. record e {
          status = status;
          owner_id = none;
          finished_at = some now;
          last_error = elim error [ none ↦ e.last_error | some text ↦ text ];
        })
        now

  abbrev mark : Kind → Str → ResourceStatus → World X → World X
  mark kind job status w = set_resource w kind job status

  abbrev drop_spec : Kind → Str → World X → World X
  drop_spec kind job w = delete_spec w kind job

  -- The calls of the store in `_run_response` and `_run_batch` behind the work. A batch that raises
  -- is stored as failed; a response that raises was stored as failed by the work itself.
  unfoldable pub settle_steps : Kind → Str → Outcome → ℕ → List (World X → World X)
  settle_steps kind job returned now =
      finish_execution kind job completed (some none) now ∷ drop_spec kind job ∷ []
  settle_steps kind job cancelled_job now =
      mark kind job (cancelled_at (stamp kind now))
      ∷ finish_execution kind job cancelled none now
      ∷ drop_spec kind job
      ∷ []
  settle_steps kind job cancelled_stopping now = []
  settle_steps response job (raised error) now =
      finish_execution response job failed (some (some error)) now ∷ drop_spec response job ∷ []
  settle_steps batch job (raised error) now =
      mark batch job (failed_at (stamp batch now))
      ∷ finish_execution batch job failed (some (some error)) now
      ∷ drop_spec batch job
      ∷ []

  -- With `some n`, the call behind `n` others raises.
  unfoldable pub run_steps : Option ℕ → List (World X → World X) → World X → World X
  run_steps fault [] w = w
  run_steps none (step ∷ steps) w = run_steps none steps (step w)
  run_steps (some zero) (step ∷ steps) w = w
  run_steps (some (suc n)) (step ∷ steps) w = run_steps (some n) steps (step w)

  -- Without a spec nothing catches what the update raises, and the lease is not given back then.
  unfoldable pub run_unspecified : Settings → World X → Kind → Str → Str → Option ℕ → ℕ → World X
  run_unspecified cfg w kind job missing (some zero) now = w
  run_unspecified cfg w kind job missing _ now =
      release_lease (finish_execution kind job failed (some (some missing)) now w) kind job
        cfg.owner

  -- `_run_response`, `_run_batch`: `work` is what the world is after the work itself, and `fault`
  -- says which later call of the store raises, if one does. Behind work the lease is given back in
  -- a `finally`.
  unfoldable pub run_job :
      Settings → World X → Kind → Str → Str → World X → Outcome → Option ℕ → ℕ → World X
  run_job cfg w kind job missing work outcome fault now =
      if w.specs kind job
      then release_lease (run_steps fault (settle_steps kind job outcome now) work) kind job
          cfg.owner
      else run_unspecified cfg w kind job missing fault now

  -- One execution of the loops in `_release_owned_work`.
  unfoldable pub hand_back : Settings → World X → Kind → ℕ → Execution X → World X
  hand_back cfg w kind now e =
      if not (owned_by e.owner_id cfg.owner) || not (is_running e.status)
      then w
      else release_lease
          (if e.cancel_requested
            then update_execution
                (delete_spec
                  (set_resource w kind e.job_id
                    (cancelled_at (stamp kind (or_now e.finished_at now))))
                  kind e.job_id)
                kind e.job_id
                (λ x. record x {
                  owner_id = none;
                  status = cancelled;
                  finished_at = some (or_now e.finished_at now);
                })
                now
            else update_execution w kind e.job_id
                (λ x. record x { owner_id = none; status = queued }) now)
          kind e.job_id cfg.owner

  unfoldable pub release_owned_work : Settings → World X → Kind → List (Execution X) → ℕ → World X
  release_owned_work cfg w kind [] now = w
  release_owned_work cfg w kind (e ∷ l) now =
      release_owned_work cfg (hand_back cfg w kind now e) kind l now

  -- One live task of `_heartbeat_and_prune`: whether it is cancelled, and its lease refreshed. The
  -- answer of the heartbeat is dropped.
  unfoldable pub heartbeat_task : Settings → World X → Kind × Str → ℕ → World X × Bool
  heartbeat_task cfg w (kind, job) now = (
    elim (refreshed (w.leases kind job) cfg.owner cfg.lease_seconds now) [
      | none ↦ w
      | some lease ↦ record w { leases = put_at w.leases kind job (some lease) }
    ],
    elim (w.executions kind job) [ none ↦ false | some e ↦ e.cancel_requested ],
  )
