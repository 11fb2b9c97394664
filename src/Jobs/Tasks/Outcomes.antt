-- ===== src/Jobs/Tasks/Outcomes.antt =====
-- How a job ends: what becomes of its lease, and its execution is finished or left for another
-- runner.
use vfront.Common.{
  ℕ, zero, suc, Str, List, [], ◌∷◌, Option, Bool, true, false, none, some, ◌≡◌, refl, ◌∙◌, inl, inr,
  Bool-cases, str_eq_self, if◌then◌else◌,
}
use vfront.Jobs.Lease.{JobLease}
use vfront.Jobs.Lease.Owner.{Released, released}
use vfront.Jobs.Executions.{Execution, ExecutionStatus, running, completed, failed, cancelled}
use vfront.Jobs.World.{
  Kind, response, batch, ResourceStatus, World, Settings, release_lease, delete_spec, set_resource,
}
use vfront.Jobs.World.Laws.{
  kind_eq_self, executions-update, frame-update, frame-set_resource, leases-release, frame-release,
}
use vfront.Jobs.Tasks.{
  Outcome, returned, cancelled_job, cancelled_stopping, raised, finish_execution, settle_steps,
  run_steps, run_unspecified, run_job,
}

abbrev pub final_status : Outcome → ExecutionStatus
final_status returned = completed
final_status cancelled_job = cancelled
final_status (raised error) = failed
final_status cancelled_stopping = running

abbrev pub is_settled : Outcome → Bool
is_settled cancelled_stopping = false
is_settled _ = true

-- Whether the lease is given back: it is not where the job has no spec and the store raises.
abbrev pub gives_back : Bool → Option ℕ → Bool
gives_back has_spec (some zero) = has_spec
gives_back has_spec _ = true

-- The lease of a job behind its end, from the lease before.
abbrev pub After : Str → Bool → Option JobLease → Option JobLease → Type 0
After owner true before after = Released owner before after
After owner false before after = after ≡ before

gives_back_lem : (fault : Option ℕ) → gives_back true fault ≡ true
gives_back_lem none = refl
gives_back_lem (some zero) = refl
gives_back_lem (some (suc n)) = refl

module _ {X : Type 0} where
  -- Each of the steps leaves the leases alone.
  abbrev KeepLeases : List (World X → World X) → Type 0
  KeepLeases [] = Unit {0}
  KeepLeases (step ∷ steps) = ((w : World X) → (step w).leases ≡ w.leases) × KeepLeases steps

  leases-run_steps :
      (fault : Option ℕ) (steps : List (World X → World X)) (w : World X)
      → KeepLeases steps
      → (run_steps fault steps w).leases ≡ w.leases
  unfolding run_steps
  leases-run_steps fault [] w keep = refl
  leases-run_steps none (step ∷ steps) w keep =
      leases-run_steps none steps (step w) keep.1 ∙ keep.0 w
  leases-run_steps (some zero) (step ∷ steps) w keep = refl
  leases-run_steps (some (suc n)) (step ∷ steps) w keep =
      leases-run_steps (some n) steps (step w) keep.1 ∙ keep.0 w

  finish_frame :
      (kind : Kind) (job : Str) (status : ExecutionStatus) (error : Option (Option Str)) (now : ℕ)
      (w : World X)
      → (finish_execution kind job status error now w).leases ≡ w.leases
  unfolding finish_execution
  finish_frame kind job status error now w = (frame-update w kind job _ now).0

  leases-settle :
      (w : World X) (kind : Kind) (job : Str) (outcome : Outcome) (fault : Option ℕ) (now : ℕ)
      → (run_steps fault (settle_steps kind job outcome now) w).leases ≡ w.leases
  unfolding settle_steps delete_spec
  leases-settle w kind job returned fault now =
      leases-run_steps fault _ w (finish_frame kind job _ _ now, (λ w. refl, tt))
  leases-settle w kind job cancelled_job fault now =
      leases-run_steps fault _ w
        (λ w. (frame-set_resource w kind job _).0, (finish_frame kind job _ _ now, (λ w. refl, tt)))
  leases-settle w kind job cancelled_stopping fault now = leases-run_steps fault [] w tt
  leases-settle w response job (raised error) fault now =
      leases-run_steps fault _ w (finish_frame response job _ _ now, (λ w. refl, tt))
  leases-settle w batch job (raised error) fault now =
      leases-run_steps fault _ w (
        λ w. (frame-set_resource w batch job _).0,
        (finish_frame batch job _ _ now, (λ w. refl, tt)),
      )

  given_back :
      (cfg : Settings) (w : World X) (kind : Kind) (job missing : Str) (now : ℕ)
      → Released cfg.owner (w.leases kind job) (
          (release_lease
              (finish_execution kind job failed (some (some missing)) now w)
              kind
              job
              cfg.owner).leases
            kind job)
  given_back cfg w kind job missing now =
      let w1 = finish_execution kind job failed (some (some missing)) now w in
      rw
        (
          leases-release w1 kind job cfg.owner,
          finish_frame kind job failed (some (some missing)) now w,
        )
        (released cfg.owner (w.leases kind job))

  unspecified-After :
      (cfg : Settings) (w : World X) (kind : Kind) (job missing : Str) (fault : Option ℕ) (now : ℕ)
      → After cfg.owner
          (gives_back false fault)
          (w.leases kind job)
          ((run_unspecified cfg w kind job missing fault now).leases kind job)
  unfolding run_unspecified
  unspecified-After cfg w kind job missing none now = given_back cfg w kind job missing now
  unspecified-After cfg w kind job missing (some zero) now = refl
  unspecified-After cfg w kind job missing (some (suc n)) now =
      given_back cfg w kind job missing now

  -- However the work of a job ends, whichever later call of the store raises, the runner's own
  -- lease on the job is given back, and a lease that another runner has taken meanwhile is left
  -- alone. So it is without a spec, unless the store raises: then the lease stays as it is.
  pub leases-run_job :
      (cfg : Settings) (w work : World X) (kind : Kind) (job missing : Str) (outcome : Outcome)
      (fault : Option ℕ) (now : ℕ)
      → let before = if w.specs kind job then work.leases kind job else w.leases kind job in
        After cfg.owner
          (gives_back (w.specs kind job) fault)
          before
          ((run_job cfg w kind job missing work outcome fault now).leases kind job)
  unfolding run_job
  leases-run_job cfg w work kind job missing outcome fault now =
      elim (Bool-cases (w.specs kind job)) [
        | inl there ↦ rw there (
            let w1 = run_steps fault (settle_steps kind job outcome now) work in
            rw (gives_back_lem fault) (
              rw
                (
                  leases-release w1 kind job cfg.owner,
                  leases-settle work kind job outcome fault now,
                )
                (released cfg.owner (work.leases kind job))))
        | inr gone ↦ rw gone (unspecified-After cfg w kind job missing fault now)
      ]

  pub kept :
      (w : World X) (kind : Kind) (job : Str) (status : ResourceStatus) (e : Execution X)
      → w.executions kind job ≡ some e
      → (set_resource w kind job status).executions kind job ≡ some e
  kept w kind job status e there = rw (frame-set_resource w kind job status).2 there

  settled :
      (w : World X) (kind : Kind) (job : Str) (outcome : Outcome) (now : ℕ) (e : Execution X)
      → is_settled outcome ≡ true
      → w.executions kind job ≡ some e
      → e.job_id ≡ job
      → (x : Execution X) × ((run_steps none (settle_steps kind job outcome now) w).executions kind
            job
          ≡ some x)
        × (x.status ≡ final_status outcome)
        × (x.owner_id ≡ none)
        × (x.finished_at ≡ some now)
        × ((run_steps none (settle_steps kind job outcome now) w).specs kind job ≡ false)
  unfolding run_steps settle_steps finish_execution delete_spec
  settled w kind job returned now e h there same = (
    _,
    executions-update w kind job _ now e there same,
    refl,
    refl,
    refl,
    rw (kind_eq_self kind, str_eq_self job),
  )
  settled w kind job cancelled_job now e h there same = (
    _,
    executions-update (set_resource w kind job _) kind job _ now e (kept w kind job _ e there) same,
    refl,
    refl,
    refl,
    rw (kind_eq_self kind, str_eq_self job),
  )
  settled w kind job cancelled_stopping now e h there same = cc
  settled w response job (raised error) now e h there same = (
    _,
    executions-update w response job _ now e there same,
    refl,
    refl,
    refl,
    rw (str_eq_self job),
  )
  settled w batch job (raised error) now e h there same = (
    _,
    executions-update (set_resource w batch job _) batch job _ now e (kept w batch job _ e there)
        same,
    refl,
    refl,
    refl,
    rw (str_eq_self job),
  )

  -- A job that had its spec, and whose execution is stored, is finished when it ends while the
  -- runner goes on and the store does not raise: its execution has the status of the way in which it ended, the time and no
  -- owner, and its spec is gone.
  pub executions-run_job :
      (cfg : Settings) (w work : World X) (kind : Kind) (job missing : Str) (outcome : Outcome)
      (now : ℕ) (e : Execution X)
      → w.specs kind job ≡ true
      → is_settled outcome ≡ true
      → work.executions kind job ≡ some e
      → e.job_id ≡ job
      → let w' = run_job cfg w kind job missing work outcome none now in
        (x : Execution X) × (w'.executions kind job ≡ some x)
        × (x.status ≡ final_status outcome)
        × (x.owner_id ≡ none)
        × (x.finished_at ≡ some now)
        × (w'.specs kind job ≡ false)
  unfolding run_job
  executions-run_job cfg w work kind job missing outcome now e spec h there same =
      let w1 = run_steps none (settle_steps kind job outcome now) work in
      let frame = frame-release w1 kind job cfg.owner in
      let (x, stored, status, owner, finished, gone) =
        settled work kind job outcome now e h there same in
      (x, rw spec (rw frame.0 stored), status, owner, finished, rw spec (rw frame.1 gone))

  -- A job that had its spec and whose work is cancelled because the runner stops keeps its
  -- execution and its spec, and its stored response or batch, so that `_release_owned_work` can
  -- hand it back.
  pub run_job-stopping :
      (cfg : Settings) (w work : World X) (kind : Kind) (job missing : Str) (now : ℕ)
      → w.specs kind job ≡ true
      → let w' = run_job cfg w kind job missing work cancelled_stopping none now in
        (w'.executions ≡ work.executions)
        × (w'.specs ≡ work.specs)
        × (w'.resources ≡ work.resources)
  unfolding run_job run_steps settle_steps
  run_job-stopping cfg w work kind job missing now spec =
      let frame = frame-release work kind job cfg.owner in rw spec (frame.0, frame.1, frame.2)
