-- ===== src/Jobs/Tasks/HandBack.antt =====
-- What a stopping runner does with the jobs that it runs: `_release_owned_work`.
use vfront.Common.{
  ℕ, true, ◌&&◌, none, some, ◌≡◌, refl, ◌∙◌, inl, inr, Bool-cases, if◌then◌else◌, arith,
}
use vfront.Jobs.Lease.{may_release}
use vfront.Jobs.Executions.{Execution, queued, cancelled}
use vfront.Jobs.World.{
  Kind, cancelled_at, stamp, World, Settings, or_now, is_running, owned_by, update_execution,
  release_lease, delete_spec, set_resource,
}
use vfront.Jobs.World.Laws.{
  executions-update, frame-update, frame-set_resource, leases-release, frame-release,
}
use vfront.Jobs.Tasks.{hand_back}
use vfront.Jobs.Tasks.Outcomes.{kept}

module _ {X : Type 0} where
  handed_back :
      (cfg : Settings) (w w1 : World X) (kind : Kind) (now : ℕ) (e : Execution X)
      (updates : Execution X → Execution X)
      → w1.executions kind e.job_id ≡ some e
      → w1.leases ≡ w.leases
      → (updates e).job_id ≡ e.job_id
      → (updates e).owner_id ≡ none
      → let w' =
          release_lease (update_execution w1 kind e.job_id updates now) kind e.job_id cfg.owner in
        (x : Execution X) × (w'.executions kind e.job_id ≡ some x)
        × (x.status ≡ (updates e).status)
        × (x.owner_id ≡ none)
        × (w'.leases kind e.job_id ≡ (
            if may_release (w.leases kind e.job_id) cfg.owner
            then none
            else w.leases kind e.job_id))
  handed_back cfg w w1 kind now e updates there leases same owner =
      let w2 = update_execution w1 kind e.job_id updates now in
      (
        record (updates e) { updated_at = now },
        rw (frame-release w2 kind e.job_id cfg.owner).0
            (executions-update w1 kind e.job_id updates now e there same),
        refl,
        owner,
        leases-release w2 kind e.job_id cfg.owner
            ∙ rw ((frame-update w1 kind e.job_id updates now).0, leases),
      )

  -- A stopping runner hands back each stored execution that it runs: the execution is queued again,
  -- or cancelled if that was asked for; it has no owner, and the lease is given back. Executions
  -- that it does not run are left alone.
  pub hand_back_lem :
      (cfg : Settings) (w : World X) (kind : Kind) (now : ℕ) (e : Execution X)
      → w.executions kind e.job_id ≡ some e
      → let mine = owned_by e.owner_id cfg.owner && is_running e.status in
        let w' = hand_back cfg w kind now e in
        if mine
        then ((x : Execution X) × (w'.executions kind e.job_id ≡ some x)
            × (x.status ≡ (if e.cancel_requested then cancelled else queued))
            × (x.owner_id ≡ none)
            × (w'.leases kind e.job_id ≡ (
                if may_release (w.leases kind e.job_id) cfg.owner
                then none
                else w.leases kind e.job_id)))
        else w' ≡ w
  unfolding hand_back
  hand_back_lem cfg w kind now e there =
      elim (Bool-cases (owned_by e.owner_id cfg.owner && is_running e.status)) [
        | inr other ↦ rw other (ground arith)
        | inl mine ↦
            let both : (owned_by e.owner_id cfg.owner ≡ true) × (is_running e.status ≡ true) =
              ground arith in
            rw (both.0, both.1)
              (elim (Bool-cases e.cancel_requested) [
                | inl asked ↦ rw asked (
                    handed_back cfg w
                      (delete_spec
                        (set_resource w kind e.job_id
                          (cancelled_at (stamp kind (or_now e.finished_at now))))
                        kind e.job_id)
                      kind now e _ (unfold delete_spec in kept w kind e.job_id _ e there)
                      (unfold delete_spec in (frame-set_resource w kind e.job_id _).0) refl refl)
                | inr going ↦ rw going (handed_back cfg w w kind now e _ there refl refl refl)
              ])
      ]
