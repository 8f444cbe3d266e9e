-- ===== src/Daemon/Planning/Execution.antt =====
-- internal/daemon/worker_execute.go: with tools and services that work, `executeJob` makes and stores
-- the plan.
use openenvx_cloud.Prelude.{ℕ, ◌≡◌, refl, String, true, false, List, ◌==◌, eq_iff}
use openenvx_cloud.Models.{JobRow, Job}
use openenvx_cloud.World.{ok, WorkDir, World, Env}
use openenvx_cloud.World.Succeeds.{
  Succeeds, Succeeds-bind, Succeeds-pure, Succeeds-rewrap, Succeeds-attempt, Succeeds-host_call,
}
use openenvx_cloud.Terraform.{Host, report, write_backend_config}
use openenvx_cloud.Daemon.Execute.{
  waited, dispatch, work, in_work_dir, remove_dir, settled, execute_job,
}
use openenvx_cloud.Daemon.Planning.{IsWorking, LeavePlan, Ready, Finished}
use openenvx_cloud.Daemon.Planning.Preparing.{
  IsEquipped, Claimed, ensure_bucket-Succeeds, secrets-Succeeds, make_dir-Succeeds,
  new_runner-Succeeds, write_file-Succeeds, files-Succeeds, init-Succeeds,
}
use openenvx_cloud.Daemon.Planning.Completion.{handle_plan-Succeeds}

same_Finished :
    (host : Host) {r : JobRow} {w : World} {n : ℕ} {dir : WorkDir}
    → Finished host false r w
    → Finished host false r (record w { tick = n; work_dir = dir })
same_Finished host (content, summary, planned, m) =
    (content, summary, planned, record { stored = m.stored; listed = m.listed; rows = m.rows })

module _ (env : Env) (host : Host) (working : IsWorking env host) (equipped : IsEquipped host)
    (url token : String) (r : JobRow) where
  work-Succeeds :
      (job : Job) (Q : World → Type 0)
      → Succeeds (Ready r) (dispatch env host url token job) (λ _. Q)
      → Succeeds (Ready r) (work env host url token job) (λ _. Q)
  unfolding work write_backend_config
  work-Succeeds job Q s =
      Succeeds-bind
        (Succeeds-rewrap _
          (write_file-Succeeds env host working equipped url token r "backend.tf" _))
        λ _.
          Succeeds-bind
            (Succeeds-rewrap _ (files-Succeeds env host working equipped url token r job))
            λ _.
              Succeeds-bind
                (Succeeds-rewrap _ (init-Succeeds env host working equipped url token r)) λ _. s

  in_work_dir-Succeeds :
      (job : Job) (secrets : List (String × String))
      → Succeeds (Ready r) (dispatch env host url token job) (λ _. Finished host false r)
      → Succeeds (Ready r) (in_work_dir env host url token job secrets) (λ _. Finished host false r)
  unfolding in_work_dir waited report
  in_work_dir-Succeeds job secrets s =
      Succeeds-bind
        (Succeeds-rewrap _ (new_runner-Succeeds env host working equipped url token r _))
        λ _. Succeeds-attempt _ (work-Succeeds job _ s) λ _.
          Succeeds-host_call _
            λ w p. rw (equipped.published w.tick) (tt, refl, same_Finished host p)

  remove_dir-Succeeds :
      Succeeds (Finished host false r) (remove_dir env host url token) (λ _. Finished host false r)
  unfolding remove_dir
  remove_dir-Succeeds = Succeeds-host_call _ λ w p. (tt, refl, same_Finished host p)

  pub execute_job-Succeeds :
      (job : Job)
      → Succeeds (Ready r) (dispatch env host url token job) (λ _. Finished host false r)
      → Succeeds (Claimed r) (execute_job env host url token job) (λ _. Finished host false r)
  unfolding execute_job settled
  execute_job-Succeeds job s =
      Succeeds-bind
        (Succeeds-rewrap _ (ensure_bucket-Succeeds env host working equipped url token r))
        λ _.
          Succeeds-bind
            (Succeeds-rewrap _ (secrets-Succeeds env host working equipped url token r _ _ _))
            λ secrets.
              Succeeds-bind
                (Succeeds-rewrap _ (make_dir-Succeeds env host working equipped url token r))
                λ _.
                  Succeeds-attempt _ (in_work_dir-Succeeds job secrets s)
                    λ _. Succeeds-bind remove_dir-Succeeds λ _. Succeeds-pure tt λ w p. p

module _ (env : Env) (host : Host) (working : IsWorking env host) (equipped : IsEquipped host)
    (url token : String) where
  pub dispatch-plan :
      (job : Job)
      → job.operation ≡ "plan"
      → LeavePlan host job.post_plan
      → Succeeds
          (Ready job.row)
          (dispatch env host url token job)
          (λ _. Finished host false job.row)
  unfolding dispatch
  dispatch-plan job e leave =
      let hit : (job.operation == "plan") ≡ true = (eq_iff job.operation "plan").1 e in
      rw hit (handle_plan-Succeeds env host working job leave)

  -- Where the database, the storage, the store of secrets, the files, Terraform and the hooks work,
  -- no hook removes the working directory, and nobody else writes, and a job with the operation
  -- plan is in the table, whose post-plan hooks leave the plan file as they find it, and there is a
  -- bucket: `executeJob` returns no error; then the bucket holds, under the job's name for it, a
  -- plan that Terraform made without -destroy, and the job is still in the table and is PLANNED,
  -- with that name and a summary.
  pub execute_job-Finished :
      (job : Job) (w : World)
      → job.operation ≡ "plan"
      → LeavePlan host job.post_plan
      → Claimed job.row w
      → let out = execute_job env host url token job w in
        (out.0 ≡ ok tt) × Finished host false job.row out.1
  execute_job-Finished job w e leave p =
      let (u, done, f) =
        (execute_job-Succeeds env host working equipped url token job.row job
            (dispatch-plan job e leave)).at
          w p in
      (done, f)
