-- ===== src/Daemon/Planning/Completion.antt =====
-- With tools and services that work, a plan is made and stored.
use openenvx_cloud.Prelude.{◌≡◌, true, false, []}
use openenvx_cloud.Models.{Job}
use openenvx_cloud.World.{ok, World, Env}
use openenvx_cloud.World.Succeeds.{Succeeds, Succeeds-bind}
use openenvx_cloud.Terraform.{Host}
use openenvx_cloud.Daemon.Handlers.{handle_plan, handle_destroy}
use openenvx_cloud.Daemon.Planning.{IsWorking, LeavePlan, Ready, Finished}
use openenvx_cloud.Daemon.Planning.Steps.{plan_command-Succeeds, checked-Succeeds, hooked-Succeeds}
use openenvx_cloud.Daemon.Planning.Storing.{store_plan-Succeeds}

module _ (env : Env) (host : Host) (working : IsWorking env host) where
  pub handle_plan-Succeeds :
      (job : Job)
      → LeavePlan host job.post_plan
      → Succeeds (Ready job.row) (handle_plan env host job) (λ _. Finished host false job.row)
  unfolding handle_plan
  handle_plan-Succeeds job leave =
      Succeeds-bind
        (hooked-Succeeds env host working false job.row job.pre_plan job.post_plan _ leave (
          checked-Succeeds env host working false job.row _
            (plan_command-Succeeds env host working false job.row "terraform plan failed")))
        λ _. store_plan-Succeeds env host working false job "upload plan"

  handle_destroy-Succeeds :
      (job : Job)
      → Succeeds (Ready job.row) (handle_destroy env host job) (λ _. Finished host true job.row)
  unfolding handle_destroy
  handle_destroy-Succeeds job =
      Succeeds-bind
        (hooked-Succeeds env host working true job.row job.pre_destroy [] _ (λ h m. elim m [ ])
          (checked-Succeeds env host working true job.row _
            (plan_command-Succeeds env host working true job.row "terraform plan -destroy failed")))
        λ _. store_plan-Succeeds env host working true job "upload destroy plan"

  -- Where the database, the storage, the files, Terraform and the hooks work, no hook removes the
  -- working directory, and nobody else writes, and the job is in the table, with a bucket and a
  -- working directory: `handleDestroy` returns no error, and then the bucket holds, under the job's
  -- name for it, a plan that Terraform made with -destroy, and the job is still in the table and is
  -- PLANNED, with that name and a summary.
  pub handle_destroy-Finished :
      (job : Job) (w : World)
      → Ready job.row w
      → let out = handle_destroy env host job w in
        (out.0 ≡ ok tt) × Finished host true job.row out.1
  handle_destroy-Finished job w ready =
      let (u, e, f) = (handle_destroy-Succeeds job).at w ready in (e, f)
