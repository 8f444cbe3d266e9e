-- ===== src/Daemon/Handlers.antt =====
-- internal/daemon/worker_handlers.go: what a worker does for each operation.
use openenvx_cloud.Prelude.{
  String, Bool, true, false, List, [], ◌∷◌, none, some, ◌==◌, ◌<>◌, if◌then◌else◌,
}
use openenvx_cloud.Models.{planned, applied, Bytes, Job}
use openenvx_cloud.World.{
  Result, ok, err, fault, wrap, File, text, binary, WorkDir, Env, M, pure, rewrap, host_call, ◌>>=◌,
  ◌>>◌,
}
use openenvx_cloud.Daemon.Interfaces.{store_of, storage_of}
use openenvx_cloud.Storage.{Reader}
use openenvx_cloud.Terraform
use openenvx_cloud.Terraform.{Host, write_file, report}
use openenvx_cloud.Daemon.Hooks.{with_hooks, with_cancellation_check}

abbrev pub plan_object : String → String
plan_object job_id = "jobs/" <> (job_id <> "/tfplan")

unfoldable pub read_in : String → List (String × File) → Result Bytes
read_in name [] = err (fault "no such file")
read_in name ((n, binary b) ∷ fs) = if n == name then ok b else read_in name fs
read_in name ((n, text s) ∷ fs) = read_in name fs

unfoldable pub read_dir : String → WorkDir → Result Bytes
unfolding read_in
read_dir name none = err (fault "no such file")
read_dir name (some fs) = read_in name fs

module _ (env : Env) (host : Host) where
  -- os.ReadFile of the plan.
  unfoldable pub read_plan : M Bytes
  unfolding read_dir
  read_plan = host_call λ t w. elim (host.os t) [
    | none ↦ (read_dir "tfplan" w.work_dir, w)
    | some s ↦ (err (fault s), w)
  ]

  -- The end of `handlePlan` and of `handleDestroy`: show the plan, upload it, store the result.
  unfoldable pub store_plan : String → Job → M (Unit {0})
  unfolding read_plan
  store_plan upload_error job = do
    summary ← rewrap (wrap "terraform show failed") (Terraform.show host)
    content ← rewrap (wrap "read plan file") read_plan
    rewrap (wrap upload_error)
        ((storage_of env).upload (plan_object job.id) content "application/octet-stream")
    rewrap (wrap "update job plan result in db")
        ((store_of env).update_job_plan_result job.id (plan_object job.id) summary)
    rewrap (wrap "update job status to planned") ((store_of env).update_job_status job.id planned)

  unfoldable pub plan_command : Bool → String → M (Unit {0})
  plan_command destroy label = do rewrap (wrap label) (Terraform.plan host destroy); pure tt

  unfoldable pub handle_plan : Job → M (Unit {0})
  unfolding store_plan plan_command
  handle_plan job = do
    with_hooks env host job.id job.pre_plan job.post_plan
        (with_cancellation_check env host job.id (plan_command false "terraform plan failed"))
    store_plan "upload plan" job

  unfoldable pub apply_command : M (Unit {0})
  apply_command = do rewrap (wrap "terraform apply failed") (Terraform.apply host); pure tt

  -- io.Copy of the object into the file.
  unfoldable pub copy_plan : Reader → M (Unit {0})
  unfolding report
  copy_plan rc = do
    write_file host "tfplan" (binary rc.content)
    host_call λ t w. (report rc.broken, w)

  unfoldable pub handle_apply : Job → M (Unit {0})
  unfolding apply_command copy_plan
  handle_apply job = do
    rc ← rewrap (wrap "download plan from storage") ((storage_of env).download (plan_object job.id))
    rewrap (wrap "create local plan file") (write_file host "tfplan" (binary []))
    rewrap (wrap "write plan to local file") (copy_plan rc)
    with_hooks env host job.id job.pre_apply job.post_apply
        (with_cancellation_check env host job.id apply_command)
    rewrap (wrap "update job status to applied") ((store_of env).update_job_status job.id applied)

  unfoldable pub handle_destroy : Job → M (Unit {0})
  unfolding store_plan plan_command
  handle_destroy job = do
    with_hooks env host job.id job.pre_destroy [] (
        with_cancellation_check env host job.id
          (plan_command true "terraform plan -destroy failed"))
    store_plan "upload destroy plan" job
