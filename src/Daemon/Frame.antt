-- ===== src/Daemon/Frame.antt =====
-- Through which calls a worker writes the tables and the bucket while it processes a job: what those
-- calls keep, the whole job keeps, on every path, errors included.
use openenvx_cloud.Prelude.{
  ◌≡◌, ◌≢◌, refl, inl, inr, String, Bool, List, [], ◌∷◌, Option-cases, none, some,
}
use openenvx_cloud.Models.{planned, applied, failed, Bytes, Job}
use openenvx_cloud.World.{Db, World, Env, M, ◌>>=◌}
use openenvx_cloud.World.Keeps.{
  Claim, StableTables, StableBucket, Keeps, Keeps-pure, Keeps-rewrap, Keeps-if, Keeps-statement,
  Keeps-host_call, Keeps-bind, ◌⊳◌, keeps_rules,
}
use openenvx_cloud.Db.Jobs.{get_job, update_job_summary, update_job_plan_result, update_job_status}
use openenvx_cloud.Daemon.Worker.{run_log}
use openenvx_cloud.Db.Queue.{promote_next_job}
use openenvx_cloud.Storage.{upload}
use openenvx_cloud.Storage.Keeps.{download-Keeps}
use openenvx_cloud.Terraform.{Host, HookRun}
use openenvx_cloud.Terraform.Keeps.{write_file-Keeps, plan-Keeps, apply-Keeps, show-Keeps}
use openenvx_cloud.Daemon.Hooks.{
  after_hook, run_hook, run_hooks, with_hooks, with_cancellation_check,
}
use openenvx_cloud.Daemon.Handlers.{
  plan_object, read_plan, copy_plan, store_plan, plan_command, handle_plan, apply_command,
  handle_apply, handle_destroy,
}

-- The calls by which a worker writes the tables and the bucket for a job, and that they keep `P`, as
-- others do. A plan is uploaded for an operation other than `apply` alone.
pub record KeepsWrites (env : Env) (host : Host) (P : Claim) (job : Job) : Type 0 where
  pub stable : StableTables env P
  pub stable_bucket : StableBucket env P
  pub bucket_made : (d : Db) → P d none → P d (some [])
  pub plan_upload :
      job.operation ≢ "apply"
      → (content : Bytes)
      → Keeps P (upload env (plan_object job.id) content "application/octet-stream")
  pub log_upload : (log : Bytes) → Keeps P (upload env (run_log job.id) log "text/plain")
  pub plan_result : (path : String) (s : Bytes) → Keeps P (update_job_plan_result env job.id path s)
  pub summary : (s : Bytes) → Keeps P (update_job_summary env job.id s)
  pub to_planned : Keeps P (update_job_status env job.id planned)
  pub applying : job.operation ≡ "apply" → Keeps P (handle_apply env host job)
  pub to_failed : Keeps P (update_job_status env job.id failed)
  pub promotion : Keeps P (promote_next_job env job.project_id)

module _ (env : Env) {P : Claim} where
  pub get_job-Keeps : StableTables env P → (id : String) → Keeps P (get_job env id)
  unfolding get_job
  get_job-Keeps stable id = Keeps-rewrap _ _ (Keeps-statement env _ stable (λ t d b h. h))

module _ (host : Host) {P : Claim} where
  plan_command-Keeps :
      (env : Env) (destroy : Bool) (label : String) → Keeps P (plan_command env host destroy label)
  unfolding plan_command
  plan_command-Keeps env destroy label = search (keeps_rules, plan-Keeps)

  apply_command-Keeps : (env : Env) → Keeps P (apply_command env host)
  unfolding apply_command
  apply_command-Keeps env = search (keeps_rules, apply-Keeps)

bucket-after_hook :
    (id : String) (hook : Bytes) (run : HookRun) (w : World)
    → (after_hook id hook run w).1.bucket ≡ w.bucket
unfolding after_hook
bucket-after_hook id hook run w = elim (Option-cases run.unstarted) [
  | inl e ↦ rw e refl
  | inr (s, e) ↦ rw e refl
]

module _ (env : Env) (host : Host) {P : Claim} where
  read_plan-Keeps : Keeps P (read_plan env host)
  unfolding read_plan
  read_plan-Keeps =
      Keeps-host_call _
        λ t w. elim (Option-cases (host.os t)) [ inl e ↦ rw e refl | inr (s, e) ↦ rw e refl ]

  run_hooks-Keeps : (id : String) (hooks : List Bytes) → Keeps P (run_hooks env host id hooks)
  unfolding run_hooks run_hook
  run_hooks-Keeps id [] = Keeps-pure tt
  run_hooks-Keeps id (hook ∷ hooks) =
      Keeps-host_call _ (λ t w. bucket-after_hook id hook (host.hook t hook w.work_dir) w) ⊳ λ _.
      run_hooks-Keeps id hooks

  with_hooks-Keeps :
      (id : String) (pre post : List Bytes) (next : M (Unit {0}))
      → Keeps P next
      → Keeps P (with_hooks env host id pre post next)
  unfolding with_hooks
  with_hooks-Keeps id pre post next k =
      run_hooks-Keeps id pre ⊳ λ _. k ⊳ λ _. run_hooks-Keeps id post

  with_cancellation_check-Keeps :
      StableTables env P
      → (id : String) (next : M (Unit {0})) → Keeps P next
      → Keeps P (with_cancellation_check env host id next)
  unfolding with_cancellation_check
  with_cancellation_check-Keeps stable id next k = k ⊳ λ _.
      Keeps-rewrap _ _ (get_job-Keeps env stable id) ⊳ λ _.
      Keeps-if _ _ _ (Keeps-pure tt) (Keeps-pure tt)

  -- An apply keeps what its three parts beside the hooks and the tools keep.
  pub handle_apply-Keeps :
      (job : Job)
      → StableTables env P
      → StableBucket env P
      → Keeps P (update_job_status env job.id applied)
      → Keeps P (handle_apply env host job)
  unfolding handle_apply copy_plan
  handle_apply-Keeps job stable stable_bucket to_applied =
      Keeps-rewrap _ _ (download-Keeps env stable_bucket _) ⊳ λ rc.
      Keeps-rewrap _ _ (write_file-Keeps host _ _) ⊳ λ _.
      Keeps-rewrap _ _ (write_file-Keeps host _ _ ⊳ λ _. Keeps-host_call _ (λ t w. refl)) ⊳ λ _.
      with_hooks-Keeps _ _ _ _
        (with_cancellation_check-Keeps stable _ _ (apply_command-Keeps host env))
      ⊳ λ _. Keeps-rewrap _ _ to_applied

module _ (env : Env) (host : Host) {P : Claim} (job : Job) (writes : KeepsWrites env host P job)
    (not_apply : job.operation ≢ "apply") where
  store_plan-Keeps : (label : String) → Keeps P (store_plan env host label job)
  unfolding store_plan
  store_plan-Keeps label = Keeps-rewrap _ _ (show-Keeps host) ⊳ λ summary.
      Keeps-rewrap _ _ (read_plan-Keeps env host) ⊳ λ content.
      Keeps-rewrap _ _ (writes.plan_upload not_apply content) ⊳ λ _.
      Keeps-rewrap _ _ (writes.plan_result _ summary) ⊳ λ _. Keeps-rewrap _ _ writes.to_planned

  planned-Keeps :
      (pre post : List Bytes) (destroy : Bool) (label stored : String)
      → Keeps P (
          with_hooks env host job.id pre post
            (with_cancellation_check env host job.id (plan_command env host destroy label))
          >>= λ _. store_plan env host stored job)
  planned-Keeps pre post destroy label stored =
      Keeps-bind _ _
        (with_hooks-Keeps env host _ _ _ _ (
          with_cancellation_check-Keeps env host writes.stable _ _
            (plan_command-Keeps host env destroy label)))
        (λ _. store_plan-Keeps stored)

  pub handle_plan-Keeps : Keeps P (handle_plan env host job)
  unfolding handle_plan
  handle_plan-Keeps = planned-Keeps _ _ _ _ _

  pub handle_destroy-Keeps : Keeps P (handle_destroy env host job)
  unfolding handle_destroy
  handle_destroy-Keeps = planned-Keeps _ _ _ _ _
