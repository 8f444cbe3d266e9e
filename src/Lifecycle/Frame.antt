-- ===== src/Lifecycle/Frame.antt =====
-- The calls by which the orchestrator writes the tables and the bucket, as an interface: what they keep,
-- its requests, workers and timers keep. An apply and the upload of a plan are not among them: a
-- worker makes them for one job.
use openenvx_cloud.Prelude.{
  arith, ℕ, ◌≡◌, ◌≢◌, refl, inl, inr, String, Bool, true, false, List, [], ◌∷◌, Bool-cases, none,
  some,
}
use openenvx_cloud.Models.{
  JobStatus, planned, planning, applying, applied, destroying, destroyed, failed, Bytes, Job,
}
use openenvx_cloud.World.{Result, ok, Db, Env}
use openenvx_cloud.World.Keeps.{
  Claim, StableTables, StableBucket, Keeps, Keeps-rewrap, Keeps-statement,
}
use openenvx_cloud.Db.Rows.{lookup, with_labels}
use openenvx_cloud.Db.Jobs.{
  NewJob, new_row, insert_row, insert_job, not_null, create_job, update_job_status,
  update_job_plan_result, update_job_summary, get_job, get_active_job_for_project,
  fetch_jobs_by_statuses, active_statuses,
}
use openenvx_cloud.Db.Queue.{promote_next_job, claim_next_job, fail_timed_out_jobs}
use openenvx_cloud.Db.Projects.{final_statuses, is_project_active, verify_user_and_org}
use openenvx_cloud.Storage.{get_project_state_path, upload}
use openenvx_cloud.Terraform.{Host}
use openenvx_cloud.Daemon.Handlers.{plan_object, handle_apply}
use openenvx_cloud.Daemon.Worker.{run_log}
use openenvx_cloud.Daemon.Frame.{KeepsWrites}

-- The statuses that say nothing of the operation.
abbrev pub is_resting : JobStatus → Bool
is_resting planning = false
is_resting applying = false
is_resting applied = false
is_resting destroying = false
is_resting destroyed = false
is_resting _ = true

pub record KeepsCalls (env : Env) (P : Claim) : Type 0 where
  pub stable : StableTables env P
  pub stable_bucket : StableBucket env P
  pub bucket_made : (d : Db) → P d none → P d (some [])
  pub state_upload :
      (id : String) (content : Bytes)
      → Keeps P (upload env (get_project_state_path id) content "application/json")
  pub log_upload : (id : String) (log : Bytes) → Keeps P (upload env (run_log id) log "text/plain")
  pub status :
      (id : String) (s : JobStatus) → is_resting s ≡ true → Keeps P (update_job_status env id s)
  pub plan_result : (id path : String) (s : Bytes) → Keeps P (update_job_plan_result env id path s)
  pub summary : (id : String) (s : Bytes) → Keeps P (update_job_summary env id s)
  pub creation : (n : NewJob) (s : JobStatus) → is_resting s ≡ true → Keeps P (create_job env n s)
  pub promotion : (project_id : String) → Keeps P (promote_next_job env project_id)
  pub claiming : (statuses : List JobStatus) → Keeps P (claim_next_job env statuses)
  pub timeouts : (timeout : ℕ) → Keeps P (fail_timed_out_jobs env timeout)

-- With its apply and the upload of its plan, what a worker needs to process a job.
pub calls-KeepsWrites :
    (env : Env) (host : Host) (P : Claim) (job : Job)
    → KeepsCalls env P
    → (job.operation ≢ "apply"
        → (content : Bytes)
        → Keeps P (upload env (plan_object job.id) content "application/octet-stream"))
    → (job.operation ≡ "apply" → Keeps P (handle_apply env host job))
    → KeepsWrites env host P job
calls-KeepsWrites env host P job calls plan_upload applied_kept = record {
  stable = calls.stable;
  stable_bucket = calls.stable_bucket;
  bucket_made = calls.bucket_made;
  plan_upload = plan_upload;
  log_upload = calls.log_upload job.id;
  plan_result = calls.plan_result job.id;
  summary = calls.summary job.id;
  to_planned = calls.status job.id planned refl;
  applying = applied_kept;
  to_failed = calls.status job.id failed refl;
  promotion = calls.promotion job.project_id;
}

module _ (env : Env) (P : Db → Type 0) where
  pub with_labels-keeps {ℓ} :
      {A : Type ℓ} (ss : List JobStatus) (d : Db) (r : Result A × Db)
      → P d
      → P r.1
      → P (with_labels env ss d r).1
  unfolding with_labels
  with_labels-keeps [] d r h k = k
  with_labels-keeps (s ∷ ss) d r h k = elim (Bool-cases (env.has_label s)) [
    | inl e ↦ rw e (with_labels-keeps ss d r h k)
    | inr e ↦ rw e h
  ]

  not_null-keeps {ℓ} :
      {A : Type ℓ} (accepted : Bool) (d : Db) (r : Result A × Db)
      → P d
      → P r.1
      → P (not_null accepted d r).1
  unfolding not_null
  not_null-keeps true d r h k = k
  not_null-keeps false d r h k = h

  pub insert_job-keeps :
      (n : NewJob) (status : JobStatus) (t : ℕ) (d : Db)
      → P d
      → P
          (insert_row
            (new_row n status (env.new_id t) (env.now t))
            (lookup n.project_id d.projects)
            d).1
      → P (insert_job env n status t d).1
  unfolding insert_job
  insert_job-keeps n status t d h k = with_labels-keeps _ d _ h (not_null-keeps _ d _ h k)

pub with_labels-ok {ℓ} :
    {A : Type ℓ} (env : Env) (ss : List JobStatus) (d : Db) (r : Result A × Db) (a : A)
    → (with_labels env ss d r).0 ≡ ok a
    → with_labels env ss d r ≡ r
unfolding with_labels
with_labels-ok env [] d r a e = refl
with_labels-ok env (s ∷ ss) d r a e = ground (arith, with_labels-ok env ss d r a)

-- Reads change nothing.
module _ (env : Env) {P : Claim} (stable : StableTables env P) where
  pub get_job-Keeps : (id : String) → Keeps P (get_job env id)
  unfolding get_job
  get_job-Keeps id = Keeps-rewrap _ _ (Keeps-statement env _ stable (λ t d b h. h))

  pub get_active_job_for_project-Keeps : (id : String) → Keeps P (get_active_job_for_project env id)
  unfolding get_active_job_for_project
  get_active_job_for_project-Keeps id = Keeps-rewrap _ _ (
      Keeps-statement env _ stable
        (λ t d b h. with_labels-keeps env (λ x. P x b) active_statuses d _ h h))

  pub fetch_jobs_by_statuses-Keeps : (ss : List JobStatus) → Keeps P (fetch_jobs_by_statuses env ss)
  unfolding fetch_jobs_by_statuses
  fetch_jobs_by_statuses-Keeps ss =
      Keeps-rewrap _ _
        (Keeps-statement env _ stable (λ t d b h. with_labels-keeps env (λ x. P x b) ss d _ h h))

  pub is_project_active-Keeps : (id : String) → Keeps P (is_project_active env id)
  unfolding is_project_active
  is_project_active-Keeps id = Keeps-rewrap _ _ (
      Keeps-statement env _ stable
        (λ t d b h. with_labels-keeps env (λ x. P x b) final_statuses d _ h h))

  pub verify_user_and_org-Keeps : (user org : String) → Keeps P (verify_user_and_org env user org)
  unfolding verify_user_and_org
  verify_user_and_org-Keeps user org =
      Keeps-rewrap _ _ (Keeps-statement env _ stable (λ t d b h. h))
