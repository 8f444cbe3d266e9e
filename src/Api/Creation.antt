-- ===== src/Api/Creation.antt =====
-- What a request for a new job answers and writes.
use openenvx_cloud.Prelude.{suc, ◌≡◌, refl, sym, subst, Bool, true, false, some, any}
use openenvx_cloud.Models.{queued}
use openenvx_cloud.World.{ok, Db, World, Env, up, attempt, ◌>>=◌}
use openenvx_cloud.Db.Claims.{HasLabels}
use openenvx_cloud.Db.Jobs.{NewJob, gives_hooks}
use openenvx_cloud.Db.Projects.{is_unfinished, final_statuses}
use openenvx_cloud.Db.Answers.{
  current, called, is_project_active-up, create_job-refused, IsRefused, unlabelled-IsRefused,
  null-IsRefused,
}
use openenvx_cloud.Api.Reply.{failure}
use openenvx_cloud.Api.Jobs.{handle_create_job, first_status, is_incomplete}

module _ (env : Env) (w : World) (n : NewJob) (complete : is_incomplete n ≡ false)
    (answered : env.link w.tick ≡ up) (labels : HasLabels env final_statuses) where
  -- The tables when the second call is made: others may have written since the first.
  abbrev pub later : Db
  later = env.others (suc w.tick) (current env w)

  -- Whether a job of the project was unfinished when the handler asked.
  abbrev pub was_active : Bool
  was_active = any (is_unfinished n.project_id) (current env w).jobs

  refused :
      IsRefused env n (first_status was_active)
      → let out = handle_create_job env (some n) w in
        (out.0 ≡ ok (failure 500 "Failed to create job")) × (out.1.db ≡ later)
  unfolding handle_create_job attempt ◌>>=◌
  refused r =
      let ((e, failed), kept) =
        create_job-refused env n (first_status was_active) (called w (current env w))
          (env.link (suc w.tick)) refl r in
      rw complete
        (rw (is_project_active-up env w answered n.project_id labels) (rw failed refl, kept))

  -- Where the type `job_status` lacks QUEUED, as it does in the schema of packages/db: a request for a
  -- job in a project with an unfinished job is answered 500, and no job is added.
  pub create_unqueued :
      env.has_label queued ≡ false
      → was_active ≡ true
      → let out = handle_create_job env (some n) w in
        (out.0 ≡ ok (failure 500 "Failed to create job")) × (out.1.db ≡ later)
  create_unqueued missing active = refused (
      subst (λ b. IsRefused env n (first_status b)) (sym active)
        (unlabelled-IsRefused env n queued missing))

  -- Where the database does not take what a nil slice is sent as for a column that is NOT NULL: a request
  -- that leaves out a list of hooks is answered 500, and no job is added.
  pub create_without_hooks :
      env.takes_nil ≡ false
      → gives_hooks n ≡ false
      → let out = handle_create_job env (some n) w in
        (out.0 ≡ ok (failure 500 "Failed to create job")) × (out.1.db ≡ later)
  create_without_hooks strict missing =
      refused (null-IsRefused env n (first_status was_active) (rw strict missing))
