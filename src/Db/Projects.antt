-- ===== src/Db/Projects.antt =====
-- internal/db/queries_projects.go and queries_organizations.go: whether a project is active, the
-- unlocking of its state, and whether a user is a member of an organization.
use openenvx_cloud.Prelude.{
  ℕ, String, Bool, List, [], ◌∷◌, any, ◌==◌, ◌&&◌, not, ◌<>◌, if◌then◌else◌,
}
use openenvx_cloud.Models.{JobStatus, applied, destroyed, failed, cancelled, status_in, JobRow, Job}
use openenvx_cloud.World.{
  Result, ok, err, fault, wrap, Db, Env, M, pure, raise, attempt, rewrap, statement, ◌>>=◌,
  is_no_rows,
}
use openenvx_cloud.Db.Rows.{with_labels}
use openenvx_cloud.Db.Jobs.{get_active_job_for_project, update_job_status}

abbrev pub final_statuses : List JobStatus
final_statuses = applied ∷ destroyed ∷ failed ∷ cancelled ∷ []

abbrev pub is_unfinished : String → JobRow → Bool
is_unfinished project_id r = r.project_id == project_id && not (status_in r.status final_statuses)

module _ (env : Env) where
  unfoldable pub exists_unfinished : String → ℕ → Db → Result Bool × Db
  exists_unfinished project_id t d =
      with_labels env final_statuses d (ok (any (is_unfinished project_id) d.jobs), d)

  unfoldable pub is_project_active : String → M Bool
  unfolding exists_unfinished
  is_project_active project_id =
      rewrap (wrap "check project active") (statement env (exists_unfinished project_id))

  unfoldable pub cancel_if_lock : String → Job → M (Unit {0})
  cancel_if_lock lock_id job =
      if job.id == lock_id
      then rewrap (wrap "cancel job to unlock") (update_job_status env job.id cancelled)
      else raise (fault ("lock ID mismatch: expected " <> (job.id <> (", got " <> lock_id))))

  unfoldable pub unlock_active : String → Result Job → M (Unit {0})
  unfolding cancel_if_lock
  unlock_active lock_id (err e) =
      if is_no_rows e then pure tt else raise (wrap "get active job for unlock" e)
  unlock_active lock_id (ok job) = cancel_if_lock lock_id job

  unfoldable pub unlock_project_state : String → String → M (Unit {0})
  unfolding unlock_active
  unlock_project_state project_id lock_id = do
    found ← attempt (get_active_job_for_project env project_id)
    unlock_active lock_id found

  unfoldable pub exists_member : String → String → ℕ → Db → Result Bool × Db
  exists_member user_id org_id t d = (ok (any (λ m. m.0 == user_id && m.1 == org_id) d.members), d)

  unfoldable pub verify_user_and_org : String → String → M Bool
  unfolding exists_member
  verify_user_and_org user_id org_id =
      rewrap (wrap "verify user and org") (statement env (exists_member user_id org_id))
