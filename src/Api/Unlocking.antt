-- ===== src/Api/Unlocking.antt =====
-- What UNLOCK of a project's state answers and writes.
use openenvx_cloud.Prelude.{
  suc, ◌≡◌, refl, ◌⊎◌, inl, inr, String, true, false, some, any, ◌<>◌, ◌==◌, Bool-cases,
  if◌then◌else◌,
}
use openenvx_cloud.Models.{cancelled, Job}
use openenvx_cloud.World.{
  ok, err, fault, raise, Db, World, Env, up, attempt, ◌>>=◌, rewrap_result, rewrap,
}
use openenvx_cloud.World.Calls.{statement-up}
use openenvx_cloud.Db.Updates.{IsWellFormed}
use openenvx_cloud.Db.Claims.{IsScan, HasLabels}
use openenvx_cloud.Db.Jobs.{
  is_active, active_statuses, select_active, get_active_job_for_project, unless_no_rows,
}
use openenvx_cloud.Db.Projects.{unlock_project_state, unlock_active, cancel_if_lock}
use openenvx_cloud.Db.Lookup.{IsFound, select_active-cases}
use openenvx_cloud.Db.Answers.{current, called, with_status, update_job_status-up}
use openenvx_cloud.Api.Reply.{plain, failure}
use openenvx_cloud.Api.Projects.{handle_unlock_project_state, unlock_reply, error_text}

module _ (env : Env) (scans : IsScan env) (w : World) (answered : env.link w.tick ≡ up)
    (answered' : env.link (suc w.tick) ≡ up) (labels : HasLabels env active_statuses)
    (labelled : env.has_label cancelled ≡ true) (wf : IsWellFormed (current env w)) where
  -- The tables when the second call is made: others may have written since the first.
  abbrev pub later : Db
  later = env.others (suc w.tick) (current env w)

  cancel-same :
      (job : Job) (lock : String)
      → (job.id == lock) ≡ true
      → cancel_if_lock env lock job (called w (current env w)) ≡ (
        ok tt,
        called (called w (current env w)) (with_status env job.id cancelled (suc w.tick) later),
      )
  unfolding cancel_if_lock rewrap rewrap_result
  cancel-same job lock e = rw e (
      rw (update_job_status-up env (called w (current env w)) answered' job.id cancelled labelled)
        refl)

  cancel-other :
      (job : Job) (lock : String)
      → (job.id == lock) ≡ false
      → cancel_if_lock env lock job (called w (current env w)) ≡ (
        err (fault ("lock ID mismatch: expected " <> (job.id <> (", got " <> lock)))),
        called w (current env w),
      )
  unfolding cancel_if_lock raise
  cancel-other job lock e = rw e refl

  -- Where the database answers and the tables meet their constraints, UNLOCK with the id of a lock
  -- answers 200 and changes nothing if no job of the project is PENDING_PLAN, PLANNING, PLANNED,
  -- APPROVED or APPLYING; otherwise such a job of the project is found: if it has the id, the answer is
  -- 200 and the row with that id, and no other, becomes CANCELLED, whatever others have made of it in
  -- between; if not, the answer is 500 with the two ids, and nothing changes.
  pub unlock-cases :
      (project_id id query_id : String)
      → let lock = if id == "" then query_id else id in
        let out = handle_unlock_project_state env project_id (some id) query_id w in
        ((any (is_active project_id) (current env w).jobs ≡ false)
          × (out.0 ≡ ok (plain 200))
          × (out.1.db ≡ current env w))
        ⊎ ((job : Job) × IsFound (is_active project_id) (current env w) job
            × (((job.id == lock ≡ true)
                  × (out.0 ≡ ok (plain 200))
                  × (out.1.db ≡ with_status env job.id cancelled (suc w.tick) later))
                ⊎ ((job.id == lock ≡ false)
                    × (out.0
                        ≡ ok (
                            failure 500
                              ("lock ID mismatch: expected " <> (job.id <> (", got " <> lock)))))
                    × (out.1.db ≡ current env w))))
  unfolding handle_unlock_project_state unlock_project_state get_active_job_for_project attempt
      ◌>>=◌ rewrap_result unlock_active unlock_reply error_text
  unlock-cases project_id id query_id =
      let lock = if id == "" then query_id else id in
      rw
        (statement-up env (unless_no_rows "get active job") (select_active env project_id) w
          answered)
        (elim (select_active-cases env scans w.tick (current env w) wf project_id labels) [
          | inl (h, e) ↦ rw e (inl (h, refl, refl))
          | inr (job, f, h, e) ↦ rw e (elim (Bool-cases (job.id == lock)) [
            | inl q ↦ rw (cancel-same job lock q) (inr (job, f, inl (q, refl, refl)))
            | inr q ↦ rw (cancel-other job lock q) (inr (job, f, inr (q, refl, refl)))
          ])
        ])
