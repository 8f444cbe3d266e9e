-- ===== src/Api/Locking.antt =====
-- What LOCK and UNLOCK of a project's state answer.
use mathlib.Core.List.{Memᴰ}
use openenvx_cloud.Prelude.{
  ◌≡◌, refl, ◌⊎◌, inl, inr, String, true, false, [], ◌∷◌, arith, any, eq_iff,
}
use openenvx_cloud.Models.{planning, applying, status_in, JobRow, Job}
use openenvx_cloud.World.{ok, World, Env, up, attempt, ◌>>=◌, rewrap_result}
use openenvx_cloud.World.Calls.{statement-up}
use openenvx_cloud.Db.Updates.{IsWellFormed, any-true}
use openenvx_cloud.Db.Claims.{IsScan, HasLabels}
use openenvx_cloud.Db.Jobs.{
  is_active, active_statuses, select_active, get_active_job_for_project, unless_no_rows,
}
use openenvx_cloud.Db.Lookup.{IsFound, select_active-cases}
use openenvx_cloud.Db.Answers.{current}
use openenvx_cloud.Api.Reply.{plain, locked}
use openenvx_cloud.Api.Projects.{handle_lock_project_state, lock_reply}

module _ (env : Env) (scans : IsScan env) (w : World) (answered : env.link w.tick ≡ up)
    (labels : HasLabels env active_statuses) (wf : IsWellFormed (current env w)) where
  -- Where the database answers and the tables meet their constraints, LOCK changes no table and
  -- answers 200 if no job of the project is PENDING_PLAN, PLANNING, PLANNED, APPROVED or APPLYING, and
  -- otherwise 423 with the id of such a job of the project.
  pub lock-cases :
      (project_id : String)
      → let out = handle_lock_project_state env project_id w in
        (out.1.db ≡ current env w)
        × (((any (is_active project_id) (current env w).jobs ≡ false) × (out.0 ≡ ok (plain 200)))
            ⊎ ((job : Job) × IsFound (is_active project_id) (current env w) job
                × (out.0 ≡ ok (record { code = 423; body = locked "Project is locked" job.id }))))
  unfolding handle_lock_project_state get_active_job_for_project attempt ◌>>=◌ lock_reply
      rewrap_result
  lock-cases project_id =
      rw
        (statement-up env (unless_no_rows "get active job") (select_active env project_id) w
          answered)
        (elim (select_active-cases env scans w.tick (current env w) wf project_id labels) [
          | inl (h, e) ↦ rw e (refl, inl (h, refl))
          | inr (job, f, h, e) ↦ rw e (refl, inr (job, f, refl))
        ])

  -- While a job is PLANNING or APPLYING, which is while a worker runs Terraform for it, LOCK of its
  -- project answers 423.
  pub lock_while_running :
      (r : JobRow)
      → Memᴰ r (current env w).jobs
      → status_in r.status (planning ∷ applying ∷ []) ≡ true
      → (id : String) × ((handle_lock_project_state env r.project_id w).0
          ≡ ok (record { code = 423; body = locked "Project is locked" id }))
  lock_while_running r m s = elim (lock-cases r.project_id).1 [
    | inl (h, e) ↦
        let found : any (is_active r.project_id) (current env w).jobs ≡ true =
          any-true (is_active r.project_id) (current env w).jobs m active in
        cc
    | inr (job, f, e) ↦ (job.id, e)
  ]
    where
      active : is_active r.project_id r ≡ true
      active = ground (arith, eq_iff r.project_id r.project_id)
