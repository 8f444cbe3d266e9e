-- ===== src/Api/Review.antt =====
-- What approving and discarding a job answer and write.
use mathlib.Core.List.{Memᴰ}
use openenvx_cloud.Prelude.{
  suc, ◌≡◌, refl, ◌⊎◌, inl, inr, String, true, false, some, Bool-cases, ◌<>◌,
}
use openenvx_cloud.Models.{planned, approved, cancelled, status_eq, status_in, JobRow}
use openenvx_cloud.World.{ok, Db, World, Env, up, attempt, ◌>>=◌}
use openenvx_cloud.Db.Rows.{lookup}
use openenvx_cloud.Db.Updates.{IsWellFormed}
use openenvx_cloud.Db.Claims.{IsScan}
use openenvx_cloud.Api.Reply.{plain, failure, job}
use openenvx_cloud.Api.Jobs.{
  handle_approve_job, approve_found, handle_discard_job, discard_found, undiscardable, status_text,
}
use openenvx_cloud.Db.Answers.{current, called, with_status, get_job-row, update_job_status-up}

module _ (env : Env) (scans : IsScan env) (w : World) (answered : env.link w.tick ≡ up)
    (answered' : env.link (suc w.tick) ≡ up) (wf : IsWellFormed (current env w)) where
  -- The tables when the second call is made: others may have written since the first.
  abbrev pub later : Db
  later = env.others (suc w.tick) (current env w)

  -- Where the database answers: approving a job that is there answers 400 and changes nothing unless
  -- the job was PLANNED when it was read; then it answers 200 with the job as APPROVED, and the row
  -- with that id, and no other, becomes APPROVED, whatever others have made of it in between.
  pub approve_lem :
      (r : JobRow)
      → Memᴰ r (current env w).jobs
      → (org : String) → lookup r.project_id (current env w).projects ≡ some org
      → env.has_label approved ≡ true
      → let out = handle_approve_job env r.id w in
        ((status_eq r.status planned ≡ false)
          × (out.0 ≡ ok (failure 400 "Job is not in PLANNED status"))
          × (out.1.db ≡ current env w))
        ⊎ ((status_eq r.status planned ≡ true)
            × (out.0
                ≡ ok (record {
                  code = 200;
                  body =
                      job (record { row = record r { status = approved }; organization_id = org });
                }))
            × (out.1.db ≡ with_status env r.id approved (suc w.tick) later))
  unfolding handle_approve_job attempt ◌>>=◌
  approve_lem r m org o labels =
      rw (get_job-row env w answered scans wf r m org o)
        (elim (Bool-cases (status_eq r.status planned)) [
          | inl e ↦
              rw (e, approve_found)
                (rw
                  (update_job_status-up env (called w (current env w)) answered' r.id approved
                    labels)
                  (inr (refl, refl, refl)))
          | inr e ↦ rw (e, approve_found) (inl (refl, refl, refl))
        ])

  -- Where the database answers: discarding a job that is there answers 400 with its status and
  -- changes nothing if the job was APPLYING, APPLIED, FAILED or CANCELLED when it was read; otherwise
  -- it answers 200, and the row with that id, and no other, becomes CANCELLED, whatever others have
  -- made of it in between.
  pub discard_lem :
      (r : JobRow)
      → Memᴰ r (current env w).jobs
      → (org : String) → lookup r.project_id (current env w).projects ≡ some org
      → env.has_label cancelled ≡ true
      → let out = handle_discard_job env r.id w in
        ((status_in r.status undiscardable ≡ true)
          × (out.0
              ≡ ok (
                  failure 400
                    ("Job cannot be discarded in " <> (status_text r.status <> " status"))))
          × (out.1.db ≡ current env w))
        ⊎ ((status_in r.status undiscardable ≡ false)
            × (out.0 ≡ ok (plain 200))
            × (out.1.db ≡ with_status env r.id cancelled (suc w.tick) later))
  unfolding handle_discard_job attempt ◌>>=◌
  discard_lem r m org o labels =
      rw (get_job-row env w answered scans wf r m org o)
        (elim (Bool-cases (status_in r.status undiscardable)) [
          | inl e ↦ rw (e, discard_found) (inl (refl, refl, refl))
          | inr e ↦
              rw (e, discard_found)
                (rw
                  (update_job_status-up env (called w (current env w)) answered' r.id cancelled
                    labels)
                  (inr (refl, refl, refl)))
        ])
