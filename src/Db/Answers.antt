-- ===== src/Db/Answers.antt =====
-- What the methods of the store return where the database answers.
use mathlib.Core.List.{Memᴰ}
use openenvx_cloud.Prelude.{
  Bool-cases, inl, inr, ℕ, suc, ◌≡◌, refl, ◌∙◌, ap, String, Bool, true, false, [], ◌∷◌, some, any,
  ◌++◌,
}
use openenvx_cloud.Models.{JobStatus, JobRow, Job}
use openenvx_cloud.World.{
  Error, Result, ok, err, wrap, Db, World, Env, Link, up, lost, lost_after, rewrap_result, rewrap,
  statement, answer,
}
use openenvx_cloud.World.Calls.{statement-up}
use openenvx_cloud.Db.Rows.{has_id, lookup, update_where, with_labels}
use openenvx_cloud.Db.Updates.{IsWellFormed}
use openenvx_cloud.Db.Claims.{IsScan, HasLabels, with_labels_lem}
use openenvx_cloud.Db.Jobs.{
  select_by_id, get_job, set_status, update_job_status, NewJob, new_row, not_null, is_accepted,
  insert_row, insert_job, create_job, unless_no_rows,
}
use openenvx_cloud.Db.Projects.{
  is_unfinished, final_statuses, exists_unfinished, is_project_active, exists_member,
  verify_user_and_org,
}
use openenvx_cloud.Db.Lookup.{select_by_id-row}

-- The tables as they are when the next call is made.
abbrev pub current : Env → World → Db
current env w = env.others w.tick w.db

-- The world after a call that leaves the tables as `d`.
abbrev pub called : World → Db → World
called w d = record w { db = d; tick = suc w.tick }

-- The tables after the row with this id is given a status by the call with this number.
abbrev pub with_status : Env → String → JobStatus → ℕ → Db → Db
with_status env id s t d = record d {
  jobs = update_where (has_id id) (λ r. record r { status = s; updated_at = env.now t }) d.jobs;
}

accept {ℓ} : {A : Type ℓ} (b : Bool) (d : Db) (r : Result A × Db) → b ≡ true → not_null b d r ≡ r
unfolding not_null
accept b d r e = rw e refl

insert_job-ok :
    (env : Env) (n : NewJob) (s : JobStatus) (t : ℕ) (d : Db) (org : String)
    → env.has_label s ≡ true
    → is_accepted env n ≡ true
    → lookup n.project_id d.projects ≡ some org
    → any (has_id (env.new_id t)) d.jobs ≡ false
    → let row = new_row n s (env.new_id t) (env.now t) in
      insert_job env n s t d
      ≡ (ok (record { row = row; organization_id = org }), record d { jobs = d.jobs ++ row ∷ [] })
unfolding insert_job
insert_job-ok env n s t d org labelled given o fresh =
    with_labels_lem env (s ∷ []) d _ (labelled, tt)
    ∙ accept _ _ _ given
    ∙ rw o (rw (fresh, insert_row) refl)

module _ (env : Env) (w : World) (answered : env.link w.tick ≡ up) where
  pub get_job-row :
      IsScan env
      → IsWellFormed (current env w)
      → (r : JobRow) → Memᴰ r (current env w).jobs
      → (org : String) → lookup r.project_id (current env w).projects ≡ some org
      → get_job env r.id w
        ≡ (ok (record { row = r; organization_id = org }), called w (current env w))
  unfolding get_job rewrap_result
  get_job-row scans wf r m org o =
      statement-up env (wrap "get job") (select_by_id env r.id) w answered
      ∙ ap (λ (x : Result Job × Db). (rewrap_result (wrap "get job") x.0, called w x.1))
          (select_by_id-row env scans w.tick (current env w) wf r m org o)

  pub update_job_status-up :
      (id : String) (s : JobStatus)
      → env.has_label s ≡ true
      → update_job_status env id s w
        ≡ (ok tt, called w (with_status env id s w.tick (current env w)))
  unfolding update_job_status rewrap_result set_status
  update_job_status-up id s labelled =
      statement-up env (wrap "update job status") (set_status env id s) w answered
      ∙ ap
          (λ (x : Result (Unit {0}) × Db).
            (rewrap_result (wrap "update job status") x.0, called w x.1))
          (with_labels_lem env (s ∷ []) (current env w) _ (labelled, tt))

  pub is_project_active-up :
      (project_id : String)
      → HasLabels env final_statuses
      → is_project_active env project_id w
        ≡ (ok (any (is_unfinished project_id) (current env w).jobs), called w (current env w))
  unfolding is_project_active rewrap_result exists_unfinished
  is_project_active-up project_id labels =
      statement-up env (wrap "check project active") (exists_unfinished env project_id) w answered
      ∙ ap
          (λ (x : Result Bool × Db).
            (rewrap_result (wrap "check project active") x.0, called w x.1))
          (with_labels_lem env final_statuses (current env w) _ labels)

  pub verify_user_and_org-up :
      (user org : String)
      → verify_user_and_org env user org w
        ≡ ((exists_member env user org w.tick (current env w)).0, called w (current env w))
  unfolding verify_user_and_org rewrap_result exists_member
  verify_user_and_org-up user org =
      statement-up env (wrap "verify user and org") (exists_member env user org) w answered

  -- INSERT of a job into a project that is there, under an id that no job has.
  pub create_job-up :
      (n : NewJob) (s : JobStatus) (org : String)
      → env.has_label s ≡ true
      → is_accepted env n ≡ true
      → lookup n.project_id (current env w).projects ≡ some org
      → any (has_id (env.new_id w.tick)) (current env w).jobs ≡ false
      → let row = new_row n s (env.new_id w.tick) (env.now w.tick) in
        create_job env n s w ≡ (
          ok (record { row = row; organization_id = org }),
          called w (record (current env w) { jobs = (current env w).jobs ++ row ∷ [] }),
        )
  unfolding create_job rewrap_result insert_job
  create_job-up n s org labelled given o fresh =
      statement-up env (unless_no_rows "create job") (insert_job env n s) w answered
      ∙ ap
          (λ (x : Result Job × Db). (rewrap_result (unless_no_rows "create job") x.0, called w x.1))
          (insert_job-ok env n s w.tick (current env w) org labelled given o fresh)

-- Every time the INSERT of this job is tried, it is refused.
abbrev pub IsRefused : Env → NewJob → JobStatus → Type 0
IsRefused env n s = (t : ℕ) (d : Db) → (e : Error) × (insert_job env n s t d ≡ (err e, d))

pub unlabelled-IsRefused :
    (env : Env) (n : NewJob) (s : JobStatus) → env.has_label s ≡ false → IsRefused env n s
unfolding insert_job with_labels
unlabelled-IsRefused env n s missing t d = rw missing (_, refl)

refuse {ℓ} :
    {A : Type ℓ} (b : Bool) (d : Db) (r : Result A × Db)
    → b ≡ false
    → (e : Error) × (not_null b d r ≡ (err e, d))
unfolding not_null
refuse b d r e = rw e (_, refl)

pub null-IsRefused :
    (env : Env) (n : NewJob) (s : JobStatus) → is_accepted env n ≡ false → IsRefused env n s
unfolding insert_job with_labels
null-IsRefused env n s missing t d = elim (Bool-cases (env.has_label s)) [
  | inl e ↦ rw e (refuse _ d _ missing)
  | inr e ↦ rw e (_, refl)
]

-- However the call fares, a job that is refused is not added.
pub create_job-refused :
    (env : Env) (n : NewJob) (s : JobStatus) (w : World) (l : Link)
    → env.link w.tick ≡ l
    → IsRefused env n s
    → ((e : Error) × ((create_job env n s w).0 ≡ err e))
      × ((create_job env n s w).1.db ≡ current env w)
unfolding create_job rewrap rewrap_result statement answer
create_job-refused env n s w up e refused =
    let (x, q) = refused w.tick (current env w) in rw (e, answer) (rw q ((_, refl), refl))
create_job-refused env n s w lost e refused = rw (e, answer) ((_, refl), refl)
create_job-refused env n s w lost_after e refused =
    let (x, q) = refused w.tick (current env w) in rw (e, answer) (rw q ((_, refl), refl))
