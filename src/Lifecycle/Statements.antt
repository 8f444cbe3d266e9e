-- ===== src/Lifecycle/Statements.antt =====
-- Every method of the store keeps the invariant of the tables.
use mathlib.Core.List.{Memᴰ}
use openenvx_cloud.Prelude.{
  ℕ, ◌≡◌, refl, sym, subst, inl, inr, String, true, List, [], ◌∷◌, any, arith, Bool-cases,
  Option-cases, Option, none, some, eq_iff,
}
use openenvx_cloud.Models.{JobStatus, applied, Bytes, JobRow}
use openenvx_cloud.World.{Db, Env}
use openenvx_cloud.World.Keeps.{
  Tables, Keeps, Stable, Keeps-rewrap, Keeps-statement, Keeps-transaction,
}
use openenvx_cloud.Db.Rows.{lookup, has_id}
use openenvx_cloud.Db.Jobs.{
  NewJob, new_row, insert_row, insert_job, create_job, set_status, update_job_status,
  update_job_plan_result, set_plan_result, update_job_summary, set_summary,
}
use openenvx_cloud.Db.Queue.{
  returning, update_next, promote, promote_in, promote_next_job, claim, claim_in, claim_next_job,
  claim_labels, timed_out, fail_in, fail_timed_out_jobs,
}
use openenvx_cloud.Storage.Keeps.{upload-Keeps}
use openenvx_cloud.Lifecycle.Frame.{insert_job-keeps, is_resting, KeepsCalls, with_labels-keeps}
use openenvx_cloud.Lifecycle.Rows.{
  IsLawful, Watch, Holds, SameJob, update_where-Holds, append-Holds,
}

pub resting-IsLawful : (r : JobRow) → is_resting r.status ≡ true → IsLawful r
resting-IsLawful r h = ground arith

-- Fields other than the status and the operation do not matter.
pub same-IsLawful :
    (r s : JobRow) → s.status ≡ r.status → s.operation ≡ r.operation → IsLawful r → IsLawful s
same-IsLawful r s e f l = ground arith

claim-IsLawful : (env : Env) (t : ℕ) (r : JobRow) → IsLawful r → IsLawful (claim env t r)
unfolding claim
claim-IsLawful env t r l =
    ground
      (arith, eq_iff r.operation "plan", eq_iff r.operation "apply", eq_iff r.operation "destroy")

module _ (W : Watch) (env : Env) where
  set_status-Holds :
      (id : String) (s : JobStatus) (t : ℕ) (d : Db)
      → ((r : JobRow)
          → Memᴰ r d.jobs
          → has_id id r ≡ true
          → IsLawful (record r { status = s; updated_at = env.now t }))
      → Holds W d
      → Holds W (set_status env id s t d).1
  unfolding set_status
  set_status-Holds id s t d safe h = with_labels-keeps env (Holds W) (s ∷ []) d _ h (
      update_where-Holds W (has_id id) (λ r. record r { status = s; updated_at = env.now t })
        (record { id = λ r. refl; project_id = λ r. refl; operation = λ r. refl }) d
        (λ r m e l. safe r m e) h)

  update_next-Holds :
      (f : JobRow → JobRow) (o : Option JobRow) (d : Db)
      → SameJob f
      → ((r : JobRow) → IsLawful r → IsLawful (f r))
      → Holds W d
      → Holds W (update_next f o d).1
  unfolding update_next returning
  update_next-Holds f none d same keep h = h
  update_next-Holds f (some r) d same keep h =
      elim (Option-cases (lookup r.project_id d.projects)) [
        | inl e ↦ rw (e, returning) h
        | inr (org, e) ↦
            rw (e, returning) (update_where-Holds W (has_id r.id) f same d (λ x m p l. keep x l) h)
      ]

  insert_row-Holds :
      (r : JobRow) (o : Option String) (d : Db)
      → lookup r.project_id d.projects ≡ o
      → IsLawful r
      → Holds W d
      → Holds W (insert_row r o d).1
  unfolding insert_row
  insert_row-Holds r none d e l h = h
  insert_row-Holds r (some org) d e l h = elim (Bool-cases (any (has_id r.id) d.jobs)) [
    | inl dup ↦ rw dup h
    | inr fresh ↦ rw fresh (append-Holds W r org d fresh e l h)
  ]

module _ (W : Watch) (env : Env) (stable : Stable env (Holds W)) where
  pub update_job_status-Holds :
      (id : String) (s : JobStatus)
      → is_resting s ≡ true
      → Keeps (Tables (Holds W)) (update_job_status env id s)
  unfolding update_job_status
  update_job_status-Holds id s e = Keeps-rewrap _ _ (
      Keeps-statement env (set_status env id s) (λ _. stable)
        λ t d _ h. set_status-Holds W env id s t d (λ r m i. resting-IsLawful _ e) h)

  -- A job that is known to be an `apply` may become APPLIED.
  pub update_applied-Holds :
      (id : String) → W id "apply" → Keeps (Tables (Holds W)) (update_job_status env id applied)
  unfolding update_job_status
  update_applied-Holds id w = Keeps-rewrap _ _ (
      Keeps-statement env (set_status env id applied) (λ _. stable)
        λ t d _ h.
          set_status-Holds W env id applied t d
            (λ r m i.
              let op : r.operation ≡ "apply" =
                h.known r m "apply" (subst (λ x. W x "apply") (sym ((eq_iff r.id id).0 i)) w) in
              applied_lawful t r op)
            h)
    where
      applied_lawful :
          (t : ℕ) (r : JobRow)
          → r.operation ≡ "apply"
          → IsLawful (record r { status = applied; updated_at = env.now t })
      applied_lawful t r op = ground arith

  pub update_job_plan_result-Holds :
      (id path : String) (s : Bytes)
      → Keeps (Tables (Holds W)) (update_job_plan_result env id path s)
  unfolding update_job_plan_result
  update_job_plan_result-Holds id path s = Keeps-rewrap _ _ (
      Keeps-statement env (set_plan_result env id path s) (λ _. stable)
        λ t d _ h.
          update_where-Holds W (has_id id) _
            (record { id = λ r. refl; project_id = λ r. refl; operation = λ r. refl }) d
            (λ r m p l. same-IsLawful r _ refl refl l) h)

  pub update_job_summary-Holds :
      (id : String) (s : Bytes) → Keeps (Tables (Holds W)) (update_job_summary env id s)
  unfolding update_job_summary
  update_job_summary-Holds id s = Keeps-rewrap _ _ (
      Keeps-statement env (set_summary env id s) (λ _. stable)
        λ t d _ h.
          update_where-Holds W (has_id id) _
            (record { id = λ r. refl; project_id = λ r. refl; operation = λ r. refl }) d
            (λ r m p l. same-IsLawful r _ refl refl l) h)

  pub create_job-Holds :
      (n : NewJob) (s : JobStatus)
      → is_resting s ≡ true
      → Keeps (Tables (Holds W)) (create_job env n s)
  unfolding create_job new_row
  create_job-Holds n s e = Keeps-rewrap _ _ (
      Keeps-statement env (insert_job env n s) (λ _. stable)
        λ t d _ h. insert_job-keeps env (Holds W) n s t d h (
          insert_row-Holds W env _ (lookup n.project_id d.projects) d refl (resting-IsLawful _ e)
            h))

  pub promote_next_job-Holds :
      (project_id : String) → Keeps (Tables (Holds W)) (promote_next_job env project_id)
  unfolding promote_next_job
  promote_next_job-Holds project_id =
      Keeps-transaction env _ _ _ (promote_in env project_id) (λ _. stable)
        λ t d _ h. with_labels-keeps env (Holds W) _ d _ h (
          update_next-Holds W env (promote env t) _ d
            (record { id = λ r. refl; project_id = λ r. refl; operation = λ r. refl })
            (λ r l. resting-IsLawful _ refl) h)

  pub claim_next_job-Holds :
      (statuses : List JobStatus) → Keeps (Tables (Holds W)) (claim_next_job env statuses)
  unfolding claim_next_job
  claim_next_job-Holds statuses =
      Keeps-transaction env _ _ _ (claim_in env statuses) (λ _. stable)
        λ t d _ h. with_labels-keeps env (Holds W) statuses d _ h (
          with_labels-keeps env (Holds W) claim_labels d _ h (
            update_next-Holds W env (claim env t) _ d
              (record { id = λ r. refl; project_id = λ r. refl; operation = λ r. refl })
              (claim-IsLawful env t) h))

  pub fail_timed_out_jobs-Holds :
      (timeout : ℕ) → Keeps (Tables (Holds W)) (fail_timed_out_jobs env timeout)
  unfolding fail_timed_out_jobs
  fail_timed_out_jobs-Holds timeout = Keeps-rewrap _ _ (
      Keeps-statement env (fail_in env timeout) (λ _. stable)
        λ t d _ h. with_labels-keeps env (Holds W) _ d _ h (
          update_where-Holds W (timed_out env timeout t) _
            (record { id = λ r. refl; project_id = λ r. refl; operation = λ r. refl }) d
            (λ r m p l. resting-IsLawful _ refl) h))

  -- The interface that requests, workers and the timer need, filled for the invariant.
  pub Holds-calls : KeepsCalls env (Tables (Holds W))
  Holds-calls = record {
    stable = λ _. stable;
    stable_bucket = λ t d b h. h;
    bucket_made = λ d h. h;
    state_upload = λ id content. upload-Keeps env _ _ _ (λ t d b h. h) (λ d o m h. h);
    log_upload = λ id log. upload-Keeps env _ _ _ (λ t d b h. h) (λ d o m h. h);
    status = update_job_status-Holds;
    plan_result = update_job_plan_result-Holds;
    summary = update_job_summary-Holds;
    creation = create_job-Holds;
    promotion = promote_next_job-Holds;
    claiming = claim_next_job-Holds;
    timeouts = fail_timed_out_jobs-Holds;
  }
