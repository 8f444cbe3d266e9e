-- ===== src/Lifecycle/Stuck/Calls.antt =====
-- What the calls of the store and of the storage leave so of a job that is stuck.
use openenvx_cloud.Prelude.{
  ℕ, ◌≡◌, ◌≢◌, refl, sym, ◌∙◌, inl, inr, String, true, List, [], ◌∷◌, any, arith, Bool-cases,
  Option-cases, Option, none, some, eq_iff,
}
use openenvx_cloud.Models.{JobStatus, applied, Bytes, JobRow}
use openenvx_cloud.World.{Db, Bucket, Env}
use openenvx_cloud.World.Keeps.{Keeps, Keeps-rewrap, Keeps-statement, Keeps-transaction}
use openenvx_cloud.Db.Rows.{lookup, has_id}
use openenvx_cloud.Db.Jobs.{
  NewJob, insert_row, insert_job, create_job, new_row, set_status, update_job_status,
  update_job_plan_result, set_plan_result, update_job_summary, set_summary,
}
use openenvx_cloud.Db.Queue.{
  returning, update_next, promote, promote_in, promote_next_job, claim, claim_in, claim_next_job,
  claim_labels, timed_out, fail_in, fail_timed_out_jobs,
}
use openenvx_cloud.Storage.{get_object, upload}
use openenvx_cloud.Storage.Keeps.{upload-Keeps}
use openenvx_cloud.Daemon.Handlers.{plan_object}
use openenvx_cloud.Daemon.Applying.{IsMissing}
use openenvx_cloud.Lifecycle.Frame.{insert_job-keeps, is_resting, KeepsCalls, with_labels-keeps}
use openenvx_cloud.Lifecycle.Rows.{SameJob}
use openenvx_cloud.Lifecycle.Names.{run_log-apart, state_path-apart}
use openenvx_cloud.Lifecycle.Stuck.{
  IsStuck, IsOther, LeavesStuck, update_where-IsStuck, put_object-IsStuck, append-IsStuck,
}

resting-unapplied : (s : JobStatus) → is_resting s ≡ true → s ≢ applied
resting-unapplied s e a = ground arith

claim-unapplied :
    (env : Env) (t : ℕ) (r : JobRow) → r.status ≢ applied → (claim env t r).status ≢ applied
unfolding claim
claim-unapplied env t r n a = ground (arith, n)

claim-SameJob : (env : Env) (t : ℕ) → SameJob (claim env t)
unfolding claim
claim-SameJob env t = record { id = λ r. refl; project_id = λ r. refl; operation = λ r. refl }

module _ (env : Env) (k : String) where
  update_next-IsStuck :
      (f : JobRow → JobRow) (o : Option JobRow) (d : Db) (b : Bucket)
      → SameJob f
      → ((r : JobRow) → r.status ≢ applied → (f r).status ≢ applied)
      → IsStuck k d b
      → IsStuck k (update_next f o d).1 b
  unfolding update_next returning
  update_next-IsStuck f none d b same safe h = h
  update_next-IsStuck f (some r) d b same safe h =
      elim (Option-cases (lookup r.project_id d.projects)) [
        | inl e ↦ rw (e, returning) h
        | inr (org, e) ↦
            rw (e, returning) (update_where-IsStuck k (has_id r.id) f d b same (λ x _ _. safe x) h)
      ]

  insert_row-IsStuck :
      (r : JobRow) (o : Option String) (d : Db) (b : Bucket)
      → r.status ≢ applied
      → IsStuck k d b
      → IsStuck k (insert_row r o d).1 b
  unfolding insert_row
  insert_row-IsStuck r none d b s h = h
  insert_row-IsStuck r (some org) d b s h = elim (Bool-cases (any (has_id r.id) d.jobs)) [
    | inl dup ↦ rw dup h
    | inr fresh ↦ rw fresh (append-IsStuck k r d b s fresh h)
  ]

module _ (env : Env) (k : String) (leaves : LeavesStuck env k) where
  -- A status other than APPLIED, or another job.
  pub status-IsStuck :
      (id : String) (s : JobStatus)
      → (id ≡ k → s ≢ applied)
      → Keeps (IsStuck k) (update_job_status env id s)
  unfolding update_job_status set_status
  status-IsStuck id s safe = Keeps-rewrap _ _ (
      Keeps-statement env _ leaves.tables λ t d b h.
        with_labels-keeps env (λ x. IsStuck k x b) (s ∷ []) d _ h
          (update_where-IsStuck k (has_id id) _ d b
            (record { id = λ r. refl; project_id = λ r. refl; operation = λ r. refl })
            (λ r p i _. safe (sym ((eq_iff r.id id).0 p) ∙ i)) h))

  -- An UPDATE that leaves the status as it is.
  plan_result-IsStuck :
      (id path : String) (s : Bytes) → Keeps (IsStuck k) (update_job_plan_result env id path s)
  unfolding update_job_plan_result set_plan_result
  plan_result-IsStuck id path s = Keeps-rewrap _ _ (
      Keeps-statement env _ leaves.tables λ t d b h.
        update_where-IsStuck k (has_id id) _ d b
          (record { id = λ r. refl; project_id = λ r. refl; operation = λ r. refl }) (λ r _ _ n. n)
          h)

  summary-IsStuck : (id : String) (s : Bytes) → Keeps (IsStuck k) (update_job_summary env id s)
  unfolding update_job_summary set_summary
  summary-IsStuck id s = Keeps-rewrap _ _ (
      Keeps-statement env _ leaves.tables λ t d b h.
        update_where-IsStuck k (has_id id) _ d b
          (record { id = λ r. refl; project_id = λ r. refl; operation = λ r. refl }) (λ r _ _ n. n)
          h)

  creation-IsStuck :
      (n : NewJob) (s : JobStatus) → is_resting s ≡ true → Keeps (IsStuck k) (create_job env n s)
  unfolding create_job insert_job new_row
  creation-IsStuck n s e = Keeps-rewrap _ _ (
      Keeps-statement env _ leaves.tables λ t d b h.
        insert_job-keeps env (λ x. IsStuck k x b) n s t d h
          (insert_row-IsStuck env k _ (lookup n.project_id d.projects) d b (resting-unapplied s e)
            h))

  promotion-IsStuck : (project_id : String) → Keeps (IsStuck k) (promote_next_job env project_id)
  unfolding promote_next_job promote_in promote
  promotion-IsStuck project_id = Keeps-transaction env _ _ _ _ leaves.tables λ t d b h.
      with_labels-keeps env (λ x. IsStuck k x b) _ d _ h
        (update_next-IsStuck env k (promote env t) _ d b
          (record { id = λ r. refl; project_id = λ r. refl; operation = λ r. refl })
          (λ r n. resting-unapplied _ refl) h)

  claiming-IsStuck : (statuses : List JobStatus) → Keeps (IsStuck k) (claim_next_job env statuses)
  unfolding claim_next_job claim_in
  claiming-IsStuck statuses = Keeps-transaction env _ _ _ _ leaves.tables λ t d b h.
      with_labels-keeps env (λ x. IsStuck k x b) statuses d _ h
        (with_labels-keeps env (λ x. IsStuck k x b) claim_labels d _ h
          (update_next-IsStuck env k (claim env t) _ d b (claim-SameJob env t)
            (claim-unapplied env t) h))

  timeouts-IsStuck : (timeout : ℕ) → Keeps (IsStuck k) (fail_timed_out_jobs env timeout)
  unfolding fail_timed_out_jobs fail_in
  timeouts-IsStuck timeout = Keeps-rewrap _ _ (
      Keeps-statement env _ leaves.tables λ t d b h.
        with_labels-keeps env (λ x. IsStuck k x b) _ d _ h
          (update_where-IsStuck k (timed_out env timeout t) _ d b
            (record { id = λ r. refl; project_id = λ r. refl; operation = λ r. refl })
            (λ r _ _ _. resting-unapplied _ refl) h))

  pub upload-IsStuck :
      (name : String) (content : Bytes) (kind : String)
      → name ≢ plan_object k
      → Keeps (IsStuck k) (upload env name content kind)
  upload-IsStuck name content kind other =
      upload-Keeps env name content kind leaves.bucket
        (λ d o m. put_object-IsStuck k name d o m other)

  pub IsStuck-calls : KeepsCalls env (IsStuck k)
  unfolding get_object
  IsStuck-calls = record {
    stable = leaves.tables;
    stable_bucket = leaves.bucket;
    bucket_made = made;
    state_upload = λ id content. upload-IsStuck _ content _ (state_path-apart id k);
    log_upload = λ id log. upload-IsStuck _ log _ (run_log-apart id k);
    status = λ id s e. status-IsStuck id s (λ _. resting-unapplied s e);
    plan_result = plan_result-IsStuck;
    summary = summary-IsStuck;
    creation = creation-IsStuck;
    promotion = promotion-IsStuck;
    claiming = claiming-IsStuck;
    timeouts = timeouts-IsStuck;
  }
    where
      empty_missing : IsMissing (plan_object k) (some [])
      empty_missing = refl

      made : (d : Db) → IsStuck k d none → IsStuck k d (some [])
      made d h = record {
        unapplied = h.unapplied;
        planless = elim h.planless [ inl m ↦ inl empty_missing | inr o ↦ inr o ];
      }

  -- The plan of a job that is no apply.
  pub IsOther-IsStuck :
      (name : String) (content : Bytes) (kind : String)
      → Keeps (λ d b. IsOther k d × IsStuck k d b) (upload env name content kind)
  IsOther-IsStuck name content kind =
      upload-Keeps env name content kind (λ t d b (o, h). (o, leaves.bucket t d b h))
        (λ d o m (x, h). (x, record { unapplied = h.unapplied; planless = inr x }))
