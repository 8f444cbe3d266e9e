-- ===== src/Lifecycle/Stuck/Processing.antt =====
-- A worker that processes a job leaves a stuck job stuck: an apply of its own finds no plan.
use mathlib.Core.List.{Memᴰ}
use openenvx_cloud.Prelude.{
  ◌≡◌, ◌≢◌, refl, sym, subst, ◌∙◌, inl, inr, String, Bool-cases, eq_iff, ◌==◌, any, true,
}
use openenvx_cloud.Models.{Bytes, planned, failed, applied, JobRow, Job}
use openenvx_cloud.World.{Db, Bucket, Env, M}
use openenvx_cloud.World.Keeps.{Claim, Tables, Keeps, Keeps-rewrap, Keeps-statement}
use openenvx_cloud.Db.Updates.{any-mem}
use openenvx_cloud.Db.Rows.{has_id}
use openenvx_cloud.Db.Jobs.{update_job_status}
use openenvx_cloud.Storage.{upload}
use openenvx_cloud.Terraform.{Host}
use openenvx_cloud.Daemon.Applying.{IsMissing, handle_apply-without_plan}
use openenvx_cloud.Daemon.Handlers.{plan_object, handle_apply}
use openenvx_cloud.Daemon.Frame.{KeepsWrites, handle_apply-Keeps}
use openenvx_cloud.Daemon.Processing.{process_job-Keeps}
use openenvx_cloud.Daemon.Worker.{process_job}
use openenvx_cloud.Lifecycle.Rows.{Holds}
use openenvx_cloud.Lifecycle.Claimed.{And}
use openenvx_cloud.Lifecycle.Names.{plan_object-inj}
use openenvx_cloud.Lifecycle.Stuck.{IsStuck, IsOther, LeavesStuck}
use openenvx_cloud.Lifecycle.Stuck.Calls.{
  status-IsStuck, upload-IsStuck, IsOther-IsStuck, IsStuck-calls,
}
use openenvx_cloud.Lifecycle.System.{OthersHold, Nothing, processing}

-- What is known of a job that a worker has claimed, beside that `k` has no plan or is no apply.
abbrev Claimed : JobRow → String → Claim
Claimed r k d b = Holds (And Nothing r) d × IsStuck k d b

both : {A : Type 0} {P Q : Claim} (m : M A) → Keeps P m → Keeps Q m → Keeps (λ d b. P d b × Q d b) m
both m p q = record { at = λ w (h, k). (p.at w h, q.at w k) }

-- The rows of the job that is processed are known.
claimed-row :
    (job : JobRow) (d : Db)
    → Holds (And Nothing job) d
    → (x : JobRow) → Memᴰ x d.jobs
    → x.id ≡ job.id
    → x.operation ≡ job.operation
claimed-row job d h x m i = h.known x m job.operation (inr (i, refl))

claimed-IsOther :
    (job : JobRow) (k : String) (d : Db)
    → Holds (And Nothing job) d
    → job.id ≡ k
    → job.operation ≢ "apply"
    → IsOther k d
claimed-IsOther job k d h own n = record {
  present =
      subst (λ i. any (has_id i) d.jobs ≡ true) own
        (h.present job.id job.operation (inr (refl, refl)));
  operation = λ x m i o. n (sym (claimed-row job d h x m (i ∙ sym own)) ∙ o);
}

-- An apply that is there is planless.
claimed-IsMissing :
    (job : JobRow) (k : String) (d : Db) (b : Bucket)
    → Claimed job k d b
    → job.id ≡ k
    → job.operation ≡ "apply"
    → IsMissing (plan_object k) b
claimed-IsMissing job k d b (h, stuck) own is_apply = elim stuck.planless [
  | inl m ↦ m
  | inr other ↦
      let (x, m, i) =
        any-mem (has_id job.id) d.jobs (h.present job.id job.operation (inr (refl, refl))) in
      let named : x.id ≡ job.id = (eq_iff x.id job.id).0 i in
      absurd (other.operation x m (named ∙ own) (claimed-row job d h x m named ∙ is_apply))
]

module _ (env : Env) (others : OthersHold env) (host : Host) (k : String)
    (leaves : LeavesStuck env k) (job : Job) where
  -- Whatever is said of the bucket alone, an apply keeps.
  apply-bucket : (d : Db) → Keeps (λ _ b. Claimed job.row k d b) (handle_apply env host job)
  unfolding update_job_status
  apply-bucket d =
      handle_apply-Keeps env host job (λ b t x h. h) (λ t x b (h, s). (h, leaves.bucket t d b s))
        (Keeps-rewrap _ _ (Keeps-statement env _ (λ b t x h. h) (λ t x b h. h)))

  own-apply :
      job.id ≡ k → job.operation ≡ "apply" → Keeps (Claimed job.row k) (handle_apply env host job)
  own-apply own is_apply = record {
    at = λ w (h, stuck).
        let b = env.others_bucket w.tick w.bucket in
        let gone =
          claimed-IsMissing job.row k w.db b (h, leaves.bucket w.tick w.db w.bucket stuck) own
            is_apply in
        let (_, (same, _, _, _)) =
          handle_apply-without_plan env host job w
            (subst (λ i. IsMissing (plan_object i) b) (sym own) gone) in
        subst (λ d. Claimed job.row k d (handle_apply env host job w).1.bucket) (sym same)
          ((apply-bucket w.db).at w (h, stuck));
  }

  writes-Holds : KeepsWrites env host (Tables (Holds (And Nothing job.row))) job
  writes-Holds = processing env host Nothing job (others (And Nothing job.row))

  applying-Claimed : job.operation ≡ "apply" → Keeps (Claimed job.row k) (handle_apply env host job)
  applying-Claimed is_apply = elim (Bool-cases (job.id == k)) [
    | inl e ↦ own-apply ((eq_iff job.id k).0 e) is_apply
    | inr e ↦ both _ (writes-Holds.applying is_apply) (
        handle_apply-Keeps env host job leaves.tables leaves.bucket (
          status-IsStuck env k leaves job.id applied
            (λ own. absurd (cc (e, (eq_iff job.id k).1 own)))))
  ]

  plan-Claimed :
      job.operation ≢ "apply"
      → (content : Bytes)
      → Keeps
          (Claimed job.row k)
          (upload env (plan_object job.id) content "application/octet-stream")
  plan-Claimed n content = elim (Bool-cases (job.id == k)) [
    | inl e ↦ record {
      at = λ w (h, stuck).
          let other = claimed-IsOther job.row k w.db h ((eq_iff job.id k).0 e) n in
          (
            (writes-Holds.plan_upload n content).at w h,
            ((IsOther-IsStuck env k leaves _ content _).at w (other, stuck)).1,
          );
    }
    | inr e ↦ both _ (writes-Holds.plan_upload n content) (
        upload-IsStuck env k leaves _ content _
          (λ same. absurd (cc (e, (eq_iff job.id k).1 (plan_object-inj job.id k same)))))
  ]

  -- Processing a job keeps what is known of it, and that `k` is stuck.
  pub process-Claimed :
      (url token : String) → Keeps (Claimed job.row k) (process_job env host url token job)
  process-Claimed url token =
      let h = writes-Holds in
      let s = IsStuck-calls env k leaves in
      process_job-Keeps env host url token job (record {
        stable = λ b t d (x, y). (h.stable b t d x, leaves.tables b t d y);
        stable_bucket = λ t d b (x, y). (x, leaves.bucket t d b y);
        bucket_made = λ d (x, y). (x, s.bucket_made d y);
        plan_upload = plan-Claimed;
        log_upload = λ log. both _ (h.log_upload log) (s.log_upload job.id log);
        plan_result =
            λ path text. both _ (h.plan_result path text) (s.plan_result job.id path text);
        summary = λ text. both _ (h.summary text) (s.summary job.id text);
        to_planned = both _ h.to_planned (s.status job.id planned refl);
        applying = applying-Claimed;
        to_failed = both _ h.to_failed (s.status job.id failed refl);
        promotion = both _ h.promotion (s.promotion job.project_id);
      })
