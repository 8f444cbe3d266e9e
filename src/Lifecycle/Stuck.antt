-- ===== src/Lifecycle/Stuck.antt =====
-- A job that is not APPLIED, and whose plan is not in the storage unless it is no apply: what leaves both
-- so.
pub mod Calls
pub mod Processing
use mathlib.Core.List.{Memᴰ}
use openenvx_cloud.Prelude.{
  ℕ, ◌≡◌, ◌≢◌, refl, sym, ap, subst, ◌∙◌, ◌⊎◌, inl, inr, String, Bool, true, false, List, [], ◌∷◌,
  ◌++◌, any, arith, Bool-cases, Option-cases, Option, none, some, eq_iff, ◌==◌,
}
use openenvx_cloud.Models.{JobStatus, applied, Bytes, JobRow}
use openenvx_cloud.World.{Object, Db, Bucket, Env}
use openenvx_cloud.World.Keeps.{
  StableTables, StableBucket, Keeps, Keeps-rewrap, Keeps-statement, Keeps-transaction,
}
use openenvx_cloud.Db.Rows.{lookup, has_id, update_where}
use openenvx_cloud.Db.Updates.{any-update_where, any-append, mem-update_where, mem-append-one}
use openenvx_cloud.Db.Jobs.{
  NewJob, insert_row, insert_job, create_job, new_row, set_status, update_job_status,
  update_job_plan_result, set_plan_result, update_job_summary, set_summary,
}
use openenvx_cloud.Db.Queue.{
  returning, update_next, promote, promote_in, promote_next_job, claim, claim_in, claim_next_job,
  claim_labels, timed_out, fail_in, fail_timed_out_jobs,
}
use openenvx_cloud.Storage.{get_object, put_object, upload}
use openenvx_cloud.Storage.Objects.{get_object-put_object}
use openenvx_cloud.Storage.Keeps.{upload-Keeps}
use openenvx_cloud.Daemon.Handlers.{plan_object}
use openenvx_cloud.Daemon.Applying.{IsMissing}
use openenvx_cloud.Lifecycle.Frame.{is_resting, KeepsCalls, with_labels-keeps}
use openenvx_cloud.Lifecycle.Rows.{SameJob, same_if}
use openenvx_cloud.Lifecycle.Names.{run_log-apart, state_path-apart}

-- The job is there, and is no apply.
pub record IsOther (k : String) (d : Db) : Type 0 where
  pub present : any (has_id k) d.jobs ≡ true
  pub operation : (r : JobRow) → Memᴰ r d.jobs → r.id ≡ k → r.operation ≢ "apply"

-- No row of the job is APPLIED, and the bucket holds nothing under the name of its plan, unless the job
-- is no apply.
pub record IsStuck (k : String) (d : Db) (b : Bucket) : Type 0 where
  pub unapplied : (r : JobRow) → Memᴰ r d.jobs → r.id ≡ k → r.status ≢ applied
  pub planless : IsMissing (plan_object k) b ⊎ IsOther k d

-- Others leave it so.
pub record LeavesStuck (env : Env) (k : String) : Type 0 where
  pub tables : StableTables env (IsStuck k)
  pub bucket : StableBucket env (IsStuck k)

module _ (k : String) where
  update_where-IsOther :
      (p : JobRow → Bool) (f : JobRow → JobRow) (d : Db)
      → SameJob f
      → IsOther k d
      → IsOther k (record d { jobs = update_where p f d.jobs })
  update_where-IsOther p f d same h = record {
    present =
        any-update_where p f (has_id k) (λ r. ap (λ i. i == k) (same.id r)) d.jobs ∙ h.present;
    operation = λ x m i o.
        let (r, n, e) = mem-update_where p f x d.jobs m in
        let (id, op) = same_if p f same r in
        h.operation r n (sym id ∙ sym (ap (λ (z : JobRow). z.id) e) ∙ i)
          (sym op ∙ sym (ap (λ (z : JobRow). z.operation) e) ∙ o);
  }

  append-IsOther :
      (r : JobRow) (d : Db)
      → any (has_id r.id) d.jobs ≡ false
      → IsOther k d
      → IsOther k (record d { jobs = d.jobs ++ r ∷ [] })
  append-IsOther r d fresh h = record {
    present = any-append (has_id k) d.jobs r ∙ rw h.present refl;
    operation = λ x m i. elim (mem-append-one d.jobs r m) [
      | inl n ↦ h.operation x n i
      | inr e ↦
          let named : r.id ≡ k = sym (ap (λ (z : JobRow). z.id) e) ∙ i in
          let there : any (has_id r.id) d.jobs ≡ true =
            subst (λ j. any (has_id j) d.jobs ≡ true) (sym named) h.present in
          absurd (cc (there, fresh))
    ];
  }

  pub update_where-IsStuck :
      (p : JobRow → Bool) (f : JobRow → JobRow) (d : Db) (b : Bucket)
      → SameJob f
      → ((r : JobRow) → p r ≡ true → r.id ≡ k → r.status ≢ applied → (f r).status ≢ applied)
      → IsStuck k d b
      → IsStuck k (record d { jobs = update_where p f d.jobs }) b
  update_where-IsStuck p f d b same safe h = record {
    planless = elim h.planless [ inl m ↦ inl m | inr o ↦ inr (update_where-IsOther p f d same o) ];
    unapplied = λ x m i.
        let (r, n, e) = mem-update_where p f x d.jobs m in
        let named : r.id ≡ k = sym (same_if p f same r).0 ∙ sym (ap (λ (z : JobRow). z.id) e) ∙ i in
        elim (Bool-cases (p r)) [
          | inl q ↦
              let hit : x ≡ f r = e ∙ rw q refl in
              subst (λ (z : JobRow). z.status ≢ applied) (sym hit)
                (safe r q named (h.unapplied r n named))
          | inr q ↦
              let old : x ≡ r = e ∙ rw q refl in
              subst (λ (z : JobRow). z.status ≢ applied) (sym old) (h.unapplied r n named)
        ];
  }

  pub put_object-IsStuck :
      (name : String) (d : Db) (o : Object) (m : List (String × Object))
      → name ≢ plan_object k
      → IsStuck k d (some m)
      → IsStuck k d (some (put_object name o m))
  put_object-IsStuck name d o m other h = record {
    unapplied = h.unapplied;
    planless = elim h.planless [ inl none_there ↦ inl (still none_there) | inr x ↦ inr x ];
  }
    where
      still :
          get_object (plan_object k) m ≡ none
          → get_object (plan_object k) (put_object name o m) ≡ none
      still none_there =
          get_object-put_object name (plan_object k) o m
          ∙ elim (Bool-cases (name == plan_object k)) [
            | inl e ↦ absurd (other ((eq_iff name (plan_object k)).0 e))
            | inr e ↦ rw e none_there
          ]

  pub append-IsStuck :
      (r : JobRow) (d : Db) (b : Bucket)
      → r.status ≢ applied
      → any (has_id r.id) d.jobs ≡ false
      → IsStuck k d b
      → IsStuck k (record d { jobs = d.jobs ++ r ∷ [] }) b
  append-IsStuck r d b s fresh h = record {
    planless = elim h.planless [ inl m ↦ inl m | inr o ↦ inr (append-IsOther r d fresh o) ];
    unapplied = λ x m i. elim (mem-append-one d.jobs r m) [
      | inl n ↦ h.unapplied x n i
      | inr e ↦ subst (λ (z : JobRow). z.status ≢ applied) (sym e) s
    ];
  }
