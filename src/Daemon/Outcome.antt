-- ===== src/Daemon/Outcome.antt =====
-- The status that a job has when its handler returns without an error.
use mathlib.Core.List.{Memᴰ}
use openenvx_cloud.Prelude.{
  ℕ, ◌≡◌, refl, sym, ap, ◌∙◌, String, true, Bool-cases, inl, inr, arith, eq_iff,
}
use openenvx_cloud.Models.{JobStatus, planned, JobRow, Job}
use openenvx_cloud.World.{ok, Db, World, Env}
use openenvx_cloud.World.Ends.{Ends, Ends-bind, Ends-rewrap, Ends-statement}
use openenvx_cloud.Db.Rows.{has_id, with_labels, update_where}
use openenvx_cloud.Db.Updates.{mem-update_where}
use openenvx_cloud.Db.Jobs.{set_status, update_job_status}
use openenvx_cloud.Terraform.{Host}
use openenvx_cloud.Daemon.Handlers.{store_plan, handle_plan}

-- Every row with this id has this status.
abbrev pub HasStatus : String → JobStatus → Db → Type 0
HasStatus id s d = (r : JobRow) → Memᴰ r d.jobs → r.id ≡ id → r.status ≡ s

module _ (env : Env) (id : String) (s : JobStatus) where
  with_labels-applied :
      (t : ℕ) (d : Db)
      → (set_status env id s t d).0 ≡ ok tt
      → (set_status env id s t d).1.jobs
        ≡ update_where (has_id id) (λ r. record r { status = s; updated_at = env.now t }) d.jobs
  unfolding set_status with_labels
  with_labels-applied t d e = ground arith

  set_status-HasStatus :
      (t : ℕ) (d : Db) (u : Unit {0})
      → (set_status env id s t d).0 ≡ ok u
      → HasStatus id s (set_status env id s t d).1
  set_status-HasStatus t d u e r m i =
      let f = λ (x : JobRow). record x { status = s; updated_at = env.now t } in
      let (x, n, q) =
        mem-update_where (has_id id) f r d.jobs (rw (with_labels-applied t d e) at m) in
      elim (Bool-cases (has_id id x)) [
        | inl h ↦ ap (λ (y : JobRow). y.status) q ∙ rw h refl
        | inr h ↦
            let same : r ≡ x = q ∙ rw h refl in
            let hit : has_id id x ≡ true =
              (eq_iff x.id id).1 (sym (ap (λ (y : JobRow). y.id) same) ∙ i) in
            cc
      ]

  pub update_job_status-Ends : Ends (HasStatus id s) (update_job_status env id s)
  unfolding update_job_status
  update_job_status-Ends =
      Ends-rewrap _ (Ends-statement env (set_status env id s) set_status-HasStatus)

module _ (env : Env) (host : Host) (job : Job) where
  store_plan-Ends :
      (label : String) → Ends (HasStatus job.id planned) (store_plan env host label job)
  unfolding store_plan
  store_plan-Ends label = Ends-bind _ λ _. Ends-bind _ λ _.
      Ends-bind _ λ _. Ends-bind _ λ _. Ends-rewrap _ (update_job_status-Ends env job.id planned)

  -- Whenever `handlePlan` returns no error, the job is PLANNED: whatever others have made of it while
  -- the plan ran, a cancellation included, is overwritten.
  pub handle_plan-planned :
      (w : World)
      → (handle_plan env host job w).0 ≡ ok tt
      → (r : JobRow) → Memᴰ r (handle_plan env host job w).1.db.jobs
      → r.id ≡ job.id
      → r.status ≡ planned
  unfolding handle_plan
  handle_plan-planned w = (Ends-bind _ λ _. store_plan-Ends "upload plan").at w tt
