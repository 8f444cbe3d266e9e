-- ===== src/Daemon/Planning/Processing.antt =====
-- internal/daemon/worker.go: with tools and services that work, a job that was planned stays PLANNED
-- when its log is saved and the next job is promoted.
use mathlib.Core.List.{Memᴰ}
use openenvx_cloud.Prelude.{
  ℕ, ◌≡◌, ◌≢◌, refl, sym, ap, subst, ◌∙◌, inl, inr, String, true, false, filter, arith, eq_iff,
  if◌then◌else◌, Bool-cases, Option-cases,
}
use openenvx_cloud.Models.{planned, Bytes, JobRow, Job}
use openenvx_cloud.World.{Db, World, Env, fresh_log}
use openenvx_cloud.World.Keeps.{
  Tables, Keeps, Stable, Keeps-pure, Keeps-attempt, Keeps-rewrap, Keeps-if, Keeps-statement,
  Keeps-transaction, Keeps-look, ◌⊳◌,
}
use openenvx_cloud.World.Succeeds.{
  Succeeds, Leads, Leads-Keeps, Leads-bind, Leads-attempt, Leads-then,
}
use openenvx_cloud.Db.Rows.{has_id, lookup, head?, order_by, by_created_at_and_id, update_where}
use openenvx_cloud.Db.Selection.{first-IsNext, by_created_at_and_id-IsByAge}
use openenvx_cloud.Db.Updates.{mem-update_where, update_where-mem}
use openenvx_cloud.Db.Jobs.{set_summary, update_job_summary}
use openenvx_cloud.Db.Queue.{
  returning, update_next, promotable, promote, promote_in, promote_next_job,
}
use openenvx_cloud.Lifecycle.Frame.{with_labels-keeps}
use openenvx_cloud.Storage.Keeps.{upload-Keeps}
use openenvx_cloud.Terraform.{Host}
use openenvx_cloud.Daemon.Worker.{save_log, conclude, process_body, process_job}
use openenvx_cloud.Daemon.Planning.{IsWorking, LeavePlan, Finished, updated, updated-listed}
use openenvx_cloud.Daemon.Planning.Preparing.{IsEquipped, Claimed}
use openenvx_cloud.Daemon.Planning.Execution.{execute_job-Succeeds, dispatch-plan}

-- The job is in the table, and PLANNED.
pub record StaysPlanned (id : String) (d : Db) : Type 0 where
  pub listed : (x : JobRow) × Memᴰ x d.jobs × (x.id ≡ id)
  pub rows : (x : JobRow) → Memᴰ x d.jobs → x.id ≡ id → x.status ≡ planned

-- An UPDATE of another row.
other-StaysPlanned :
    (id : String) (f : JobRow → JobRow) (r : JobRow) (d : Db)
    → r.id ≢ id
    → ((x : JobRow) → (f x).id ≡ x.id)
    → StaysPlanned id d
    → StaysPlanned id (record d { jobs = update_where (has_id r.id) f d.jobs })
other-StaysPlanned id f r d other same k = record {
  listed =
      let (x, m, i) = k.listed in
      (
        x,
        subst (λ b. Memᴰ (if b then f x else x) (update_where (has_id r.id) f d.jobs)) (miss x i)
            (update_where-mem (has_id r.id) f d.jobs m),
        i,
      );
  rows = λ x m i.
      let (y, n, e) = mem-update_where (has_id r.id) f x d.jobs m in
      elim (Bool-cases (has_id r.id y)) [
        | inl h ↦
            let hit : x ≡ f y = e ∙ rw h refl in
            absurd (
              other (
                sym ((eq_iff y.id r.id).0 h)
                ∙ sym (same y)
                ∙ sym (ap (λ (z : JobRow). z.id) hit)
                ∙ i))
        | inr h ↦
            let old : y ≡ x = sym (e ∙ rw h refl) in
            subst (λ (z : JobRow). z.status ≡ planned) old
              (k.rows y n (ap (λ (z : JobRow). z.id) old ∙ i))
      ];
}
  where
    miss : (x : JobRow) → x.id ≡ id → has_id r.id x ≡ false
    miss x i = elim (Bool-cases (has_id r.id x)) [
      | inl h ↦ absurd (other (sym ((eq_iff x.id r.id).0 h) ∙ i))
      | inr h ↦ h
    ]

module _ (env : Env) (host : Host) (working : IsWorking env host) (id : String) where
  stable : Stable env (StaysPlanned id)
  stable t d k = subst (StaysPlanned id) (sym (working.alone t d)) k

  summary-Keeps : (s : Bytes) → Keeps (Tables (StaysPlanned id)) (update_job_summary env id s)
  unfolding update_job_summary set_summary
  summary-Keeps s = Keeps-rewrap _ _ (
      Keeps-statement env _ (λ _. stable)
        λ t d b k. record {
          listed = let (x, m, i) = k.listed in updated-listed id _ d.jobs (λ y. refl) x m i;
          rows = updated id _ (λ x. x.status ≡ planned) d.jobs (λ x. refl) (λ x m i. k.rows x m i);
        })

  returning-StaysPlanned :
      (f : JobRow → JobRow) (r : JobRow) (d : Db)
      → r.id ≢ id
      → ((x : JobRow) → (f x).id ≡ x.id)
      → StaysPlanned id d
      → StaysPlanned id (returning f r (lookup r.project_id d.projects) d).1
  unfolding returning
  returning-StaysPlanned f r d other same k = elim (Option-cases (lookup r.project_id d.projects)) [
    | inl e ↦ rw (e, returning) k
    | inr (org, e) ↦ rw (e, returning) (other-StaysPlanned id f r d other same k)
  ]

  -- A row that is QUEUED is not the job.
  queued-other :
      (project : String) (t : ℕ) (r : JobRow) (d : Db)
      → promotable env project t r ≡ true
      → Memᴰ r d.jobs
      → StaysPlanned id d
      → r.id ≢ id
  unfolding promotable
  queued-other project t r d p m k i =
      let q : r.status ≡ planned = k.rows r m i in absurd (ground (arith, q))

  promote-Keeps :
      (project : String) → Keeps (Tables (StaysPlanned id)) (promote_next_job env project)
  unfolding promote_next_job promote_in update_next promote
  promote-Keeps project =
      Keeps-transaction env _ _ _ (promote_in env project) (λ _. stable)
        λ t d b k.
          with_labels-keeps env (StaysPlanned id) _ d _ k
            (elim (Option-cases (
              head? (
                order_by by_created_at_and_id
                  (filter (promotable env project t) (env.scan t d.jobs))))) [
                    | inl e ↦ rw (e, update_next) k
                    | inr (r, e) ↦
                        let next =
                          first-IsNext by_created_at_and_id (promotable env project t)
                            (working.scans.perm t d.jobs) by_created_at_and_id-IsByAge r e in
                        rw (e, update_next)
                          (returning-StaysPlanned (promote env t) r d
                            (queued-other project t r d next.passes next.listed k) (λ x. refl) k)
                  ])

module _ (env : Env) (host : Host) (working : IsWorking env host) (equipped : IsEquipped host)
    (url token : String) (job : Job) where
  Finished-StaysPlanned : (w : World) → Finished host false job.row w → StaysPlanned job.id w.db
  Finished-StaysPlanned w (content, summary, _, m) = record {
    listed = m.listed;
    rows = λ x n i. (m.rows x n i).0;
  }

  save_log-Keeps :
      (log : Bytes) → Keeps (Tables (StaysPlanned job.id)) (save_log env host url token job log)
  unfolding save_log
  save_log-Keeps log = Keeps-if _ _ _ (Keeps-pure tt) (
      Keeps-attempt _ (upload-Keeps env _ _ _ (λ t d b k. k) (λ d o m k. k)) ⊳ λ _.
      Keeps-attempt _ (summary-Keeps env host working job.id _) ⊳ λ _. Keeps-pure tt)

  fresh_log-Succeeds : Succeeds (Claimed job.row) fresh_log (λ _. Claimed job.row)
  unfolding fresh_log
  fresh_log-Succeeds = record {
    at = λ w p.
        (tt, refl, record { well_formed = p.well_formed; listed = p.listed; bucket = p.bucket });
  }

  process_body-Leads :
      job.operation ≡ "plan"
      → LeavePlan host job.post_plan
      → Leads (Claimed job.row) (process_body env host url token job) (StaysPlanned job.id)
  unfolding process_body conclude
  process_body-Leads e leave = Leads-bind {Q = λ _. Claimed job.row} fresh_log-Succeeds λ _.
      Leads-attempt _
        (execute_job-Succeeds env host working equipped url token job.row job
          (dispatch-plan env host working equipped url token job e leave))
        λ _.
          Leads-Keeps Finished-StaysPlanned
            (Keeps-look _ ⊳ λ log. save_log-Keeps log ⊳ λ _. Keeps-pure tt)

  -- Where the database, the storage, the store of secrets, the files, Terraform and the hooks work,
  -- no hook removes the working directory, and nobody else writes, and a job with the operation
  -- plan is in the table, whose post-plan hooks leave the plan file as they find it, and there is a
  -- bucket: after `processJob`, with its log saved and the next job of the project promoted, the
  -- job is still in the table and is PLANNED.
  pub process_job-StaysPlanned :
      (w : World)
      → job.operation ≡ "plan"
      → LeavePlan host job.post_plan
      → Claimed job.row w
      → StaysPlanned job.id (process_job env host url token job w).1.db
  unfolding process_job
  process_job-StaysPlanned w e leave p =
      (Leads-then _ (process_body-Leads e leave) λ _.
          Keeps-attempt _ (promote-Keeps env host working job.id job.project_id) ⊳ λ _.
          Keeps-pure tt).at
        w p
