-- ===== src/Lifecycle/Settled.antt =====
-- A job that is APPLIED, FAILED or CANCELLED: which changes of the tables leave it so.
use mathlib.Core.List.{Memᴰ}
use openenvx_cloud.Prelude.{
  ℕ, ◌≡◌, ◌≢◌, refl, sym, ap, subst, ◌∙◌, inl, inr, String, Bool, true, false, [], ◌∷◌, ◌++◌, any,
  arith, Bool-cases, Option-cases, Option, none, some, eq_iff, ◌==◌,
}
use openenvx_cloud.Models.{
  JobStatus, applied, failed, cancelled, planned, queued, status_eq, status_in, Bytes, JobRow,
}
use openenvx_cloud.World.{Db, Env}
use openenvx_cloud.World.Keeps.{
  Tables, Stable, Keeps, Keeps-rewrap, Keeps-statement, Keeps-transaction,
}
use openenvx_cloud.Db.Rows.{lookup, has_id, update_where, by_created_at_and_id}
use openenvx_cloud.Db.Selection.{mem-filter, mem-perm, head?-mem, order_by-perm}
use openenvx_cloud.Db.Updates.{mem-update_where, any-update_where, any-append, mem-append-one}
use openenvx_cloud.Db.Claims.{IsScan}
use openenvx_cloud.Db.Jobs.{
  NewJob, insert_row, insert_job, create_job, set_status, update_job_status, update_job_plan_result,
  set_plan_result, update_job_summary, set_summary, active_statuses,
}
use openenvx_cloud.Db.Queue.{
  returning, update_next, promote, promotable, promote_in, promote_next_job, timed_out, fail_in,
  fail_timed_out_jobs,
}
use openenvx_cloud.Api.Jobs.{undiscardable}
use openenvx_cloud.Daemon.Recovery.{stale_statuses}
use openenvx_cloud.Daemon.Worker.{claimed_statuses}
use openenvx_cloud.Lifecycle.Frame.{insert_job-keeps, with_labels-keeps}

abbrev pub is_settled : JobStatus → Bool
is_settled s = status_in s (applied ∷ failed ∷ cancelled ∷ [])

-- The job is there, and has this status.
pub record IsSettled (k : String) (s : JobStatus) (d : Db) : Type 0 where
  pub present : any (has_id k) d.jobs ≡ true
  pub rows : (x : JobRow) → Memᴰ x d.jobs → x.id ≡ k → x.status ≡ s

-- No list of statuses from which a job goes on has a settled one, and a settled job is not discarded.
pub record IsApart (s : JobStatus) : Type 0 where
  pub unclaimed : status_in s claimed_statuses ≡ false
  pub fresh : status_in s stale_statuses ≡ false
  pub inactive : status_in s active_statuses ≡ false
  pub unqueued : status_eq s queued ≡ false
  pub unplanned : status_eq s planned ≡ false
  pub kept : status_in s undiscardable ≡ true

pub settled-IsApart : (s : JobStatus) → is_settled s ≡ true → IsApart s
settled-IsApart s e = record {
  unclaimed = ground (arith, e);
  fresh = ground (arith, e);
  inactive = ground (arith, e);
  unqueued = ground (arith, e);
  unplanned = ground (arith, e);
  kept = ground (arith, e);
}

module _ (k : String) (s : JobStatus) where
  -- A row with a property that the job's status does not have is another job's.
  pub elsewhere :
      (d : Db) (r : JobRow) (test : JobStatus → Bool)
      → test s ≡ false
      → IsSettled k s d
      → Memᴰ r d.jobs
      → test r.status ≡ true
      → r.id ≢ k
  elsewhere d r test off h m on i =
      let same : test r.status ≡ test s = ap test (h.rows r m i) in absurd (cc (same, off, on))

  pub update_where-IsSettled :
      (p : JobRow → Bool) (f : JobRow → JobRow) (d : Db)
      → ((r : JobRow) → (f r).id ≡ r.id)
      → ((r : JobRow) → Memᴰ r d.jobs → p r ≡ true → r.id ≢ k)
      → IsSettled k s d
      → IsSettled k s (record d { jobs = update_where p f d.jobs })
  update_where-IsSettled p f d same other h = record {
    present = any-update_where p f (has_id k) (λ r. ap (λ i. i == k) (same r)) d.jobs ∙ h.present;
    rows = λ x m i.
        let (r, n, e) = mem-update_where p f x d.jobs m in
        elim (Bool-cases (p r)) [
          | inl q ↦
              let hit : x ≡ f r = e ∙ rw q refl in
              absurd (other r n q (sym (same r) ∙ sym (ap (λ (z : JobRow). z.id) hit) ∙ i))
          | inr q ↦
              let old : x ≡ r = e ∙ rw q refl in
              ap (λ (z : JobRow). z.status) old
              ∙ h.rows r n (sym (ap (λ (z : JobRow). z.id) old) ∙ i)
        ];
  }

  append-IsSettled :
      (r : JobRow) (d : Db)
      → any (has_id r.id) d.jobs ≡ false
      → IsSettled k s d
      → IsSettled k s (record d { jobs = d.jobs ++ r ∷ [] })
  append-IsSettled r d fresh h = record {
    present = any-append (has_id k) d.jobs r ∙ rw h.present refl;
    rows = λ x m i. elim (mem-append-one d.jobs r m) [
      | inl n ↦ h.rows x n i
      | inr e ↦
          let named : r.id ≡ k = sym (ap (λ (z : JobRow). z.id) e) ∙ i in
          let there : any (has_id r.id) d.jobs ≡ true =
            subst (λ j. any (has_id j) d.jobs ≡ true) (sym named) h.present in
          absurd (cc (there, fresh))
    ];
  }

  pub update_next-IsSettled :
      (f : JobRow → JobRow) (o : Option JobRow) (d : Db)
      → ((r : JobRow) → (f r).id ≡ r.id)
      → ((r : JobRow) → o ≡ some r → r.id ≢ k)
      → IsSettled k s d
      → IsSettled k s (update_next f o d).1
  unfolding update_next returning
  update_next-IsSettled f none d same other h = h
  update_next-IsSettled f (some r) d same other h =
      elim (Option-cases (lookup r.project_id d.projects)) [
        | inl e ↦ rw (e, returning) h
        | inr (org, e) ↦
            rw (e, returning)
              (update_where-IsSettled (has_id r.id) f d same
                (λ x m p i. other r refl (sym ((eq_iff x.id r.id).0 p) ∙ i)) h)
      ]

  insert_row-IsSettled :
      (r : JobRow) (o : Option String) (d : Db)
      → IsSettled k s d
      → IsSettled k s (insert_row r o d).1
  unfolding insert_row
  insert_row-IsSettled r none d h = h
  insert_row-IsSettled r (some org) d h = elim (Bool-cases (any (has_id r.id) d.jobs)) [
    | inl dup ↦ rw dup h
    | inr fresh ↦ rw fresh (append-IsSettled r d fresh h)
  ]

module _ (env : Env) (scans : IsScan env) (k : String) (s : JobStatus)
    (stable : Stable env (IsSettled k s)) where
  -- The UPDATE of another job.
  other-IsSettled :
      (id : String) (f : JobRow → JobRow) (d : Db)
      → id ≢ k
      → ((r : JobRow) → (f r).id ≡ r.id)
      → IsSettled k s d
      → IsSettled k s (record d { jobs = update_where (has_id id) f d.jobs })
  other-IsSettled id f d other same h =
      update_where-IsSettled k s (has_id id) f d same
        (λ r m p i. other (sym ((eq_iff r.id id).0 p) ∙ i)) h

  pub status-IsSettled :
      (id : String) (new : JobStatus)
      → id ≢ k
      → Keeps (Tables (IsSettled k s)) (update_job_status env id new)
  unfolding update_job_status set_status
  status-IsSettled id new other = Keeps-rewrap _ _ (
      Keeps-statement env _ (λ _. stable)
        λ t d b h.
          with_labels-keeps env (IsSettled k s) (new ∷ []) d _ h
            (other-IsSettled id _ d other (λ r. refl) h))

  pub plan_result-IsSettled :
      (id path : String) (text : Bytes)
      → id ≢ k
      → Keeps (Tables (IsSettled k s)) (update_job_plan_result env id path text)
  unfolding update_job_plan_result set_plan_result
  plan_result-IsSettled id path text other =
      Keeps-rewrap _ _
        (Keeps-statement env _ (λ _. stable) λ t d b h. other-IsSettled id _ d other (λ r. refl) h)

  pub summary-IsSettled :
      (id : String) (text : Bytes)
      → id ≢ k
      → Keeps (Tables (IsSettled k s)) (update_job_summary env id text)
  unfolding update_job_summary set_summary
  summary-IsSettled id text other =
      Keeps-rewrap _ _
        (Keeps-statement env _ (λ _. stable) λ t d b h. other-IsSettled id _ d other (λ r. refl) h)

  pub creation-IsSettled :
      (n : NewJob) (new : JobStatus) → Keeps (Tables (IsSettled k s)) (create_job env n new)
  unfolding create_job insert_job
  creation-IsSettled n new = Keeps-rewrap _ _ (
      Keeps-statement env _ (λ _. stable)
        λ t d b h.
          insert_job-keeps env (IsSettled k s) n new t d h
            (insert_row-IsSettled k s _ (lookup n.project_id d.projects) d h))

  pub promotion-IsSettled :
      IsApart s
      → (project_id : String) → Keeps (Tables (IsSettled k s)) (promote_next_job env project_id)
  unfolding promote_next_job promote_in promote promotable
  promotion-IsSettled away project_id =
      Keeps-transaction env _ _ _ _ (λ _. stable)
        λ t d b h. with_labels-keeps env (IsSettled k s) _ d _ h (
          update_next-IsSettled k s (promote env t) _ d (λ r. refl)
            (λ r e.
              let (p, m) =
                mem-filter (promotable env project_id t) r (env.scan t d.jobs)
                  (mem-perm (order_by-perm by_created_at_and_id _) (head?-mem r _ e)) in
              elsewhere k s d r (λ x. status_eq x queued) away.unqueued h
                (mem-perm (scans.perm t d.jobs) m) (ground (arith, p)))
            h)

  pub timeouts-IsSettled :
      IsApart s → (timeout : ℕ) → Keeps (Tables (IsSettled k s)) (fail_timed_out_jobs env timeout)
  unfolding fail_timed_out_jobs fail_in timed_out
  timeouts-IsSettled away timeout = Keeps-rewrap _ _ (
      Keeps-statement env _ (λ _. stable)
        λ t d b h. with_labels-keeps env (IsSettled k s) _ d _ h (
          update_where-IsSettled k s (timed_out env timeout t) _ d (λ r. refl)
            (λ r m p.
              elsewhere k s d r (λ x. status_eq x queued) away.unqueued h m (ground (arith, p)))
            h))
