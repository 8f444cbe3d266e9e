-- ===== src/Lifecycle/Final.antt =====
-- No act of the orchestrator changes the status of a job that is APPLIED, FAILED or CANCELLED: what it
-- reads before it gives a job another status shows that it is another job.
use mathlib.Core.List.{Memᴰ}
use openenvx_cloud.Prelude.{
  ◌≡◌, ◌≢◌, refl, ap, ◌∙◌, String, true, false, List, [], ◌∷◌, not, arith, any,
}
use openenvx_cloud.Models.{
  JobStatus, applied, failed, cancelled, approved, planned, status_eq, status_in, JobRow, Job,
}
use openenvx_cloud.World.{Result, ok, err, World, Env}
use openenvx_cloud.World.Keeps.{
  Tables, Stable, Keeps, Keeps-pure, Keeps-raise, Keeps-attempt, Keeps-rewrap, Keeps-if,
  Keeps-if_false, ◌⊳◌,
}
use openenvx_cloud.World.Reads.{Reads-rewrap, ◌⊵◌, ◌⊵?◌}
use openenvx_cloud.Db.Rows.{has_id}
use openenvx_cloud.Db.Claims.{IsScan}
use openenvx_cloud.Db.Projects.{unlock_project_state, unlock_active, cancel_if_lock}
use openenvx_cloud.Storage.Keeps.{upload-Keeps}
use openenvx_cloud.Terraform.{Host}
use openenvx_cloud.Api.Jobs.{
  approve_found, handle_approve_job, discard_found, handle_discard_job, undiscardable,
}
use openenvx_cloud.Daemon.Frame.{KeepsWrites, handle_apply-Keeps}
use openenvx_cloud.Daemon.Processing.{process_job-Keeps}
use openenvx_cloud.Daemon.Recovery.{Config, fail_each, recover_jobs, cleanup_tick}
use openenvx_cloud.Daemon.Worker.{process_claimed, worker_tick}
use openenvx_cloud.Lifecycle.Requests.{KeepsRequests, serve-Keeps}
use openenvx_cloud.Lifecycle.Settled.{
  is_settled, IsSettled, IsApart, settled-IsApart, status-IsSettled, plan_result-IsSettled,
  summary-IsSettled, creation-IsSettled, promotion-IsSettled, timeouts-IsSettled,
}
use openenvx_cloud.Lifecycle.Settling.{get_job-Reads, get_active-Reads, claim-Reads, stale-Reads}
use openenvx_cloud.Lifecycle.System.{Act, serves, works, recovers, cleans, perform, run}

module _ (env : Env) (scans : IsScan env) (k : String) (s : JobStatus) (away : IsApart s)
    (stable : Stable env (IsSettled k s)) where
  -- What is read to be PLANNED is another job, and what is read to be this one is not discarded.
  approve-IsSettled : (id : String) → Keeps (Tables (IsSettled k s)) (handle_approve_job env id)
  unfolding handle_approve_job
  approve-IsSettled id = get_job-Reads env scans k s away stable id ⊵? found
    where
      other :
          (j : Job)
          → (j.id ≡ id) × (j.id ≡ k → j.status ≡ s)
          → not (status_eq j.status planned) ≡ false
          → id ≢ k
      other j (named, settled) e i =
          let same : j.status ≡ s = settled (named ∙ i) in
          absurd (ground (arith, ap (λ x. status_eq x planned) same, away.unplanned, e))

      found :
          (r : Result Job)
          → ((j : Job) → r ≡ ok j → (j.id ≡ id) × (j.id ≡ k → j.status ≡ s))
          → Keeps (Tables (IsSettled k s)) (approve_found env id r)
      found (err e) known = Keeps-pure _
      found (ok j) known = Keeps-if_false (not (status_eq j.status planned)) _ _ (Keeps-pure _) λ e.
          Keeps-attempt _
            (status-IsSettled env scans k s stable id approved (other j (known j refl) e))
          ⊳ λ done. Keeps-pure _

  discard-IsSettled : (id : String) → Keeps (Tables (IsSettled k s)) (handle_discard_job env id)
  unfolding handle_discard_job
  discard-IsSettled id = get_job-Reads env scans k s away stable id ⊵? found
    where
      other :
          (j : Job)
          → (j.id ≡ id) × (j.id ≡ k → j.status ≡ s)
          → status_in j.status undiscardable ≡ false
          → id ≢ k
      other j (named, settled) e i =
          let same : j.status ≡ s = settled (named ∙ i) in
          absurd (cc (ap (λ x. status_in x undiscardable) same, away.kept, e))

      found :
          (r : Result Job)
          → ((j : Job) → r ≡ ok j → (j.id ≡ id) × (j.id ≡ k → j.status ≡ s))
          → Keeps (Tables (IsSettled k s)) (discard_found env id r)
      found (err e) known = Keeps-pure _
      found (ok j) known = Keeps-if_false (status_in j.status undiscardable) _ _ (Keeps-pure _) λ e.
          Keeps-attempt _
            (status-IsSettled env scans k s stable id cancelled (other j (known j refl) e))
          ⊳ λ done. Keeps-pure _

  unlock-IsSettled :
      (id lock_id : String) → Keeps (Tables (IsSettled k s)) (unlock_project_state env id lock_id)
  unfolding unlock_project_state cancel_if_lock
  unlock-IsSettled id lock_id = get_active-Reads env scans k s away stable id ⊵? found
    where
      found :
          (r : Result Job)
          → ((j : Job) → r ≡ ok j → j.id ≢ k)
          → Keeps (Tables (IsSettled k s)) (unlock_active env lock_id r)
      found (err e) known = Keeps-if _ _ _ (Keeps-pure tt) (Keeps-raise _)
      found (ok j) known =
          Keeps-if _ _ _
            (Keeps-rewrap _ _ (status-IsSettled env scans k s stable j.id cancelled (known j refl)))
            (Keeps-raise _)

  IsSettled-requests : KeepsRequests env (Tables (IsSettled k s))
  IsSettled-requests = record {
    stable = λ _. stable;
    stable_bucket = λ t d b h. h;
    state_upload = λ id content. upload-Keeps env _ _ _ (λ t d b h. h) (λ d o m h. h);
    creation = λ n new _. creation-IsSettled env scans k s stable n new;
    approval = approve-IsSettled;
    discarding = discard-IsSettled;
    unlocking = unlock-IsSettled;
  }

  -- A worker that processes another job.
  IsSettled-writes :
      (host : Host) (job : Job) → job.id ≢ k → KeepsWrites env host (Tables (IsSettled k s)) job
  IsSettled-writes host job other = record {
    stable = λ _. stable;
    stable_bucket = λ t d b h. h;
    bucket_made = λ d h. h;
    plan_upload = λ _ content. upload-Keeps env _ _ _ (λ t d b h. h) (λ d o m h. h);
    log_upload = λ log. upload-Keeps env _ _ _ (λ t d b h. h) (λ d o m h. h);
    plan_result = λ path text. plan_result-IsSettled env scans k s stable job.id path text other;
    summary = λ text. summary-IsSettled env scans k s stable job.id text other;
    to_planned = status-IsSettled env scans k s stable job.id planned other;
    applying = λ _.
        handle_apply-Keeps env host job (λ _. stable) (λ t d b h. h)
          (status-IsSettled env scans k s stable job.id applied other);
    to_failed = status-IsSettled env scans k s stable job.id failed other;
    promotion = promotion-IsSettled env scans k s stable away job.project_id;
  }

  worker-IsSettled :
      (host : Host) (url token : String)
      → Keeps (Tables (IsSettled k s)) (worker_tick env host url token)
  unfolding worker_tick process_claimed
  worker-IsSettled host url token = claim-Reads env scans k s away stable ⊵? next
    where
      next :
          (r : Result Job)
          → ((j : Job) → r ≡ ok j → j.id ≢ k)
          → Keeps (Tables (IsSettled k s)) (process_claimed env host url token r)
      next (err e) known = Keeps-pure tt
      next (ok j) known =
          process_job-Keeps env host url token j (IsSettled-writes host j (known j refl))

  recover-IsSettled : Keeps (Tables (IsSettled k s)) (recover_jobs env)
  unfolding recover_jobs
  recover-IsSettled = Reads-rewrap _ _ (stale-Reads env scans k s away stable) ⊵ each
    where
      each :
          (js : List Job)
          → ((j : Job) → Memᴰ j js → j.id ≢ k)
          → Keeps (Tables (IsSettled k s)) (fail_each env js)
      each [] known = Keeps-pure tt
      each (j ∷ js) known =
          Keeps-attempt _
            (status-IsSettled env scans k s stable j.id failed (known j (Memᴰ.head refl)))
          ⊳ λ _. each js (λ x m. known x (Memᴰ.tail m))

  cleanup-IsSettled : (c : Config) → Keeps (Tables (IsSettled k s)) (cleanup_tick env c)
  unfolding cleanup_tick
  cleanup-IsSettled c =
      Keeps-attempt _ (timeouts-IsSettled env scans k s stable away c.queue_timeout) ⊳ λ n.
      Keeps-pure tt

module _ (env : Env) (scans : IsScan env) (host : Host) (trim : String → String)
    (url token : String) (k : String) (s : JobStatus) (settled : is_settled s ≡ true)
    (stable : Stable env (IsSettled k s)) where
  away : IsApart s
  away = settled-IsApart s settled

  perform-IsSettled :
      (a : Act) (w : World)
      → IsSettled k s w.db
      → IsSettled k s (perform env host trim url token a w).db
  unfolding perform
  perform-IsSettled (serves c q) w h =
      (serve-Keeps env (IsSettled-requests env scans k s away stable) trim token c q).at w h
  perform-IsSettled works w h = (worker-IsSettled env scans k s away stable host url token).at w h
  perform-IsSettled recovers w h = (recover-IsSettled env scans k s away stable).at w h
  perform-IsSettled (cleans c) w h = (cleanup-IsSettled env scans k s away stable c).at w h

  run-IsSettled :
      (acts : List Act) (w : World)
      → IsSettled k s w.db
      → IsSettled k s (run env host trim url token acts w).db
  unfolding run
  run-IsSettled [] w h = h
  run-IsSettled (a ∷ acts) w h = run-IsSettled acts _ (perform-IsSettled a w h)

  -- A job that is in the table, under whose id every row has the same of the statuses APPLIED, FAILED
  -- and CANCELLED, is still there and has the same status after any requests, worker rounds,
  -- recoveries and cleanings, in any order and with any failures. A query meets every row once, and
  -- whoever else writes in between leaves the job so.
  pub run-final :
      (acts : List Act) (w : World)
      → IsSettled k s w.db
      → let d = (run env host trim url token acts w).db in
        (any (has_id k) d.jobs ≡ true) × ((x : JobRow) → Memᴰ x d.jobs → x.id ≡ k → x.status ≡ s)
  run-final acts w h = let after = run-IsSettled acts w h in (after.present, after.rows)
