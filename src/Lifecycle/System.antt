-- ===== src/Lifecycle/System.antt =====
-- The orchestrator as a whole: requests, workers, the recovery at the start and the cleaning timer, in
-- any order, while other processes write the same tables.
use mathlib.Core.List.{Memᴰ}
use openenvx_cloud.Prelude.{◌≡◌, refl, sym, inl, inr, String, true, List, [], ◌∷◌, Option, any}
use openenvx_cloud.Models.{failed, JobRow, Job}
use openenvx_cloud.World.{Result, ok, err, Db, World, Env, attempt, ◌>>=◌}
use openenvx_cloud.World.Keeps.{
  Claim, Tables, Stable, Keeps, Keeps-pure, Keeps-attempt, Keeps-rewrap, ◌⊳◌,
}
use openenvx_cloud.Storage.Keeps.{upload-Keeps}
use openenvx_cloud.Db.Claims.{IsScan}
use openenvx_cloud.Db.Queue.{claim_next_job}
use openenvx_cloud.Terraform.{Host}
use openenvx_cloud.Api.Routes.{Request, serve}
use openenvx_cloud.Daemon.Frame.{KeepsWrites, handle_apply-Keeps}
use openenvx_cloud.Daemon.Processing.{process_job-Keeps}
use openenvx_cloud.Daemon.Worker.{process_claimed, process_job, worker_tick, claimed_statuses}
use openenvx_cloud.Daemon.Recovery.{Config, fail_each, recover_jobs, cleanup_tick, stale_statuses}
use openenvx_cloud.Lifecycle.Rows.{IsLawful, Watch, Holds}
use openenvx_cloud.Db.Rows.{has_id}
use openenvx_cloud.Db.Updates.{NodupIds}
use openenvx_cloud.Lifecycle.Requests.{calls-KeepsRequests, serve-Keeps}
use openenvx_cloud.Lifecycle.Claimed.{And, And-Holds, claim_next_job-And}
use openenvx_cloud.Lifecycle.Statements.{update_applied-Holds, claim_next_job-Holds, Holds-calls}
use openenvx_cloud.Lifecycle.Frame.{KeepsCalls, calls-KeepsWrites, fetch_jobs_by_statuses-Keeps}

module _ (env : Env) {P : Claim} (calls : KeepsCalls env P) where
  pub recover-Keeps : Keeps P (recover_jobs env)
  unfolding recover_jobs
  recover-Keeps =
      Keeps-rewrap _ _ (fetch_jobs_by_statuses-Keeps env calls.stable stale_statuses) ⊳ each
    where
      each : (jobs : List Job) → Keeps P (fail_each env jobs)
      each [] = Keeps-pure tt
      each (j ∷ js) = Keeps-attempt _ (calls.status j.id failed refl) ⊳ λ _. each js

  pub cleanup-Keeps : (c : Config) → Keeps P (cleanup_tick env c)
  unfolding cleanup_tick
  cleanup-Keeps c = Keeps-attempt _ (calls.timeouts c.queue_timeout) ⊳ λ n. Keeps-pure tt

-- The operation of the job that a worker processes is known while it does.
pub processing :
    (env : Env) (host : Host) (W : Watch) (job : Job)
    → Stable env (Holds (And W job.row))
    → KeepsWrites env host (Tables (Holds (And W job.row))) job
processing env host W job stable =
    let K = And W job.row in
    let calls = Holds-calls K env stable in
    calls-KeepsWrites env host (Tables (Holds K)) job calls
      (λ _ content. upload-Keeps env _ _ _ calls.stable_bucket (λ d o m h. h))
      (λ e.
        handle_apply-Keeps env host job calls.stable calls.stable_bucket
          (update_applied-Holds K env stable job.id (inr (refl, sym e))))

-- What is known of more is known of less.
forget : (W : Watch) (r : JobRow) (d : Db) → Holds (And W r) d → Holds W d
forget W r d h = record {
  well_formed = h.well_formed;
  lawful = h.lawful;
  known = λ s m op w. h.known s m op (inl w);
  present = λ id op w. h.present id op (inl w);
}

-- Whatever anybody relies on, the others keep.
abbrev pub OthersHold : Env → Type 1
OthersHold env = (W : Watch) → Stable env (Holds W)

module _ (env : Env) (scans : IsScan env) (others : OthersHold env) (host : Host)
    (url token : String) where
  process-Holds :
      (W : Watch) (job : Job) (w : World)
      → Holds (And W job.row) w.db
      → Holds W (process_job env host url token job w).1.db
  process-Holds W job w h = forget W job.row _ (
      (process_job-Keeps env host url token job
          (processing env host W job (others (And W job.row)))).at
        w h)

  claimed-Holds :
      (W : Watch) (r : Result Job) (w : World)
      → ((job : Job) → r ≡ ok job → Holds (And W job.row) w.db)
      → Holds W w.db
      → Holds W (process_claimed env host url token r w).1.db
  unfolding process_claimed ◌>>=◌
  claimed-Holds W (err e) w known h = h
  claimed-Holds W (ok job) w known h = process-Holds W job w (known job refl)

  worker_tick-Holds : (W : Watch) → Keeps (Tables (Holds W)) (worker_tick env host url token)
  unfolding worker_tick ◌>>=◌ attempt
  worker_tick-Holds W = record {
    at = λ w h.
        let (r, w') = claim_next_job env claimed_statuses w in
        claimed-Holds W r w'
          (λ job e. claim_next_job-And env scans W (others W) claimed_statuses w job h e)
          ((claim_next_job-Holds W env (others W) claimed_statuses).at w h);
  }

-- What the orchestrator does at one time: it answers a request, lets a worker look for a job, recovers
-- after a start, or cleans the queue.
pub data Act : Type 0 where
  serves : Option (String × String) → Request → Act
  works : Act
  recovers : Act
  cleans : Config → Act

module _ (env : Env) (host : Host) (trim : String → String) (url token : String) where
  unfoldable pub perform : Act → World → World
  perform (serves c q) w = (serve env trim token c q w).1
  perform works w = (worker_tick env host url token w).1
  perform recovers w = (recover_jobs env w).1
  perform (cleans c) w = (cleanup_tick env c w).1

  unfoldable pub run : List Act → World → World
  unfolding perform
  run [] w = w
  run (a ∷ acts) w = run acts (perform a w)

module _ (env : Env) (scans : IsScan env) (others : OthersHold env) (host : Host)
    (trim : String → String) (url token : String) (W : Watch) where
  pub perform-Holds :
      (a : Act) (w : World) → Holds W w.db → Holds W (perform env host trim url token a w).db
  unfolding perform
  perform-Holds (serves c q) w h =
      (serve-Keeps env (calls-KeepsRequests env (Holds-calls W env (others W))) trim token c q).at w
        h
  perform-Holds works w h = (worker_tick-Holds env scans others host url token W).at w h
  perform-Holds recovers w h = (recover-Keeps env (Holds-calls W env (others W))).at w h
  perform-Holds (cleans c) w h = (cleanup-Keeps env (Holds-calls W env (others W)) c).at w h

  pub run-Holds :
      (acts : List Act) (w : World) → Holds W w.db → Holds W (run env host trim url token acts w).db
  unfolding run
  run-Holds [] w h = h
  run-Holds (a ∷ acts) w h = run-Holds acts _ (perform-Holds a w h)

-- Nobody relies on anything.
abbrev pub Nothing : Watch
Nothing id op = ⊥

module _ (env : Env) (scans : IsScan env) (others : OthersHold env) (host : Host)
    (trim : String → String) (url token : String) where
  watched :
      (acts : List Act) (w : World) (r : JobRow)
      → Holds Nothing w.db
      → Memᴰ r w.db.jobs
      → Holds (And Nothing r) (run env host trim url token acts w).db
  watched acts w r h m =
      run-Holds env scans others host trim url token (And Nothing r) acts w
        (And-Holds Nothing r w.db m h)

  -- From tables that meet their constraints and hold lawful jobs only, whatever requests, worker
  -- rounds, recoveries and cleanings follow, in any order, with any failures of the database, of the
  -- storage and of the tools: no job is ever DESTROYED, only a job with the operation `apply` is
  -- APPLYING or APPLIED, only one with `plan` is PLANNING, and only one with `destroy` is DESTROYING.
  -- A query meets every row once, and other processes that write the tables keep this too.
  pub run-IsLawful :
      (acts : List Act) (w : World)
      → Holds Nothing w.db
      → (r : JobRow) → Memᴰ r (run env host trim url token acts w).db.jobs
      → IsLawful r
  run-IsLawful acts w h = (run-Holds env scans others host trim url token Nothing acts w h).lawful

  -- From tables that meet their constraints and hold lawful jobs only, whatever requests, worker
  -- rounds, recoveries and cleanings follow, in any order and with any failures: a job stays in the
  -- table, alone under its id. A query meets every row once, and other processes keep what the
  -- orchestrator relies on.
  pub run-keeps_job :
      (acts : List Act) (w : World) (r : JobRow)
      → Holds Nothing w.db
      → Memᴰ r w.db.jobs
      → let d = (run env host trim url token acts w).db in
        (any (has_id r.id) d.jobs ≡ true) × NodupIds d.jobs
  run-keeps_job acts w r h m =
      let after = watched acts w r h m in
      (after.present r.id r.operation (inr (refl, refl)), after.well_formed.nodup)

  -- From tables that meet their constraints and hold lawful jobs only, whatever requests, worker
  -- rounds, recoveries and cleanings follow, in any order and with any failures: the operation of a job
  -- never changes. A query meets every row once, and other processes keep what the orchestrator relies
  -- on.
  pub run-keeps_operation :
      (acts : List Act) (w : World) (r : JobRow)
      → Holds Nothing w.db
      → Memᴰ r w.db.jobs
      → (s : JobRow) → Memᴰ s (run env host trim url token acts w).db.jobs
      → s.id ≡ r.id
      → s.operation ≡ r.operation
  run-keeps_operation acts w r h m s n e =
      (watched acts w r h m).known s n r.operation (inr (e, refl))
