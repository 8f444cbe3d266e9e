-- ===== src/Lifecycle/Planless.antt =====
-- An apply needs a plan under the name of its own job, and no apply job has one: across the whole
-- orchestrator, nothing is applied.
use mathlib.Core.List.{Memᴰ}
use openenvx_cloud.Prelude.{◌≡◌, ◌≢◌, refl, String, List, [], ◌∷◌}
use openenvx_cloud.Models.{applied, JobRow, Job}
use openenvx_cloud.World.{Result, ok, err, World, Env, pure, attempt, ◌>>=◌}
use openenvx_cloud.Db.Claims.{IsScan}
use openenvx_cloud.Db.Queue.{claim_next_job}
use openenvx_cloud.Terraform.{Host}
use openenvx_cloud.Daemon.Worker.{process_claimed, worker_tick, claimed_statuses}
use openenvx_cloud.Lifecycle.Rows.{Holds}
use openenvx_cloud.Lifecycle.Claimed.{And, claim_next_job-And}
use openenvx_cloud.Lifecycle.Requests.{calls-KeepsRequests, serve-Keeps}
use openenvx_cloud.Lifecycle.Stuck.{IsStuck, LeavesStuck}
use openenvx_cloud.Lifecycle.Stuck.Calls.{IsStuck-calls}
use openenvx_cloud.Lifecycle.System.{
  Act, serves, works, recovers, cleans, perform, run, OthersHold, Nothing, recover-Keeps,
  cleanup-Keeps, perform-Holds,
}
use openenvx_cloud.Lifecycle.Stuck.Processing.{process-Claimed}

module _ (env : Env) (scans : IsScan env) (others : OthersHold env) (host : Host)
    (trim : String → String) (url token : String) (k : String) (leaves : LeavesStuck env k) where
  claimed-IsStuck :
      (claimed : Result Job) (w : World)
      → ((job : Job) → claimed ≡ ok job → Holds (And Nothing job.row) w.db)
      → IsStuck k w.db w.bucket
      → let v = (process_claimed env host url token claimed w).1 in IsStuck k v.db v.bucket
  unfolding process_claimed pure
  claimed-IsStuck (err e) w known h = h
  claimed-IsStuck (ok job) w known h =
      ((process-Claimed env others host k leaves job url token).at w (known job refl, h)).1

  worker-IsStuck :
      (w : World)
      → Holds Nothing w.db
      → IsStuck k w.db w.bucket
      → let v = (worker_tick env host url token w).1 in IsStuck k v.db v.bucket
  unfolding worker_tick ◌>>=◌ attempt
  worker-IsStuck w h stuck =
      let (c, w') = claim_next_job env claimed_statuses w in
      claimed-IsStuck c w'
        (λ job e. claim_next_job-And env scans Nothing (others Nothing) claimed_statuses w job h e)
        (((IsStuck-calls env k leaves).claiming claimed_statuses).at w stuck)

  perform-IsStuck :
      (a : Act) (w : World)
      → Holds Nothing w.db
      → IsStuck k w.db w.bucket
      → let v = perform env host trim url token a w in IsStuck k v.db v.bucket
  unfolding perform
  perform-IsStuck (serves c q) w h stuck =
      (serve-Keeps env (calls-KeepsRequests env (IsStuck-calls env k leaves)) trim token c q).at w
        stuck
  perform-IsStuck works w h stuck = worker-IsStuck w h stuck
  perform-IsStuck recovers w h stuck = (recover-Keeps env (IsStuck-calls env k leaves)).at w stuck
  perform-IsStuck (cleans c) w h stuck =
      (cleanup-Keeps env (IsStuck-calls env k leaves) c).at w stuck

  run-IsStuck :
      (acts : List Act) (w : World)
      → Holds Nothing w.db
      → IsStuck k w.db w.bucket
      → let v = run env host trim url token acts w in IsStuck k v.db v.bucket
  unfolding run
  run-IsStuck [] w h stuck = stuck
  run-IsStuck (a ∷ acts) w h stuck =
      run-IsStuck acts _ (perform-Holds env scans others host trim url token Nothing a w h)
        (perform-IsStuck a w h stuck)

module _ (env : Env) (scans : IsScan env) (others : OthersHold env) (host : Host)
    (trim : String → String) (url token : String) where
  -- Nothing is ever applied. From tables that meet their constraints and hold lawful jobs only, none of
  -- them APPLIED, where the storage has a plan under the name of no job but one that is there and is no
  -- apply: after any requests, worker rounds, recoveries and cleanings, in any order and with any
  -- failures, no job is APPLIED, whether it was there or was created meanwhile. A query meets every row
  -- once; other processes keep what the orchestrator relies on, make no job APPLIED, and store plans
  -- for jobs alone that are there and are no applies.
  pub run-never_applied :
      ((k : String) → LeavesStuck env k)
      → (acts : List Act) (w : World) → Holds Nothing w.db
      → ((k : String) → IsStuck k w.db w.bucket)
      → (s : JobRow) → Memᴰ s (run env host trim url token acts w).db.jobs
      → s.status ≢ applied
  run-never_applied leaves acts w h stuck s n =
      (run-IsStuck env scans others host trim url token s.id (leaves s.id) acts w h
          (stuck s.id)).unapplied
        s n refl
