-- ===== src/Tests/Pool.antt =====
-- The theorems on the worker pool, with one worker and a context that is done while it is busy.
use openenvx_cloud.Prelude.{◌<◌, ◌≡◌, refl, ◌⊎◌, Bool, true, false, [], ◌∷◌}
use openenvx_cloud.Models.{Job}
use openenvx_cloud.World.{Result, ok, err, no_rows}
use openenvx_cloud.Daemon.Pool.{
  Phase, ready, busy, Pool, new_worker_pool, serving, here, process, work,
}
use openenvx_cloud.Daemon.Pool.Draining.{remaining, step-remaining}
use openenvx_cloud.Tests.{running_job}

-- A context that is done fails every query.
abbrev Answers : Bool → Result Job → Type 0
Answers false r = Unit {0}
Answers true r = r ≡ err no_rows

refuses : (job : Job) → Answers true (ok job) → ⊥
refuses job e = cc

abbrev stage_of : Phase → Pool
stage_of p = record (new_worker_pool 1) { wg = 1; phases = p ∷ []; done = true; stage = serving }

step-remaining_example :
    (remaining (stage_of ready) < remaining (stage_of (busy running_job)))
    ⊎ (stage_of ready ≡ stage_of (busy running_job))
step-remaining_example =
    step-remaining Answers refuses (stage_of (busy running_job)) (stage_of ready) refl
      (work (here process))
