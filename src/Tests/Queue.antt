-- ===== src/Tests/Queue.antt =====
-- The theorems on the queue, on three jobs.
use mathlib.Core.List.{Memᴰ}
use openenvx_cloud.Prelude.{ℕ, ◌≡◌, refl, ◌⊎◌, [], ◌∷◌, true, false}
use openenvx_cloud.Models.{queued, failed, planned, JobRow}
use openenvx_cloud.Db.Timeouts.{IsOverdue, Swept, fail_timed_out_jobs_lem}
use openenvx_cloud.World.{World, ok}
use openenvx_cloud.Db.Claims.{Takes, claim_in-Takes, promote_in-Takes}
use openenvx_cloud.Db.Queue.{
  claimable, claim, claim_in, promotable, promote, promote_in, fail_timed_out_jobs,
}
use openenvx_cloud.Daemon.Recovery.{recover_jobs}
use openenvx_cloud.Daemon.Recovery.Laws.{IsQuiet, is_stale, recover_jobs_lem}
use openenvx_cloud.Tests.{quiet, quiet-IsScan, tables, tables-IsWellFormed, start}

claim_in-Takes_example :
    let out = claim_in quiet (planned ∷ queued ∷ []) 5 tables in
    Takes (claimable quiet (planned ∷ queued ∷ []) 5) (claim quiet 5) tables out.0 out.1
claim_in-Takes_example =
    claim_in-Takes quiet quiet-IsScan (planned ∷ queued ∷ []) 5 tables (refl, (refl, tt))
      (refl, (refl, (refl, tt))) tables-IsWellFormed

promote_in-Takes_example :
    let out = promote_in quiet "p-1" 5 tables in
    Takes (promotable quiet "p-1" 5) (promote quiet 5) tables out.0 out.1
promote_in-Takes_example =
    promote_in-Takes quiet quiet-IsScan "p-1" 5 tables (refl, (refl, tt)) tables-IsWellFormed

quiet-IsQuiet : IsQuiet quiet
quiet-IsQuiet = record { answered = λ t. refl; alone = λ t d. refl }

recover_jobs_lem_example :
    ((recover_jobs quiet start).0 ≡ ok tt)
    × ((x : JobRow)
        → Memᴰ x (recover_jobs quiet start).1.db.jobs
        → (r : JobRow) × Memᴰ r start.db.jobs
          × (r.id ≡ x.id)
          × (((x ≡ r) × (is_stale r ≡ false)) ⊎ ((x.status ≡ failed) × (is_stale r ≡ true))))
recover_jobs_lem_example =
    recover_jobs_lem quiet quiet-IsQuiet quiet-IsScan (refl, (refl, (refl, tt))) refl start
      tables-IsWellFormed

-- A timeout of less than a second, after the job in the queue was created.
abbrev late : World
late = record start { tick = 9 }

fail_timed_out_jobs_lem_example :
    let (r, v) = fail_timed_out_jobs quiet 999999999 late in
    (n : ℕ) × (r ≡ ok n)
    × Swept quiet 999999999 9 n tables.jobs v.db.jobs
    × ((x : JobRow) → Memᴰ x v.db.jobs → ¬ IsOverdue quiet 999999999 9 x)
fail_timed_out_jobs_lem_example =
    fail_timed_out_jobs_lem quiet 999999999 (refl, (refl, tt)) late refl
