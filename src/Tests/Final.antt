-- ===== src/Tests/Final.antt =====
-- The theorem on settled jobs, on one that has failed beside one that waits.
use mathlib.Core.List.{Memᴰ}
use openenvx_cloud.Prelude.{◌≡◌, refl, sym, ap, ◌∙◌, arith, eq_iff, [], ◌∷◌, some, List, any, true}
use openenvx_cloud.Models.{failed, JobRow}
use openenvx_cloud.World.{World}
use openenvx_cloud.Db.Rows.{has_id}
use openenvx_cloud.Api.Routes.{discard_job}
use openenvx_cloud.Lifecycle.Settled.{IsSettled}
use openenvx_cloud.Lifecycle.Final.{run-final}
use openenvx_cloud.Lifecycle.System.{Act, serves, works, recovers, run}
use openenvx_cloud.Tests.{quiet, quiet-IsScan, tables, tools, start, row, waiting_row}

abbrev broken : World
broken = record start {
  db = record tables { jobs = row "job-1" "p-1" failed "plan" 3 ∷ waiting_row ∷ [] };
}

broken-IsSettled : IsSettled "job-1" failed broken.db
unfolding any
broken-IsSettled = record { present = refl; rows = rows }
  where
    rows : (x : JobRow) → Memᴰ x broken.db.jobs → x.id ≡ "job-1" → x.status ≡ failed
    rows x (Memᴰ.head q) i = ap (λ (y : JobRow). y.status) q
    rows x (Memᴰ.tail (Memᴰ.head q)) i =
        let clash : waiting_row.id ≡ "job-1" = sym (ap (λ (y : JobRow). y.id) q) ∙ i in
        absurd (ground (arith, eq_iff "job-2" "job-1", clash))
    rows x (Memᴰ.tail (Memᴰ.tail m)) i = elim m [ ]

-- It is discarded, a worker looks for a job, and the orchestrator recovers.
abbrev acts : List Act
acts = serves (some ("u-1", "o-1")) (discard_job "job-1") ∷ works ∷ recovers ∷ []

run-final_example :
    let d = (run quiet tools (λ s. s) "url" "token" acts broken).db in
    (any (has_id "job-1") d.jobs ≡ true)
    × ((x : JobRow) → Memᴰ x d.jobs → x.id ≡ "job-1" → x.status ≡ failed)
run-final_example =
    run-final quiet quiet-IsScan tools (λ s. s) "url" "token" "job-1" failed refl (λ t d h. h) acts
      broken broken-IsSettled
