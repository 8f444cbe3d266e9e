-- ===== src/Tests/System.antt =====
-- The theorems on the orchestrator as a whole: a member of the organization approves a planned job, the
-- orchestrator recovers, and a worker looks for a job.
use openenvx_cloud.Api.Jobs.{handle_approve_job}
use openenvx_cloud.Db.Projects.{verify_user_and_org}
use openenvx_cloud.Auth.{middleware}
use openenvx_cloud.Db.Jobs.{fetch_jobs_by_statuses, get_job, update_job_status}
use openenvx_cloud.Daemon.Recovery.{recover_jobs}
use mathlib.Core.List.{Memᴰ}
use openenvx_cloud.Prelude.{◌≡◌, refl, String, [], ◌∷◌, true, any, some, List, filter}
use openenvx_cloud.Models.{approved, JobRow}
use openenvx_cloud.World.{◌>>=◌, rewrap, statement, attempt}
use openenvx_cloud.Db.Rows.{has_id, with_labels, join, order_by, scan_row, head?, update_where}
use openenvx_cloud.Db.Updates.{NodupIds}
use openenvx_cloud.Api.Routes.{approve_job, serve, handle}
use openenvx_cloud.Lifecycle.Rows.{IsLawful}
use openenvx_cloud.Lifecycle.System.{
  Act, serves, recovers, works, run, run-IsLawful, run-keeps_job, run-keeps_operation,
}
use openenvx_cloud.Tests.{
  quiet, quiet-IsScan, quiet-OthersHold, tables-Holds, tools, start, planned_row, waiting_row,
}

abbrev trim : String → String
trim s = s

abbrev acts : List Act
acts = serves (some ("u-1", "o-1")) (approve_job "job-1") ∷ recovers ∷ []

abbrev approved_row : JobRow
approved_row = record planned_row { status = approved; updated_at = 2 }

approved_row-listed : Memᴰ approved_row (run quiet tools trim "url" "token" acts start).db.jobs
unfolding run recover_jobs ◌>>=◌ rewrap fetch_jobs_by_statuses statement with_labels join order_by
    filter serve middleware attempt verify_user_and_org any handle handle_approve_job get_job
    scan_row head? update_job_status update_where
approved_row-listed = Memᴰ.head refl

run-IsLawful_example : IsLawful approved_row
run-IsLawful_example =
    run-IsLawful quiet quiet-IsScan quiet-OthersHold tools trim "url" "token" acts start
      tables-Holds approved_row approved_row-listed

run-keeps_job_example :
    let d = (run quiet tools trim "url" "token" (works ∷ acts) start).db in
    (any (has_id "job-2") d.jobs ≡ true) × NodupIds d.jobs
run-keeps_job_example =
    run-keeps_job quiet quiet-IsScan quiet-OthersHold tools trim "url" "token" (works ∷ acts) start
      waiting_row tables-Holds (Memᴰ.tail (Memᴰ.head refl))

run-keeps_operation_example : approved_row.operation ≡ "plan"
run-keeps_operation_example =
    run-keeps_operation quiet quiet-IsScan quiet-OthersHold tools trim "url" "token" acts start
      planned_row tables-Holds (Memᴰ.head refl) approved_row approved_row-listed refl
