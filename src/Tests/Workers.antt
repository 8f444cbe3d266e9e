-- ===== src/Tests/Workers.antt =====
-- The theorems on workers, with tools that succeed.
use openenvx_cloud.Storage.{upload}
use openenvx_cloud.Db.Rows.{update_where, scan_row, head?, join, with_labels}
use openenvx_cloud.Db.Jobs.{get_job, update_job_plan_result, update_job_status}
use openenvx_cloud.Terraform.{plan, show}
use openenvx_cloud.Daemon.Hooks.{with_hooks, with_cancellation_check}
use mathlib.Core.List.{Memᴰ}
use openenvx_cloud.Prelude.{◌≡◌, refl, [], ◌∷◌, ◌++◌, some, ◌≤◌, ◌⊎◌, length, filter}
use openenvx_cloud.Models.{planned, Bytes, JobRow}
use openenvx_cloud.World.{ok, World, ◌>>=◌, rewrap, host_call, statement, object_call}
use openenvx_cloud.World.Keeps.{Tables, Keeps}
use openenvx_cloud.Daemon.Handlers.{handle_plan}
use openenvx_cloud.Daemon.Outcome.{handle_plan-planned}
use openenvx_cloud.Daemon.Execute.{execute_job}
use openenvx_cloud.Daemon.Cleanup.{IsRemoved, work_dir-execute_job}
use openenvx_cloud.Daemon.Worker.{process_job}
use openenvx_cloud.Daemon.Processing.{process_job-Keeps}
use openenvx_cloud.Daemon.Summary.{extract_summary}
use openenvx_cloud.Daemon.Summary.Laws.{IsLastLines, extract_summary_lem}
use openenvx_cloud.Lifecycle.Rows.{Holds}
use openenvx_cloud.Lifecycle.Claimed.{And}
use openenvx_cloud.Lifecycle.System.{Nothing, processing}
use openenvx_cloud.Tests.{quiet, quiet-OthersHold, tools, start, running_row, running_job}

process_job-Keeps_example :
    Keeps
      (Tables (Holds (And Nothing running_row)))
      (process_job quiet tools "url" "token" running_job)
process_job-Keeps_example =
    process_job-Keeps quiet tools "url" "token" running_job
      (processing quiet tools Nothing running_job (quiet-OthersHold (And Nothing running_row)))

-- In the working directory of the job.
abbrev ready : World
ready = record start { work_dir = some [] }

abbrev planned_job : JobRow
planned_job = record running_row {
  status = planned;
  plan_output_path = some "jobs/job-3/tfplan";
  plan_summary = some (4 ∷ []);
  updated_at = 6;
}

handle_plan-runs : (handle_plan quiet tools running_job ready).0 ≡ ok tt
unfolding handle_plan ◌>>=◌ with_hooks with_cancellation_check rewrap plan host_call get_job
    statement scan_row head? join filter show upload object_call update_job_plan_result
    update_job_status with_labels
handle_plan-runs = refl

handle_plan-writes : Memᴰ planned_job (handle_plan quiet tools running_job ready).1.db.jobs
unfolding handle_plan ◌>>=◌ with_hooks with_cancellation_check rewrap plan host_call get_job
    statement scan_row head? join filter show upload object_call update_job_plan_result
    update_job_status with_labels update_where
handle_plan-writes = Memᴰ.tail (Memᴰ.tail (Memᴰ.head refl))

handle_plan-planned_example : planned_job.status ≡ planned
handle_plan-planned_example =
    handle_plan-planned quiet tools running_job ready handle_plan-runs planned_job
      handle_plan-writes refl

-- Two lines.
abbrev log : Bytes
log = 97 ∷ 10 ∷ 98 ∷ []

extract_summary_lem_example :
    (before : Bytes) × (cut : Bytes) × (log ≡ before ++ (cut ++ extract_summary log))
    × IsLastLines before (cut ++ extract_summary log)
    × (((cut ≡ []) × (length (extract_summary log) ≤ 4000))
        ⊎ ((1 ≤ length cut) × (length (extract_summary log) ≡ 4000)))
extract_summary_lem_example = extract_summary_lem log

work_dir-execute_job_example :
    IsRemoved tools (execute_job quiet tools "url" "token" running_job start).1.work_dir
work_dir-execute_job_example = work_dir-execute_job quiet tools "url" "token" running_job start refl
