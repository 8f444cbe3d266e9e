-- ===== src/Daemon/Interfaces.antt =====
-- internal/daemon/interfaces.go: what the daemon asks of the store and of the storage, and how the ones
-- that `main` hands to it, internal/db and internal/storage, answer.
use openenvx_cloud.Prelude.{ℕ, String, List}
use openenvx_cloud.Models.{JobStatus, Bytes, Job}
use openenvx_cloud.World.{Env, M}
use openenvx_cloud.Db.Jobs
use openenvx_cloud.Db.Queue
use openenvx_cloud.Storage
use openenvx_cloud.Storage.{ObjectInfo, Reader}

pub record JobStore : Type 0 where
  pub fetch_jobs_by_statuses : List JobStatus → M (List Job)
  pub update_job_status : String → JobStatus → M (Unit {0})
  pub get_job : String → M Job
  pub fail_timed_out_jobs : ℕ → M ℕ
  pub claim_next_job : List JobStatus → M Job
  pub update_job_plan_result : String → String → Bytes → M (Unit {0})
  pub update_job_summary : String → Bytes → M (Unit {0})
  pub promote_next_job : String → M Job

pub record ObjectStorage : Type 0 where
  pub upload : String → Bytes → String → M String
  pub download : String → M Reader
  pub stat : String → M ObjectInfo
  pub ensure_bucket : M (Unit {0})

abbrev pub store_of : Env → JobStore
store_of env = record {
  fetch_jobs_by_statuses = Jobs.fetch_jobs_by_statuses env;
  update_job_status = Jobs.update_job_status env;
  get_job = Jobs.get_job env;
  fail_timed_out_jobs = Queue.fail_timed_out_jobs env;
  claim_next_job = Queue.claim_next_job env;
  update_job_plan_result = Jobs.update_job_plan_result env;
  update_job_summary = Jobs.update_job_summary env;
  promote_next_job = Queue.promote_next_job env;
}

abbrev pub storage_of : Env → ObjectStorage
storage_of env = record {
  upload = Storage.upload env;
  download = Storage.download env;
  stat = Storage.stat env;
  ensure_bucket = Storage.ensure_bucket env;
}
