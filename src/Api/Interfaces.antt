-- ===== src/Api/Interfaces.antt =====
-- internal/api/server.go: what the server asks of the store and of the storage, and how the ones that
-- `main` hands to it, internal/db and internal/storage, answer.
use openenvx_cloud.Prelude.{String, Bool, List}
use openenvx_cloud.Models.{JobStatus, Bytes, Job}
use openenvx_cloud.World.{Env, M}
use openenvx_cloud.Db.Jobs
use openenvx_cloud.Db.Jobs.{NewJob}
use openenvx_cloud.Db.Projects
use openenvx_cloud.Db.Queue
use openenvx_cloud.Storage
use openenvx_cloud.Storage.{ObjectInfo, Reader}

pub record JobStore : Type 0 where
  pub verify_user_and_org : String → String → M Bool
  pub is_project_active : String → M Bool
  pub create_job : NewJob → JobStatus → M Job
  pub get_job : String → M Job
  pub update_job_status : String → JobStatus → M (Unit {0})
  pub get_active_job_for_project : String → M Job
  pub claim_next_job : List JobStatus → M Job
  pub unlock_project_state : String → String → M (Unit {0})

pub record ObjectStorage : Type 0 where
  pub stat : String → M ObjectInfo
  pub download : String → M Reader
  pub upload : String → Bytes → String → M String

abbrev pub store_of : Env → JobStore
store_of env = record {
  verify_user_and_org = Projects.verify_user_and_org env;
  is_project_active = Projects.is_project_active env;
  create_job = Jobs.create_job env;
  get_job = Jobs.get_job env;
  update_job_status = Jobs.update_job_status env;
  get_active_job_for_project = Jobs.get_active_job_for_project env;
  claim_next_job = Queue.claim_next_job env;
  unlock_project_state = Projects.unlock_project_state env;
}

abbrev pub storage_of : Env → ObjectStorage
storage_of env = record {
  stat = Storage.stat env;
  download = Storage.download env;
  upload = Storage.upload env;
}
