-- ===== src/Api/Routes.antt =====
-- internal/api/server.go: the routes, as a request and the handler that it goes to, behind the
-- middleware. The stream of a job's log touches neither tables nor bucket, and sends its 200 first.
use openenvx_cloud.Prelude.{String, Option, List}
use openenvx_cloud.Models.{Bytes}
use openenvx_cloud.World.{Env, M, pure}
use openenvx_cloud.Db.Jobs.{NewJob}
use openenvx_cloud.Auth.{middleware}
use openenvx_cloud.Api.Reply.{Reply, logs}
use openenvx_cloud.Broker.{Broker}
use openenvx_cloud.Api.Stream.{Event, handle_stream_job_logs}
use openenvx_cloud.Api.Jobs.{
  handle_create_job, handle_get_job, handle_approve_job, handle_discard_job,
}
use openenvx_cloud.Api.Projects.{
  handle_get_project_state, handle_post_project_state, handle_lock_project_state,
  handle_unlock_project_state,
}

pub data Request : Type 0 where
  create_job : Option NewJob → Request
  get_job : String → Request
  approve_job : String → Request
  discard_job : String → Request
  get_state : String → Request
  post_state : String → Bytes → Request
  lock_state : String → Request
  unlock_state : String → Option String → String → Request
  stream_logs : String → List Event → Broker → Request  -- with what happens while it is served

module _ (env : Env) where
  unfoldable pub handle : Request → M Reply
  handle (create_job n) = handle_create_job env n
  handle (get_job id) = handle_get_job env id
  handle (approve_job id) = handle_approve_job env id
  handle (discard_job id) = handle_discard_job env id
  handle (get_state id) = handle_get_project_state env id
  handle (post_state id content) = handle_post_project_state env id content
  handle (lock_state id) = handle_lock_project_state env id
  handle (unlock_state id payload query) = handle_unlock_project_state env id payload query
  handle (stream_logs id events broker) =
      pure (record { code = 200; body = logs (handle_stream_job_logs id events broker) })

  unfoldable pub serve : (String → String) → String → Option (String × String) → Request → M Reply
  serve trim_space system_token credentials request =
      middleware env trim_space system_token (λ _. handle request) credentials
