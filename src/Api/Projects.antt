-- ===== src/Api/Projects.antt =====
-- internal/api/handlers_projects.go: the HTTP backend for the state of Terraform.
use openenvx_cloud.Prelude.{String, Option, none, some, ◌==◌, ◌<>◌, if◌then◌else◌}
use openenvx_cloud.Models.{Bytes, Job}
use openenvx_cloud.World.{
  Error, no_rows, fault, wrap, Result, ok, err, Env, M, pure, attempt, is_no_rows, ◌>>=◌,
}
use openenvx_cloud.Storage.{get_project_state_path, ObjectInfo, Reader}
use openenvx_cloud.Api.Interfaces.{store_of, storage_of}
use openenvx_cloud.Api.Reply.{Reply, failure, plain, locked, stream, torn}

-- `err.Error()`
unfoldable pub error_text : Error → String
error_text no_rows = "no rows in result set"
error_text (fault s) = s
error_text (wrap s e) = s <> (": " <> error_text e)

-- `c.Stream`: the header is sent, and then the body until its end or until a read that fails.
unfoldable pub state_reply : Result Reader → Reply
state_reply (err e) = failure 500 "Failed to get state"
state_reply (ok reader) = record {
  code = 200;
  body = elim reader.broken [ none ↦ stream reader.content | some s ↦ torn reader.content s ];
}

unfoldable pub uploaded_reply : Result String → Reply
uploaded_reply (err e) = failure 500 "Failed to upload state"
uploaded_reply (ok _) = plain 200

unfoldable pub lock_reply : Result Job → Reply
lock_reply (ok j) = record { code = 423; body = locked "Project is locked" j.id }
lock_reply (err e) = if is_no_rows e then plain 200 else failure 500 "Internal Server Error"

unfoldable pub unlock_reply : Result (Unit {0}) → Reply
unfolding error_text
unlock_reply (err e) = failure 500 (error_text e)
unlock_reply (ok _) = plain 200

module _ (env : Env) where
  unfoldable pub get_state_found : String → Result ObjectInfo → M Reply
  unfolding state_reply
  get_state_found name (err e) = pure (plain 404)
  get_state_found name (ok _) = do
    reader ← attempt ((storage_of env).download name)
    pure (state_reply reader)

  unfoldable pub handle_get_project_state : String → M Reply
  unfolding get_state_found
  handle_get_project_state project_id = do
    info ← attempt ((storage_of env).stat (get_project_state_path project_id))
    get_state_found (get_project_state_path project_id) info

  unfoldable pub handle_post_project_state : String → Bytes → M Reply
  unfolding uploaded_reply
  handle_post_project_state project_id content = do
    done ←
        attempt
          ((storage_of env).upload (get_project_state_path project_id) content "application/json")
    pure (uploaded_reply done)

  unfoldable pub handle_lock_project_state : String → M Reply
  unfolding lock_reply
  handle_lock_project_state project_id = do
    active ← attempt ((store_of env).get_active_job_for_project project_id)
    pure (lock_reply active)

  -- The payload's ID, or that of the query where the payload has none.
  unfoldable pub handle_unlock_project_state : String → Option String → String → M Reply
  unfolding unlock_reply
  handle_unlock_project_state project_id none query_id = pure (failure 400 "Invalid lock payload")
  handle_unlock_project_state project_id (some id) query_id = do
    done ←
        attempt ((store_of env).unlock_project_state project_id (if id == "" then query_id else id))
    pure (unlock_reply done)
