-- ===== src/Api/Jobs.antt =====
-- internal/api/handlers_jobs.go
use openenvx_cloud.Prelude.{
  String, Bool, List, [], ◌∷◌, Option, none, some, ◌==◌, ◌||◌, not, ◌<>◌, if◌then◌else◌,
}
use openenvx_cloud.Models.{
  JobStatus, pending_plan, planning, planned, approved, queued, applying, applied, destroying,
  destroyed, failed, cancelled, status_eq, status_in, Job,
}
use openenvx_cloud.World.{Result, ok, err, Env, M, pure, attempt, ◌>>=◌}
use openenvx_cloud.Db.Jobs.{NewJob}
use openenvx_cloud.Api.Interfaces.{store_of}
use openenvx_cloud.Api.Reply.{Reply, failure, plain, job}

unfoldable pub is_incomplete : NewJob → Bool
is_incomplete n = n.project_id == "" || (n.operation == "" || n.module_name == "")

abbrev pub first_status : Bool → JobStatus
first_status active = if active then queued else pending_plan

unfoldable pub created_reply : Result Job → Reply
created_reply (ok j) = record { code = 201; body = job j }
created_reply (err e) = failure 500 "Failed to create job"

-- The text of a status.
abbrev pub status_text : JobStatus → String
status_text pending_plan = "PENDING_PLAN"
status_text planning = "PLANNING"
status_text planned = "PLANNED"
status_text approved = "APPROVED"
status_text queued = "QUEUED"
status_text applying = "APPLYING"
status_text applied = "APPLIED"
status_text destroying = "DESTROYING"
status_text destroyed = "DESTROYED"
status_text failed = "FAILED"
status_text cancelled = "CANCELLED"

-- The statuses in which a job is not discarded.
abbrev pub undiscardable : List JobStatus
undiscardable = applying ∷ applied ∷ failed ∷ cancelled ∷ []

unfoldable pub got_reply : Result Job → Reply
got_reply (ok j) = record { code = 200; body = job j }
got_reply (err e) = failure 404 "Job not found"

unfoldable pub approved_reply : Job → Result (Unit {0}) → Reply
approved_reply j (err e) = failure 500 "Failed to approve job"
approved_reply j (ok _) = record {
  code = 200;
  body = job (record j { row = record j.row { status = approved } });
}

unfoldable pub discarded_reply : Result (Unit {0}) → Reply
discarded_reply (err e) = failure 500 "Failed to discard job"
discarded_reply (ok _) = plain 200

module _ (env : Env) where
  unfoldable pub create_checked : NewJob → Result Bool → M Reply
  unfolding created_reply
  create_checked n (err e) = pure (failure 500 "Failed to create job")
  create_checked n (ok active) = do
    made ← attempt ((store_of env).create_job n (first_status active))
    pure (created_reply made)

  unfoldable pub create_complete : NewJob → M Reply
  unfolding create_checked
  create_complete n = do
    active ← attempt ((store_of env).is_project_active n.project_id)
    create_checked n active

  unfoldable pub handle_create_job : Option NewJob → M Reply
  unfolding create_complete is_incomplete
  handle_create_job none = pure (failure 400 "Invalid request payload")
  handle_create_job (some n) =
      if is_incomplete n then pure (failure 400 "Missing required fields") else create_complete n

  unfoldable pub handle_get_job : String → M Reply
  unfolding got_reply
  handle_get_job id = do found ← attempt ((store_of env).get_job id); pure (got_reply found)

  unfoldable pub approve_found : String → Result Job → M Reply
  unfolding approved_reply
  approve_found id (err e) = pure (failure 404 "Job not found")
  approve_found id (ok j) =
      if not (status_eq j.status planned)
      then pure (failure 400 "Job is not in PLANNED status")
      else do
        done ← attempt ((store_of env).update_job_status id approved)
        pure (approved_reply j done)

  unfoldable pub handle_approve_job : String → M Reply
  unfolding approve_found
  handle_approve_job id = do found ← attempt ((store_of env).get_job id); approve_found id found

  -- Both branches on the error of `GetJob` answer alike.
  unfoldable pub discard_found : String → Result Job → M Reply
  unfolding discarded_reply
  discard_found id (err e) = pure (failure 404 "Job not found")
  discard_found id (ok j) =
      if status_in j.status undiscardable
      then pure (failure 400 ("Job cannot be discarded in " <> (status_text j.status <> " status")))
      else do
        done ← attempt ((store_of env).update_job_status id cancelled)
        pure (discarded_reply done)

  unfoldable pub handle_discard_job : String → M Reply
  unfolding discard_found
  handle_discard_job id = do found ← attempt ((store_of env).get_job id); discard_found id found
