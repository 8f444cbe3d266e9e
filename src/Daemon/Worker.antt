-- ===== src/Daemon/Worker.antt =====
-- internal/daemon/worker.go: one round of a worker, and the processing of the job that it claims.
use openenvx_cloud.Prelude.{String, List, [], ◌∷◌, ◌<>◌, nat_eq, length, if◌then◌else◌}
use openenvx_cloud.Models.{JobStatus, pending_plan, approved, failed, Bytes, Job}
use openenvx_cloud.World.{Result, ok, err, Env, M, pure, attempt, look, fresh_log, ◌>>=◌, ◌>>◌}
use openenvx_cloud.Daemon.Interfaces.{store_of, storage_of}
use openenvx_cloud.Terraform.{Host}
use openenvx_cloud.Daemon.Execute.{execute_job}
use openenvx_cloud.Daemon.Summary.{extract_summary}

abbrev pub run_log : String → String
run_log job_id = "jobs/" <> (job_id <> "/run.log")

abbrev pub claimed_statuses : List JobStatus
claimed_statuses = pending_plan ∷ approved ∷ []

module _ (env : Env) (host : Host) (orchestrator_url system_token : String) where
  -- Where the log is not empty it is uploaded, and its end becomes the summary; errors of either are
  -- only logged.
  unfoldable pub save_log : Job → Bytes → M (Unit {0})
  save_log job log = if nat_eq (length log) 0 then pure tt else do
    attempt ((storage_of env).upload (run_log job.id) log "text/plain")
    attempt ((store_of env).update_job_summary job.id (extract_summary log))
    pure tt

  unfoldable pub conclude : Job → Result (Unit {0}) → M (Unit {0})
  conclude job (ok _) = pure tt
  conclude job (err e) = do attempt ((store_of env).update_job_status job.id failed); pure tt

  unfoldable pub process_body : Job → M (Unit {0})
  unfolding save_log conclude
  process_body job = do
    fresh_log
    done ← attempt (execute_job env host orchestrator_url system_token job)
    log ← look (λ w. w.log)
    save_log job log
    conclude job done

  -- The promotion is deferred: it is made however the body returns.
  unfoldable pub process_job : Job → M (Unit {0})
  unfolding process_body
  process_job job = do
    attempt (process_body job)
    attempt ((store_of env).promote_next_job job.project_id)
    pure tt

  unfoldable pub process_claimed : Result Job → M (Unit {0})
  unfolding process_job
  process_claimed (err e) = pure tt
  process_claimed (ok job) = process_job job

  -- One tick of `worker`.
  unfoldable pub worker_tick : M (Unit {0})
  unfolding process_claimed
  worker_tick = do
    claimed ← attempt ((store_of env).claim_next_job claimed_statuses)
    process_claimed claimed
