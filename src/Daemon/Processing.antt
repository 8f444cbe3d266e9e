-- ===== src/Daemon/Processing.antt =====
-- The processing of a job as a whole, by the frame of its parts.
use openenvx_cloud.Prelude.{
  ◌≡◌, ◌≢◌, refl, inl, inr, String, List, true, Option-cases, eq_iff, ◌==◌, arith,
}
use openenvx_cloud.Models.{Bytes, Job, Fields, empty, field}
use openenvx_cloud.World.{Result, ok, err, Env}
use openenvx_cloud.World.Keeps.{
  Claim, Keeps, Keeps-pure, Keeps-raise, Keeps-attempt, Keeps-rewrap, Keeps-if, Keeps-if_true,
  Keeps-host_call, Keeps-look, Keeps-fresh_log, ◌⊳◌,
}
use openenvx_cloud.Storage.Keeps.{ensure_bucket-Keeps}
use openenvx_cloud.Terraform.{Host, write_backend_config}
use openenvx_cloud.Terraform.Keeps.{write_file-Keeps, new_runner-Keeps, init-Keeps}
use openenvx_cloud.Daemon.Execute.{
  write_variables, generate_terraform_files, dispatch, work, in_work_dir, make_dir, remove_dir,
  settled, execute_job,
}
use openenvx_cloud.Daemon.Frame.{KeepsWrites, handle_plan-Keeps, handle_destroy-Keeps}
use openenvx_cloud.Daemon.Worker.{save_log, conclude, process_job}

other_word :
    (op word : String) → (◌≢◌ {A = String} word "apply") → (op == word) ≡ true → op ≢ "apply"
other_word op word other e a = ground (arith, eq_iff op word)

module _ (env : Env) (host : Host) (url token : String) {P : Claim} (job : Job)
    (writes : KeepsWrites env host P job) where
  write_variables-Keeps : (vars : Fields) → Keeps P (write_variables env host url token vars)
  unfolding write_variables
  write_variables-Keeps empty = Keeps-pure tt
  write_variables-Keeps (field k v fs) =
      Keeps-rewrap _ _ (Keeps-host_call _ (λ t w. refl)) ⊳ λ json.
      Keeps-rewrap _ _ (write_file-Keeps host _ _)

  dispatch-Keeps : Keeps P (dispatch env host url token job)
  unfolding dispatch
  dispatch-Keeps =
      Keeps-if_true _ _ _
        (λ e.
          handle_plan-Keeps env host job writes
            (other_word job.operation "plan" (ground (arith, eq_iff "plan" "apply")) e))
        (Keeps-if_true _ _ _ (λ e. writes.applying ((eq_iff job.operation "apply").0 e))
          (Keeps-if_true _ _ _
            (λ e.
              handle_destroy-Keeps env host job writes
                (other_word job.operation "destroy" (ground (arith, eq_iff "destroy" "apply")) e))
            (Keeps-raise _)))

  work-Keeps : Keeps P (work env host url token job)
  unfolding work generate_terraform_files write_backend_config
  work-Keeps = Keeps-rewrap _ _ (write_file-Keeps host _ _) ⊳ λ _.
      Keeps-rewrap _ _
        (Keeps-rewrap _ _ (write_file-Keeps host _ _) ⊳ λ _. write_variables-Keeps job.variables)
      ⊳ λ _. Keeps-rewrap _ _ (init-Keeps host) ⊳ λ _. dispatch-Keeps

  in_work_dir-Keeps :
      (secrets : List (String × String)) → Keeps P (in_work_dir env host url token job secrets)
  unfolding in_work_dir
  in_work_dir-Keeps secrets = Keeps-rewrap _ _ (new_runner-Keeps host _) ⊳ λ _.
      Keeps-attempt _ work-Keeps ⊳ λ done. Keeps-host_call _ (λ t w. refl)

  make_dir-Keeps : Keeps P (make_dir env host url token)
  unfolding make_dir
  make_dir-Keeps =
      Keeps-host_call _
        λ t w. elim (Option-cases (host.os t)) [ inl e ↦ rw e refl | inr (s, e) ↦ rw e refl ]

  settled-Keeps : (done : Result (Unit {0})) → Keeps P (settled env host url token done)
  unfolding settled
  settled-Keeps (ok a) = Keeps-pure a
  settled-Keeps (err e) = Keeps-raise e

  execute_job-Keeps : Keeps P (execute_job env host url token job)
  unfolding execute_job remove_dir
  execute_job-Keeps =
      Keeps-rewrap _ _ (ensure_bucket-Keeps env writes.stable_bucket writes.bucket_made) ⊳ λ _.
      Keeps-rewrap _ _ (Keeps-host_call _ (λ t w. refl)) ⊳ λ secrets.
      Keeps-rewrap _ _ make_dir-Keeps ⊳ λ _. Keeps-attempt _ (in_work_dir-Keeps secrets) ⊳ λ done.
      Keeps-host_call _ (λ t w. refl) ⊳ λ _. settled-Keeps done

  save_log-Keeps : (log : Bytes) → Keeps P (save_log env host url token job log)
  unfolding save_log
  save_log-Keeps log = Keeps-if _ _ _ (Keeps-pure tt) (
      Keeps-attempt _ (writes.log_upload log) ⊳ λ _.
      Keeps-attempt _ (writes.summary _) ⊳ λ _. Keeps-pure tt)

  conclude-Keeps : (done : Result (Unit {0})) → Keeps P (conclude env host url token job done)
  unfolding conclude
  conclude-Keeps (ok _) = Keeps-pure tt
  conclude-Keeps (err e) = Keeps-attempt _ writes.to_failed ⊳ λ _. Keeps-pure tt

  -- Whatever happens while a worker processes a job, the tables are written by these calls alone: the
  -- result and the summary of this job, its statuses PLANNED and FAILED, an apply where its operation
  -- is `apply`, and the promotion of the next job of its project; and the bucket by these: its
  -- creation, the upload of this job's plan where its operation is not `apply`, and that of its log.
  -- What others and those calls keep of the tables and the bucket, the worker keeps.
  pub process_job-Keeps : Keeps P (process_job env host url token job)
  unfolding process_job
  process_job-Keeps =
      Keeps-attempt _ (
        Keeps-fresh_log ⊳ λ _. Keeps-attempt _ execute_job-Keeps ⊳ λ done.
        Keeps-look _ ⊳ λ log. save_log-Keeps log ⊳ λ _. conclude-Keeps done)
      ⊳ λ _. Keeps-attempt _ writes.promotion ⊳ λ _. Keeps-pure tt
