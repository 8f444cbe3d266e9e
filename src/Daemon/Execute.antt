-- ===== src/Daemon/Execute.antt =====
-- internal/daemon/worker_execute.go: the preparation of a job's working directory, the choice of the
-- handler by the operation, and the two goroutines of `executeJob`.
use openenvx_cloud.Prelude.{String, List, [], Option, none, some, ◌==◌, ◌<>◌, if◌then◌else◌}
use openenvx_cloud.Models.{Job, Fields, empty, field}
use openenvx_cloud.World.{
  Result, ok, err, fault, wrap, text, WorkDir, Env, M, pure, raise, attempt, rewrap, host_call,
  ◌>>=◌, ◌>>◌,
}
use openenvx_cloud.Maps.{set_key}
use openenvx_cloud.Infisical.{get_secrets}
use openenvx_cloud.Daemon.Interfaces.{storage_of}
use openenvx_cloud.Terraform
use openenvx_cloud.Terraform.{
  Host, BackendConfig, write_file, report, new_runner, write_backend_config,
}
use openenvx_cloud.Daemon.Handlers.{handle_plan, handle_apply, handle_destroy}

unfoldable pub main_tf : String → String
main_tf module_name = "\nmodule \"main\" {\n  source = \"" <> (module_name <> "\"\n}\n")

abbrev pub secrets_path : String → String
secrets_path project_id = "/projects/" <> (project_id <> "/terraform")

-- `secrets["TF_PLUGIN_CACHE_DIR"] = …`
unfoldable pub runner_env : List (String × String) → List (String × String)
unfolding set_key
runner_env secrets = set_key "TF_PLUGIN_CACHE_DIR" "/tmp/openenvx-tf-cache" secrets

unfoldable pub made : WorkDir → WorkDir
made none = some []
made (some fs) = some fs

-- The error that `g.Wait` and `executeErr` leave: that of the work where there is one, otherwise
-- that of the goroutine that reads the output.
unfoldable pub waited : Result (Unit {0}) → Option String → Result (Unit {0})
unfolding report
waited (err e) r = err e
waited (ok _) r = report r

module _ (env : Env) (host : Host) (orchestrator_url system_token : String) where
  unfoldable pub backend_config : Job → BackendConfig
  backend_config job = record {
    url = orchestrator_url <> ("/internal/api/v1/projects/" <> (job.project_id <> "/state"));
    username = "system";
    password = system_token;
  }

  unfoldable pub write_variables : Fields → M (Unit {0})
  write_variables empty = pure tt
  write_variables (field k v fs) = do
    json ← rewrap (wrap "marshal variables") (host_call λ t w. (host.marshal (field k v fs), w))
    rewrap (wrap "write terraform.tfvars.json")
        (write_file host "terraform.tfvars.json" (text json))

  unfoldable pub generate_terraform_files : Job → M (Unit {0})
  unfolding write_variables main_tf
  generate_terraform_files job = do
    rewrap (wrap "write main.tf") (write_file host "main.tf" (text (main_tf job.module_name)))
    write_variables job.variables

  -- The `switch` on the operation.
  unfoldable pub dispatch : Job → M (Unit {0})
  dispatch job =
      if job.operation == "plan"
      then handle_plan env host job
      else if job.operation == "apply"
      then handle_apply env host job
      else if job.operation == "destroy"
      then handle_destroy env host job
      else raise (fault ("unknown operation: " <> job.operation))

  -- The second goroutine.
  unfoldable pub work : Job → M (Unit {0})
  unfolding backend_config generate_terraform_files dispatch
  work job = do
    rewrap (wrap "write backend config") (write_backend_config host (backend_config job))
    rewrap (wrap "generate terraform files") (generate_terraform_files job)
    rewrap (wrap "terraform init failed") (Terraform.init host)
    dispatch job

  unfoldable pub in_work_dir : Job → List (String × String) → M (Unit {0})
  unfolding work waited runner_env
  in_work_dir job secrets = do
    rewrap (wrap "init terraform runner") (new_runner host (runner_env secrets))
    done ← attempt (work job)
    host_call λ t w. (waited done (host.reader t), w)

  -- os.MkdirAll, and os.RemoveAll deferred.
  unfoldable pub make_dir : M (Unit {0})
  unfolding made
  make_dir = host_call λ t w. elim (host.os t) [
    | none ↦ (ok tt, record w { work_dir = made w.work_dir })
    | some s ↦ (err (fault s), w)
  ]

  unfoldable pub remove_dir : M (Unit {0})
  remove_dir = host_call λ t w. (ok tt, record w { work_dir = host.removed t w.work_dir })

  unfoldable pub settled : Result (Unit {0}) → M (Unit {0})
  settled (ok a) = pure a
  settled (err e) = raise e

  unfoldable pub execute_job : Job → M (Unit {0})
  unfolding in_work_dir make_dir remove_dir settled get_secrets
  execute_job job = do
    rewrap (wrap "ensure bucket") (storage_of env).ensure_bucket
    secrets ← rewrap (wrap "fetch secrets") (
        host_call λ t w. (
          get_secrets (host.list_secrets t) job.project_id "prod" (secrets_path job.project_id),
          w,
        ))
    rewrap (wrap "mkdir workdir") make_dir
    done ← attempt (in_work_dir job secrets)
    remove_dir
    settled done
