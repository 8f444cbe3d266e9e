-- ===== src/Daemon/Planning/Preparing.antt =====
-- internal/daemon/worker_execute.go: with tools and services that work, what `executeJob` does before the
-- operation of the job.
use mathlib.Core.List.{Memᴰ}
use openenvx_cloud.Prelude.{ℕ, ◌≡◌, refl, ap, String, List, [], Option, none, some}
use openenvx_cloud.Models.{Bytes, Fields, empty, field, JobRow, Job}
use openenvx_cloud.World.{
  ok, Object, WorkDir, File, binary, text, World, Env, host_call, object_call,
}
use openenvx_cloud.World.Succeeds.{
  Succeeds, Succeeds-bind, Succeeds-pure, Succeeds-rewrap, Succeeds-fact, Succeeds-attempt,
  Succeeds-host_call, Succeeds-object_call,
}
use openenvx_cloud.Db.Updates.{IsWellFormed}
use openenvx_cloud.Infisical.{Secret, get_secrets}
use openenvx_cloud.Storage.{head_in, create_unless, ensure_bucket}
use openenvx_cloud.Terraform
use openenvx_cloud.Terraform.{
  Host, ToolRun, write, write_in, write_file, report, new_runner, keep_plan, run_tool, init_retry,
  init_loop, write_backend_config,
}
use openenvx_cloud.Daemon.Execute.{made, write_variables, generate_terraform_files, make_dir}
use openenvx_cloud.Daemon.Planning.{IsWorking, Ready}

-- The store of secrets and the rest of Terraform work too.
pub record IsEquipped (host : Host) : Type 0 where
  pub listed : (t : ℕ) (p e s : String) → (ss : List Secret) × (host.list_secrets t p e s ≡ ok ss)
  pub installed : (t : ℕ) (e : List (String × String)) → host.setup t e ≡ none
  pub encoded : (f : Fields) → (s : String) × (host.marshal f ≡ ok s)
  pub inits : (t : ℕ) (dir : WorkDir) → (host.init t dir).failure ≡ none
  pub published : (t : ℕ) → host.reader t ≡ none

-- The job is in the table, and there is a bucket.
pub record Claimed (r : JobRow) (w : World) : Type 0 where
  pub well_formed : IsWellFormed w.db
  pub listed : Memᴰ r w.db.jobs
  pub bucket : (m : List (String × Object)) × (w.bucket ≡ some m)

made_some : (dir : WorkDir) → (fs : List (String × File)) × (made dir ≡ some fs)
unfolding made
made_some none = ([], refl)
made_some (some fs) = (fs, refl)

keep_plan-some :
    (host : Host) (plan : Option Bytes) (dir : WorkDir)
    → ((fs : List (String × File)) × (dir ≡ some fs))
    → (fs : List (String × File)) × (keep_plan host plan dir ≡ some fs)
unfolding keep_plan write_in
keep_plan-some host none dir d = d
keep_plan-some host (some b) dir (fs, e) = (_, ap (write_in "tfplan" (binary b)) e)

-- A call that changes neither the tables nor the bucket nor the directory.
same : {r : JobRow} {w : World} {n : ℕ} → Ready r w → Ready r (record w { tick = n })
same p = record { well_formed = p.well_formed; listed = p.listed; bucket = p.bucket; dir = p.dir }

module _ (env : Env) (host : Host) (working : IsWorking env host) (equipped : IsEquipped host)
    (url token : String) (r : JobRow) where
  head-Succeeds : Succeeds (Claimed r) (object_call env (λ t b. head_in b)) (λ _. Claimed r)
  unfolding head_in
  head-Succeeds = Succeeds-object_call env working.answered _ λ w p.
      let (m, e) = p.bucket in
      rw (working.own_bucket w.tick w.bucket, e)
        (tt, refl, record { well_formed = p.well_formed; listed = p.listed; bucket = (m, refl) })

  pub ensure_bucket-Succeeds : Succeeds (Claimed r) (ensure_bucket env) (λ _. Claimed r)
  unfolding ensure_bucket create_unless
  ensure_bucket-Succeeds = Succeeds-attempt _ head-Succeeds λ a. Succeeds-pure tt λ w p. p

  pub secrets-Succeeds :
      (project environment path : String)
      → Succeeds
          (Claimed r)
          (host_call λ t w. (get_secrets (host.list_secrets t) project environment path, w))
          (λ _. Claimed r)
  unfolding get_secrets
  secrets-Succeeds project environment path = Succeeds-host_call _ λ w p.
      let (ss, e) = equipped.listed w.tick project environment path in
      rw (e, get_secrets)
        (_, refl, record { well_formed = p.well_formed; listed = p.listed; bucket = p.bucket })

  pub make_dir-Succeeds : Succeeds (Claimed r) (make_dir env host url token) (λ _. Ready r)
  unfolding make_dir
  make_dir-Succeeds = Succeeds-host_call _ λ w p. rw (working.files w.tick) (
    tt,
    refl,
    record {
      well_formed = p.well_formed;
      listed = p.listed;
      bucket = p.bucket;
      dir = made_some w.work_dir;
    },
  )

  pub new_runner-Succeeds :
      (e : List (String × String)) → Succeeds (Ready r) (new_runner host e) (λ _. Ready r)
  unfolding new_runner report
  new_runner-Succeeds e =
      Succeeds-host_call _ λ w p. rw (equipped.installed w.tick e) (tt, refl, same p)

  pub write_file-Succeeds :
      (name : String) (f : File) → Succeeds (Ready r) (write_file host name f) (λ _. Ready r)
  unfolding write_file write_in
  write_file-Succeeds name f = Succeeds-host_call _ λ w p.
      let (fs, e) = p.dir in
      rw (working.files w.tick) (
        tt,
        refl,
        record {
          well_formed = p.well_formed;
          listed = p.listed;
          bucket = p.bucket;
          dir = (write name f fs, ap (write_in name f) e);
        },
      )

  variables-Succeeds :
      (f : Fields) → Succeeds (Ready r) (write_variables env host url token f) (λ _. Ready r)
  unfolding write_variables
  variables-Succeeds empty = Succeeds-pure tt λ w p. p
  variables-Succeeds (field k v fs) =
      Succeeds-bind
        (Succeeds-rewrap _ (
          Succeeds-host_call _
            λ w p. let (s, e) = equipped.encoded (field k v fs) in rw e (s, refl, same p)))
        λ json. Succeeds-rewrap _ (write_file-Succeeds "terraform.tfvars.json" (text json))

  pub files-Succeeds :
      (job : Job)
      → Succeeds (Ready r) (generate_terraform_files env host url token job) (λ _. Ready r)
  unfolding generate_terraform_files
  files-Succeeds job =
      Succeeds-bind (Succeeds-rewrap _ (write_file-Succeeds "main.tf" _))
        λ _. variables-Succeeds job.variables

  run_init-Succeeds :
      Succeeds (Ready r) (run_tool host host.init) (λ run w. (run.failure ≡ none) × Ready r w)
  unfolding run_tool
  run_init-Succeeds = Succeeds-host_call _ λ w p. (
    _,
    refl,
    (
      equipped.inits w.tick w.work_dir,
      record {
        well_formed = p.well_formed;
        listed = p.listed;
        bucket = p.bucket;
        dir = keep_plan-some host _ w.work_dir p.dir;
      },
    ),
  )

  pub init-Succeeds : Succeeds (Ready r) (Terraform.init host) (λ _. Ready r)
  unfolding Terraform.init init_loop init_retry
  init-Succeeds =
      Succeeds-bind run_init-Succeeds
        λ run. Succeeds-fact λ e. rw (e, init_retry) (Succeeds-pure tt λ w p. p)
