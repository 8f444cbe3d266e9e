-- ===== src/Daemon/Applying.antt =====
-- internal/daemon/worker_handlers.go: an apply needs a plan under the name of the job itself.
use openenvx_cloud.Prelude.{◌≡◌, refl, String, none, some}
use openenvx_cloud.Models.{Job}
use openenvx_cloud.World.{
  Error, err, Bucket, World, Env, Link, up, lost, lost_after, continue, ◌>>=◌, rewrap,
  rewrap_result, object_call, answer_object,
}
use openenvx_cloud.Storage.{get_object, get_in, found_object, download}
use openenvx_cloud.Terraform.{Host}
use openenvx_cloud.Daemon.Handlers.{plan_object, handle_apply}

-- The bucket is not there, or holds nothing under the name.
abbrev pub IsMissing : String → Bucket → Type 0
IsMissing name none = Unit
IsMissing name (some m) = get_object name m ≡ none

module _ (env : Env) where
  get_in-missing :
      (name : String) (b : Bucket) → IsMissing name b → (e : Error) × (get_in name b ≡ (err e, b))
  unfolding get_in found_object
  get_in-missing name none m = (_, refl)
  get_in-missing name (some o) m = rw m (_, refl)

  -- The tables, the working directory, the messages and the log are as before.
  abbrev pub Untouched : World → World → Type 0
  Untouched w v =
      (v.db ≡ w.db) × (v.work_dir ≡ w.work_dir) × (v.published ≡ w.published) × (v.log ≡ w.log)

  download-missing :
      (name : String) (w : World) (l : Link)
      → env.link w.tick ≡ l
      → IsMissing name (env.others_bucket w.tick w.bucket)
      → ((e : Error) × ((download env name w).0 ≡ err e)) × Untouched w (download env name w).1
  unfolding download ◌>>=◌ rewrap rewrap_result object_call continue
  download-missing name w up e m =
      let (x, q) = get_in-missing name (env.others_bucket w.tick w.bucket) m in
      rw (e, answer_object, q) ((_, refl), (refl, refl, refl, refl))
  download-missing name w lost e m = rw (e, answer_object) ((_, refl), (refl, refl, refl, refl))
  download-missing name w lost_after e m =
      rw (e, answer_object) ((_, refl), (refl, refl, refl, refl))

  -- However the calls fare: where the bucket holds nothing under the job's name for its plan when
  -- `handleApply` asks, it returns an error, and the tables, the working directory, the messages and
  -- the log are as before: no hook and no Terraform is run.
  pub handle_apply-without_plan :
      (host : Host) (job : Job) (w : World)
      → IsMissing (plan_object job.id) (env.others_bucket w.tick w.bucket)
      → let out = handle_apply env host job w in ((e : Error) × (out.0 ≡ err e)) × Untouched w out.1
  unfolding handle_apply ◌>>=◌ rewrap rewrap_result continue
  handle_apply-without_plan host job w m =
      let ((x, e), u) = download-missing (plan_object job.id) w (env.link w.tick) refl m in
      rw (e, continue) ((_, refl), u)
