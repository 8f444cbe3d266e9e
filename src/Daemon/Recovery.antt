-- ===== src/Daemon/Recovery.antt =====
-- internal/daemon/daemon.go: the configuration of the daemon, the recovery of the jobs that a stopped
-- orchestrator left behind, and the tick that fails jobs queued for too long.
pub mod Laws
use openenvx_cloud.Prelude.{ℕ, ◌*◌, String, List, [], ◌∷◌, Option, none, some, ◌==◌, if◌then◌else◌}
use openenvx_cloud.Models.{JobStatus, planning, applying, destroying, failed, Job}
use openenvx_cloud.World.{wrap, Env, M, pure, attempt, rewrap, ◌>>=◌, ◌>>◌}
use openenvx_cloud.Daemon.Interfaces.{store_of}

pub record Config : Type 0 where
  pub worker_pool_size : ℕ
  pub queue_timeout : ℕ  -- nanoseconds

-- `Option`
pub data Setting : Type 0 where
  with_worker_pool_size : ℕ → Setting
  with_queue_timeout : ℕ → Setting

unfoldable pub apply_setting : Setting → Config → Config
apply_setting (with_worker_pool_size n) c = record c { worker_pool_size = n }
apply_setting (with_queue_timeout t) c = record c { queue_timeout = t }

unfoldable pub apply_settings : List Setting → Config → Config
unfolding apply_setting
apply_settings [] c = c
apply_settings (s ∷ ss) c = apply_settings ss (apply_setting s c)

abbrev pub defaults : Config
defaults = record { worker_pool_size = 5; queue_timeout = 3600 * 1000000000 }

-- QUEUE_TIMEOUT, where `time.ParseDuration` reads it, comes last.
unfoldable pub override : Option ℕ → Config → Config
override none c = c
override (some t) c = record c { queue_timeout = t }

unfoldable pub new_daemon : (String → Option ℕ) → String → List Setting → Config
unfolding apply_settings override
new_daemon parse_duration env_timeout settings =
    let c = apply_settings settings defaults in
    if env_timeout == "" then c else override (parse_duration env_timeout) c

abbrev pub stale_statuses : List JobStatus
stale_statuses = planning ∷ applying ∷ destroying ∷ []

module _ (env : Env) where
  -- An error of an update is only logged.
  unfoldable pub fail_each : List Job → M (Unit {0})
  fail_each [] = pure tt
  fail_each (job ∷ jobs) = do
    attempt ((store_of env).update_job_status job.id failed)
    fail_each jobs

  unfoldable pub recover_jobs : M (Unit {0})
  unfolding fail_each
  recover_jobs = do
    jobs ← rewrap (wrap "fetch stale jobs") ((store_of env).fetch_jobs_by_statuses stale_statuses)
    fail_each jobs

  unfoldable pub cleanup_tick : Config → M (Unit {0})
  cleanup_tick c = do attempt ((store_of env).fail_timed_out_jobs c.queue_timeout); pure tt
