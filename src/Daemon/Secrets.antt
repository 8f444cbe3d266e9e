-- ===== src/Daemon/Secrets.antt =====
-- internal/daemon/worker_execute.go: the variables that Terraform is given.
use openenvx_cloud.Prelude.{[], ◌≡◌, refl, ◌∙◌, String, List, some, ◌==◌, if◌then◌else◌}
use openenvx_cloud.World.{Result, ok}
use openenvx_cloud.Maps.{lookup, lookup-set_key}
use openenvx_cloud.Infisical.{Secret, collect, get_secrets}
use openenvx_cloud.Infisical.Laws.{last_value, lookup-collect}
use openenvx_cloud.Daemon.Execute.{runner_env}

-- Where the store of secrets lists entries for the project: `GetSecrets` succeeds, and the variables
-- that the runner then gets are TF_PLUGIN_CACHE_DIR with the cache directory, whatever the entries say
-- of it, and for any other name the value of the last entry with that name; there are no others.
pub runner_env-get_secrets :
    (list : String → String → String → Result (List Secret)) (project_id environment path : String)
    (ss : List Secret)
    → list project_id environment path ≡ ok ss
    → (m : List (String × String)) × (get_secrets list project_id environment path ≡ ok m)
      × ((k : String)
          → lookup k (runner_env m) ≡ (
              if "TF_PLUGIN_CACHE_DIR" == k
              then some "/tmp/openenvx-tf-cache"
              else last_value k ss))
unfolding get_secrets runner_env
runner_env-get_secrets list project_id environment path ss e = (
  collect [] ss,
  rw (e, get_secrets) refl,
  λ k.
      lookup-set_key "TF_PLUGIN_CACHE_DIR" k "/tmp/openenvx-tf-cache" (collect [] ss)
      ∙ rw (lookup-collect) refl,
)
