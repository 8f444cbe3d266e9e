-- ===== src/Tests/Secrets.antt =====
-- The theorems on secrets, with a key that is listed twice.
use openenvx_cloud.Prelude.{◌≡◌, refl, String, List, [], ◌∷◌, some, ◌==◌, if◌then◌else◌}
use openenvx_cloud.World.{Result, ok}
use openenvx_cloud.Maps.{lookup}
use openenvx_cloud.Infisical.{Secret, get_secrets}
use openenvx_cloud.Infisical.Laws.{last_value}
use openenvx_cloud.Daemon.Execute.{runner_env}
use openenvx_cloud.Daemon.Secrets.{runner_env-get_secrets}

abbrev secret : String → String → Secret
secret k v = record { secret_key = k; secret_value = v }

abbrev secrets : List Secret
secrets = secret "TOKEN" "old" ∷ secret "REGION" "eu" ∷ secret "TOKEN" "new" ∷ []

abbrev listing : String → String → String → Result (List Secret)
listing project_id environment path = ok secrets

runner_env-get_secrets_example :
    (m : List (String × String)) × (get_secrets listing "p-1" "prod" "/projects/p-1/terraform"
      ≡ ok m)
    × ((k : String)
        → lookup k (runner_env m) ≡ (
            if "TF_PLUGIN_CACHE_DIR" == k
            then some "/tmp/openenvx-tf-cache"
            else last_value k secrets))
runner_env-get_secrets_example =
    runner_env-get_secrets listing "p-1" "prod" "/projects/p-1/terraform" secrets refl
