-- ===== src/Infisical.antt =====
-- internal/infisical/client.go: the client of the store of secrets. What the SDK answers to a login and
-- to a listing is no code of the repository and is an argument.
pub mod Laws
use openenvx_cloud.Prelude.{String, List, [], ◌∷◌, ◌<>◌}
use openenvx_cloud.World.{Result, ok, err, wrap}
use openenvx_cloud.Maps.{set_key}

-- An entry of `res.Secrets`, by the two fields that are read.
pub record Secret : Type 0 where
  pub secret_key : String
  pub secret_value : String

pub record Config : Type 0 where
  pub client_id : String
  pub client_secret : String
  pub site_url : String

-- The client, by the server that it was made for.
pub record Client : Type 0 where
  pub site_url : String

-- `login` is `Auth().UniversalAuthLogin` of a client for the server that comes first.
-- What `NewClient` makes of the login's answer.
unfoldable pub logged_in : Config → Result (Unit {0}) → Result Client
logged_in cfg (ok _) = ok (record { site_url = cfg.site_url })
logged_in cfg (err e) = err (wrap "infisical auth failed" e)

unfoldable pub new_client : (String → String → String → Result (Unit {0})) → Config → Result Client
unfolding logged_in
new_client login cfg = logged_in cfg (login cfg.site_url cfg.client_id cfg.client_secret)

-- The loop over the secrets, from the map `result`.
unfoldable pub collect : List (String × String) → List Secret → List (String × String)
collect result [] = result
collect result (s ∷ ss) = collect (set_key s.secret_key s.secret_value result) ss

abbrev pub list_error : String → String → String → String
list_error project_id environment path =
    "list secrets for " <> (project_id <> (" in " <> (environment <> (" at " <> path))))

-- `list` is `Secrets().ListSecrets` with the three options.
unfoldable pub get_secrets :
    (String → String → String → Result (List Secret))
    → String
    → String
    → String
    → Result (List (String × String))
unfolding collect
get_secrets list project_id environment path = elim (list project_id environment path) [
  | ok secrets ↦ ok (collect [] secrets)
  | err e ↦ err (wrap (list_error project_id environment path) e)
]
