-- ===== src/Main/Laws.antt =====
-- When the program runs.
use openenvx_cloud.Prelude.{
  ◌≡◌, refl, ◌≢◌, ◌↔◌, String, Bool, List, [], ◌∷◌, Option, none, some, All, eq_iff, arith,
}
use openenvx_cloud.World.{Result, ok, err}
use openenvx_cloud.Infisical.{Client, logged_in, new_client}
use openenvx_cloud.Infisical
use openenvx_cloud.Storage
use openenvx_cloud.Main.{
  Setup, running, exited, ◌>>=◌, or_fatal, Orchestrator, Services, must_get_env, env_or_default,
  parsed_bool, infisical_config, storage_config, setup, default_database_url,
}

abbrev pub required : List String
required =
    "INFISICAL_CLIENT_ID" ∷ "INFISICAL_CLIENT_SECRET" ∷ "INFISICAL_SITE_URL" ∷ "S3_ENDPOINT"
    ∷ "S3_ACCESS_KEY" ∷ "S3_SECRET_KEY" ∷ "S3_BUCKET_NAME" ∷ "ORCHESTRATOR_TOKEN" ∷ []

module _ {A B : Type 0} where
  bind-running :
      (m : Setup A) (f : A → Setup B) (b : B)
      → (m >>= f) ≡ running b
      → (a : A) × (m ≡ running a) × (f a ≡ running b)
  bind-running (running a) f b e = (a, refl, e)
  bind-running (exited x) f b e = cc

must_get_env-running :
    (getenv : String → String) (key value : String)
    → must_get_env getenv key ≡ running value
    → (getenv key ≢ "") × (value ≡ getenv key)
unfolding must_get_env
must_get_env-running getenv key value e = ground (arith, eq_iff (getenv key) "")

must_get_env-set :
    (getenv : String → String) (key : String)
    → getenv key ≢ ""
    → must_get_env getenv key ≡ running (getenv key)
unfolding must_get_env
must_get_env-set getenv key set = ground (arith, eq_iff (getenv key) "")

or_fatal-running :
    {A : Type 0} (message : String) (r : Result A) (a : A)
    → or_fatal message r ≡ running a
    → r ≡ ok a
or_fatal-running message (ok b) a e = cc
or_fatal-running message (err x) a e = cc

logged_in-ok :
    (cfg : Infisical.Config) (r : Result (Unit {0})) (c : Client)
    → logged_in cfg r ≡ ok c
    → r ≡ ok tt
unfolding logged_in
logged_in-ok cfg (ok tt) c e = refl
logged_in-ok cfg (err x) c e = cc

parsed_bool-running : (o : Option Bool) (b : Bool) → parsed_bool o ≡ running b → o ≡ some b
parsed_bool-running none b e = cc
parsed_bool-running (some x) b e = cc

module _ (services : Services) (getenv : String → String) where
  abbrev pub url : String
  url = env_or_default getenv "DATABASE_URL" default_database_url

  -- What the services have to answer.
  abbrev pub IsAccepted : Type 0
  IsAccepted =
      (services.new_pool url ≡ ok tt)
      × (services.login (getenv "INFISICAL_SITE_URL") (getenv "INFISICAL_CLIENT_ID")
            (getenv "INFISICAL_CLIENT_SECRET")
          ≡ ok tt)
      × ((b : Bool) × (services.parse_bool (env_or_default getenv "S3_USE_SSL" "false") ≡ some b))

  infisical_config-running :
      (cfg : Infisical.Config)
      → infisical_config services getenv ≡ running cfg
      → (getenv "INFISICAL_CLIENT_ID" ≢ "")
        × (getenv "INFISICAL_CLIENT_SECRET" ≢ "")
        × (getenv "INFISICAL_SITE_URL" ≢ "")
        × (cfg.site_url ≡ getenv "INFISICAL_SITE_URL")
        × (cfg.client_id ≡ getenv "INFISICAL_CLIENT_ID")
        × (cfg.client_secret ≡ getenv "INFISICAL_CLIENT_SECRET")
  unfolding infisical_config
  infisical_config-running cfg e =
      let (id, e1, k1) = bind-running _ _ cfg e in
      let (secret, e2, k2) = bind-running _ _ cfg k1 in
      let (site, e3, k3) = bind-running _ _ cfg k2 in
      let (n1, v1) = must_get_env-running getenv _ id e1 in
      let (n2, v2) = must_get_env-running getenv _ secret e2 in
      let (n3, v3) = must_get_env-running getenv _ site e3 in (n1, n2, n3, cc, cc, cc)

  storage_config-running :
      (cfg : Storage.Config)
      → storage_config services getenv ≡ running cfg
      → (getenv "S3_ENDPOINT" ≢ "")
        × (getenv "S3_ACCESS_KEY" ≢ "")
        × (getenv "S3_SECRET_KEY" ≢ "")
        × (getenv "S3_BUCKET_NAME" ≢ "")
        × ((b : Bool) × (services.parse_bool (env_or_default getenv "S3_USE_SSL" "false") ≡ some b))
  unfolding storage_config
  storage_config-running cfg e =
      let (ssl, e0, k0) = bind-running _ _ cfg e in
      let (endpoint, e1, k1) = bind-running _ _ cfg k0 in
      let (access, e2, k2) = bind-running _ _ cfg k1 in
      let (secret, e3, k3) = bind-running _ _ cfg k2 in
      let (bucket, e4, k4) = bind-running _ _ cfg k3 in
      let (n1, v1) = must_get_env-running getenv _ endpoint e1 in
      let (n2, v2) = must_get_env-running getenv _ access e2 in
      let (n3, v3) = must_get_env-running getenv _ secret e3 in
      let (n4, v4) = must_get_env-running getenv _ bucket e4 in
      (n1, n2, n3, n4, (ssl, parsed_bool-running _ ssl e0))

  setup-running :
      (o : Orchestrator)
      → setup services getenv ≡ running o
      → All (λ k. getenv k ≢ "") required × IsAccepted
  unfolding setup new_client
  setup-running o e =
      let (u, e0, k0) = bind-running _ _ o e in
      let (cfg, e1, k1) = bind-running _ _ o k0 in
      let (client, e2, k2) =
        bind-running (or_fatal "Unable to create infisical client" (new_client services.login cfg))
          _ o k1 in
      let (scfg, e3, k3) = bind-running _ _ o k2 in
      let (token, e4, k4) = bind-running _ _ o k3 in
      let (n1, n2, n3, v1, v2, v3) = infisical_config-running cfg e1 in
      let (m1, m2, m3, m4, (b, pb)) = storage_config-running scfg e3 in
      let (t1, _) = must_get_env-running getenv _ token e4 in
      let pool_ok = or_fatal-running _ _ u e0 in
      let login_ok =
        logged_in-ok cfg (services.login cfg.site_url cfg.client_id cfg.client_secret) client (
          or_fatal-running "Unable to create infisical client" (new_client services.login cfg)
            client e2) in
      ((n1, (n2, (n3, (m1, (m2, (m3, (m4, (t1, tt)))))))), (pool_ok, cc, (b, pb)))

  setup-accepted :
      All (λ k. getenv k ≢ "") required
      → IsAccepted
      → (o : Orchestrator) × (setup services getenv ≡ running o)
  unfolding setup new_client infisical_config storage_config
  setup-accepted (n1, (n2, (n3, (m1, (m2, (m3, (m4, (t1, _)))))))) (pool_ok, login_ok, (b, pb)) =
      rw
        (
          pool_ok,
          must_get_env-set getenv _ n1,
          must_get_env-set getenv _ n2,
          must_get_env-set getenv _ n3,
          login_ok,
          pb,
          must_get_env-set getenv _ m1,
          must_get_env-set getenv _ m2,
          must_get_env-set getenv _ m3,
          must_get_env-set getenv _ m4,
          must_get_env-set getenv _ t1,
        )
        (_, refl)

  -- The program gets as far as running the daemon and the server exactly if the three INFISICAL_* and
  -- the four S3_* variables without a default and ORCHESTRATOR_TOKEN are set, the pool can be made of
  -- DATABASE_URL or its default, the login succeeds, and S3_USE_SSL, `false` where it is not set,
  -- parses.
  pub setup_lem :
      ((o : Orchestrator) × (setup services getenv ≡ running o))
      ↔ (All (λ k. getenv k ≢ "") required × IsAccepted)
  setup_lem = (λ (o, e). setup-running o e, λ (set, accepted). setup-accepted set accepted)
