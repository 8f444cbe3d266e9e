-- ===== src/Auth.antt =====
-- internal/auth/auth.go: the middleware in front of every route. Basic authentication is parsed by
-- `net/http`, which gives a user and a password or nothing; `strings.TrimSpace` is a parameter.
pub mod Laws
use openenvx_cloud.Prelude.{
  ℕ, String, Bool, true, false, Option, none, some, ◌==◌, ◌&&◌, not, if◌then◌else◌,
}
use openenvx_cloud.World.{Result, ok, err, Env, M, pure, attempt, ◌>>=◌}
use openenvx_cloud.Db.Projects.{verify_user_and_org}
use openenvx_cloud.Api.Reply.{Reply, text}

abbrev pub answer_text : ℕ → String → Reply
answer_text code message = record { code = code; body = text message }

-- What a handler finds under `UserIDKey` and `OrgIDKey`.
pub record Identity : Type 0 where
  pub user_id : String
  pub org_id : String

unfoldable pub is_system : String → Identity → Bool
is_system system_token i =
    i.user_id == "system" && (not (system_token == "") && i.org_id == system_token)

module _ (env : Env) (trim_space : String → String) (system_token : String) where
  unfoldable pub verified : (Identity → M Reply) → Identity → Result Bool → M Reply
  verified next i (err e) = pure (answer_text 500 "Internal Server Error")
  verified next i (ok false) = pure (answer_text 401 "Unauthorized: invalid user or organization")
  verified next i (ok true) = next i

  unfoldable pub identified : (Identity → M Reply) → Identity → M Reply
  unfolding verified is_system
  identified next i =
      if is_system system_token i
      then next i
      else do exists ← attempt (verify_user_and_org env i.user_id i.org_id); verified next i exists

  unfoldable pub middleware : (Identity → M Reply) → Option (String × String) → M Reply
  unfolding identified
  middleware next none = pure (answer_text 401 "Unauthorized: missing basic auth")
  middleware next (some (user, password)) =
      identified next (record { user_id = trim_space user; org_id = trim_space password })
