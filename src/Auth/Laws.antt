-- ===== src/Auth/Laws.antt =====
-- Whom the middleware lets through.
use openenvx_cloud.Prelude.{
  ◌≡◌, refl, ◌⊎◌, inl, inr, String, Bool, true, false, Option, none, some, any, Bool-cases, ◌==◌,
  ◌&&◌,
}
use openenvx_cloud.World.{ok, Result, World, Env, M, pure, up, attempt, ◌>>=◌}
use openenvx_cloud.Db.Projects.{exists_member}
use openenvx_cloud.Db.Answers.{current, called, verify_user_and_org-up}
use openenvx_cloud.Api.Reply.{Reply}
use openenvx_cloud.Auth.{Identity, is_system, identified, middleware, answer_text}

module _ (env : Env) (trim_space : String → String) (token : String) (next : Identity → M Reply)
    (w : World) where
  -- The trimmed credentials.
  abbrev pub identity : String → String → Identity
  identity user password = record { user_id = trim_space user; org_id = trim_space password }

  abbrev pub is_member : Identity → Bool
  is_member i = any (λ m. m.0 == i.user_id && m.1 == i.org_id) (current env w).members

  -- What becomes of a request with credentials.
  abbrev pub Judged : Identity → Result Reply × World → Type 0
  Judged i out =
      ((is_system token i ≡ true) × (out ≡ next i w))
      ⊎ ((is_system token i ≡ false)
          × (is_member i ≡ true)
          × (out ≡ next i (called w (current env w))))
      ⊎ ((is_system token i ≡ false)
          × (is_member i ≡ false)
          × (out ≡ (
            ok (answer_text 401 "Unauthorized: invalid user or organization"),
            called w (current env w),
          )))

  judged :
      (user password : String)
      → env.link w.tick ≡ up
      → Judged
          (identity user password)
          (middleware env trim_space token next (some (user, password)) w)
  unfolding middleware identified attempt ◌>>=◌ exists_member
  judged user password answered =
      let i = identity user password in
      elim (Bool-cases (is_system token i)) [
        | inl e ↦ inl (e, rw (e, identified) refl)
        | inr e ↦
            rw (e, identified)
              (rw (verify_user_and_org-up env w answered i.user_id i.org_id)
                (elim (Bool-cases (is_member i)) [
                  | inl m ↦ rw m (inr (inl (refl, refl, refl)))
                  | inr m ↦ rw m (inr (inr (refl, refl, refl)))
                ]))
      ]

  -- Where the database answers: a request runs the handler, under its trimmed user and organization,
  -- exactly if it has credentials, and they are `system` and the token, which is not empty, and then with
  -- no call before it, or the user is a member of the organization; otherwise, also without credentials,
  -- the answer is 401, and the handler is not run.
  pub middleware-cases :
      (credentials : Option (String × String))
      → env.link w.tick ≡ up
      → let out = middleware env trim_space token next credentials w in
        ((credentials ≡ none)
          × (out ≡ (ok (answer_text 401 "Unauthorized: missing basic auth"), w)))
        ⊎ ((user : String) × (password : String) × (credentials ≡ some (user, password))
            × Judged (identity user password) out)
  unfolding middleware pure
  middleware-cases none answered = inl (refl, refl)
  middleware-cases (some (user, password)) answered =
      inr (user, password, refl, judged user password answered)
