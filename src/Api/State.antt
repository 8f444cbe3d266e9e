-- ===== src/Api/State.antt =====
-- internal/api/handlers_projects.go: storing and reading the state of Terraform.
use openenvx_cloud.Prelude.{ℕ, suc, ◌≡◌, refl, ap, String, List, none, some, ◌<>◌}
use openenvx_cloud.Models.{Bytes}
use openenvx_cloud.World.{
  Error, rewrap, object_call, ok, wrap, Object, Bucket, World, Env, up, attempt, host_call, ◌>>=◌,
  rewrap_result,
}
use openenvx_cloud.World.Calls.{object_call-up}
use openenvx_cloud.Storage.{
  get_project_state_path, get_object, put_object, headed, get_in, found_object, upload, download,
  body, stat, Reader,
}
use openenvx_cloud.Storage.Objects.{get_object-put_object_self}
use openenvx_cloud.Api.Reply.{plain, stream}
use openenvx_cloud.Api.Projects.{
  handle_get_project_state, get_state_found, state_reply, handle_post_project_state, uploaded_reply,
}

-- Calls are answered and bodies read to their ends, and nobody else writes the bucket.
pub record IsCalm (env : Env) : Type 0 where
  pub answered : (t : ℕ) → env.link t ≡ up
  pub alone : (t : ℕ) (b : Bucket) → env.others_bucket t b ≡ b
  pub whole : (t : ℕ) → env.torn t ≡ none

module _ (env : Env) (calm : IsCalm env) where
  upload-up :
      (name : String) (content : Bytes) (kind : String) (w : World) (m : List (String × Object))
      → w.bucket ≡ some m
      → let o : Object = record {
        content = content;
        content_type = kind;
        modified = env.now w.tick;
      } in
        upload env name content kind w
        ≡ (ok name, record w { bucket = some (put_object name o m); tick = suc w.tick })
  unfolding upload rewrap_result
  upload-up name content kind w m e =
      rw (object_call-up env _ _ w (calm.answered w.tick)) (rw (calm.alone, e) refl)

  get-up :
      (g : Error → Error) (name : String) (o : Object) (w : World) (m : List (String × Object))
      → w.bucket ≡ some m
      → get_object name m ≡ some o
      → rewrap g (object_call env (λ t b. get_in name b)) w
        ≡ (ok o, record w { bucket = some m; tick = suc w.tick })
  unfolding get_in rewrap_result
  get-up g name o w m e f =
      rw (object_call-up env g (λ t b. get_in name b) w (calm.answered w.tick))
        (rw (calm.alone, e) (rw (f, found_object) refl))

  head-up :
      (g : Error → Error) (name : String) (o : Object) (w : World) (m : List (String × Object))
      → w.bucket ≡ some m
      → get_object name m ≡ some o
      → rewrap g (object_call env (λ t b. headed (env.head t) (get_in name b))) w
        ≡ (ok (env.head w.tick o), record w { bucket = some m; tick = suc w.tick })
  unfolding get_in rewrap_result
  head-up g name o w m e f =
      rw
        (object_call-up env g (λ t b. headed (env.head t) (get_in name b)) w (calm.answered w.tick))
        (rw (calm.alone, e) (rw (f, found_object) refl))

  body-whole :
      (t : ℕ) (content : Bytes)
      → body (env.torn t) content ≡ record { content = content; broken = none }
  unfolding body
  body-whole t content = rw (calm.whole t) refl

  -- Where calls are answered and bodies are read to their ends, the bucket is there and nobody else writes it: after a project's state
  -- is posted, which is answered 200, a request for it is answered 200 with the same bytes.
  pub state_round_trip :
      (project_id : String) (content : Bytes) (w : World) (m : List (String × Object))
      → w.bucket ≡ some m
      → let posted = handle_post_project_state env project_id content w in
        (posted.0 ≡ ok (plain 200))
        × ((handle_get_project_state env project_id posted.1).0
            ≡ ok (record { code = 200; body = stream content }))
  unfolding handle_post_project_state handle_get_project_state attempt ◌>>=◌ uploaded_reply
      get_state_found state_reply stat download host_call body
  state_round_trip project_id content w m e =
      let name = get_project_state_path project_id in
      let o : Object = record {
        content = content;
        content_type = "application/json";
        modified = env.now w.tick;
      } in
      let there : get_object name (put_object name o m) ≡ some o =
        get_object-put_object_self name o m in
      let w₁ : World = record w { bucket = some (put_object name o m); tick = suc w.tick } in
      let w₂ : World = record w₁ { tick = suc w₁.tick } in
      rw (upload-up name content "application/json" w m e) (
        refl,
        rw (head-up (wrap ("stat object " <> name)) name o w₁ (put_object name o m) refl there) (
            rw
              (get-up (wrap ("download object " <> name)) name o w₂ (put_object name o m) refl
                there)
              (ap (λ (x : Reader). ok (state_reply (ok x))) (body-whole _ content))),
      )
