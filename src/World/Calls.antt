-- ===== src/World/Calls.antt =====
-- What a call does where it is answered.
use openenvx_cloud.Prelude.{ℕ, suc, ◌≡◌, refl}
use openenvx_cloud.World.{
  Error, Result, Db, World, Env, up, rewrap_result, rewrap, answer, statement, Bucket,
  answer_object, object_call,
}

module _ {ℓ} {A : Type ℓ} where
  pub statement-up :
      (env : Env) (g : Error → Error) (f : ℕ → Db → Result A × Db) (w : World)
      → env.link w.tick ≡ up
      → rewrap g (statement env f) w ≡ (
        rewrap_result g (f w.tick (env.others w.tick w.db)).0,
        record w { db = (f w.tick (env.others w.tick w.db)).1; tick = suc w.tick },
      )
  unfolding statement rewrap answer
  statement-up env g f w e = rw (e, answer) refl

  pub object_call-up :
      (env : Env) (g : Error → Error) (f : ℕ → Bucket → Result A × Bucket) (w : World)
      → env.link w.tick ≡ up
      → rewrap g (object_call env f) w ≡ (
        rewrap_result g (f w.tick (env.others_bucket w.tick w.bucket)).0,
        record w { bucket = (f w.tick (env.others_bucket w.tick w.bucket)).1; tick = suc w.tick },
      )
  unfolding object_call rewrap answer_object
  object_call-up env g f w e = rw (e, answer_object) refl
