-- ===== src/Storage/Keeps.antt =====
-- internal/storage/s3.go: what the requests to the storage keep of the tables and of the bucket.
use openenvx_cloud.Prelude.{refl, ℕ, String, Bool-cases, inl, inr, List, [], none, some}
use openenvx_cloud.Models.{Bytes}
use openenvx_cloud.World.{Result, ok, err, Object, Head, Db, Bucket, Env}
use openenvx_cloud.World.Keeps.{
  Claim, StableBucket, Keeps, Keeps-pure, Keeps-attempt, Keeps-rewrap, Keeps-object_call,
  Keeps-host_call, ◌⊳◌,
}
use openenvx_cloud.Storage.{
  put_object, put_in, get_in, head_in, create_in, headed, create_unless, ensure_bucket, upload,
  download, stat,
}

module _ (env : Env) {P : Claim} where
  pub ensure_bucket-Keeps :
      StableBucket env P → ((d : Db) → P d none → P d (some [])) → Keeps P (ensure_bucket env)
  unfolding ensure_bucket head_in create_unless create_in
  ensure_bucket-Keeps stable made =
      Keeps-attempt _ (Keeps-object_call env _ stable headed) ⊳ created
    where
      headed : (t : ℕ) (d : Db) (b : Bucket) → P d b → P d (head_in b).1
      headed t d none h = h
      headed t d (some o) h = h

      create : (t : ℕ) (d : Db) (b : Bucket) → P d b → P d (create_in (env.recreates t) b).1
      create t d none h = made d h
      create t d (some o) h = elim (Bool-cases (env.recreates t)) [
        | inl e ↦ rw e h
        | inr e ↦ rw e h
      ]

      created : (found : Result (Unit {0})) → Keeps P (create_unless env found)
      created (ok _) = Keeps-pure tt
      created (err _) = Keeps-rewrap _ _ (Keeps-object_call env _ stable create)

  -- What an object of its own keeps, its upload keeps.
  pub upload-Keeps :
      (name : String) (content : Bytes) (kind : String)
      → StableBucket env P
      → ((d : Db) (o : Object) (m : List (String × Object))
          → P d (some m)
          → P d (some (put_object name o m)))
      → Keeps P (upload env name content kind)
  unfolding upload put_in
  upload-Keeps name content kind stable put =
      Keeps-rewrap _ _ (Keeps-object_call env _ stable placed)
    where
      placed :
          (t : ℕ) (d : Db) (b : Bucket)
          → P d b
          → P d
              (put_in name
                (record { content = content; content_type = kind; modified = env.now t })
                b).1
      placed t d none h = h
      placed t d (some m) h = put d _ m h

  pub download-Keeps : StableBucket env P → (name : String) → Keeps P (download env name)
  unfolding download get_in
  download-Keeps stable name =
      Keeps-rewrap _ _ (Keeps-object_call env _ stable got) ⊳ λ o. Keeps-host_call _ (λ t w. refl)
    where
      got : (t : ℕ) (d : Db) (b : Bucket) → P d b → P d (get_in name b).1
      got t d none h = h
      got t d (some m) h = h

  pub stat-Keeps : StableBucket env P → (name : String) → Keeps P (stat env name)
  unfolding stat get_in
  stat-Keeps stable name =
      Keeps-rewrap _ _ (Keeps-object_call env _ stable asked) ⊳ λ o. Keeps-pure _
    where
      answered :
          (head : Object → Head) (r : Result Object) (d : Db) (b : Bucket)
          → P d b
          → P d (headed head (r, b)).1
      answered head (ok o) d b h = h
      answered head (err e) d b h = h

      asked : (t : ℕ) (d : Db) (b : Bucket) → P d b → P d (headed (env.head t) (get_in name b)).1
      asked t d none h = h
      asked t d (some m) h = answered (env.head t) _ d (some m) h
