-- ===== src/Storage.antt =====
-- internal/storage: the names of objects (paths.go) and the client of the object storage (s3.go). The
-- service itself keeps a bucket of named objects; a request to it may fail like any call.
pub mod Keeps
pub mod Objects
use openenvx_cloud.Prelude.{
  ℕ, zero, suc, String, Bool, true, List, [], ◌∷◌, Option, none, some, ◌==◌, ◌<>◌, if◌then◌else◌,
  length,
}
use openenvx_cloud.Models.{Bytes}
use openenvx_cloud.World.{
  Result, ok, err, fault, wrap, Object, Head, Bucket, Env, M, pure, attempt, rewrap, object_call,
  host_call, ◌>>=◌,
}

unfoldable pub get_project_state_path : String → String
get_project_state_path project_id = "projects/" <> (project_id <> "/terraform.tfstate")

pub record ObjectInfo : Type 0 where
  pub key : String
  pub size : ℕ
  pub last_modified : ℕ
  pub content_type : String

unfoldable pub get_object : String → List (String × Object) → Option Object
get_object k [] = none
get_object k ((j, o) ∷ m) = if j == k then some o else get_object k m

unfoldable pub put_object : String → Object → List (String × Object) → List (String × Object)
put_object k o [] = (k, o) ∷ []
put_object k o ((j, x) ∷ m) = if j == k then (k, o) ∷ m else (j, x) ∷ put_object k o m

-- What the service answers; a bucket that is not there fails every request but its creation.
unfoldable pub put_in : String → Object → Bucket → Result String × Bucket
unfolding put_object
put_in k o none = (err (fault "NoSuchBucket"), none)
put_in k o (some m) = (ok k, some (put_object k o m))

unfoldable pub found_object : Option Object → Result Object
found_object none = err (fault "NoSuchKey")
found_object (some o) = ok o

unfoldable pub get_in : String → Bucket → Result Object × Bucket
unfolding found_object get_object
get_in k none = (err (fault "NoSuchBucket"), none)
get_in k (some m) = (found_object (get_object k m), some m)

unfoldable pub head_in : Bucket → Result (Unit {0}) × Bucket
head_in none = (err (fault "NotFound"), none)
head_in (some m) = (ok tt, some m)

unfoldable pub create_in : Bool → Bucket → Result (Unit {0}) × Bucket
create_in accepts none = (ok tt, some [])
create_in accepts (some m) =
    if accepts then (ok tt, some m) else (err (fault "BucketAlreadyOwnedByYou"), some m)

abbrev pub or_zero : Option ℕ → ℕ
or_zero none = 0
or_zero (some n) = n

abbrev pub or_empty : Option String → String
or_empty none = ""
or_empty (some s) = s

unfoldable pub take : ℕ → Bytes → Bytes
take zero xs = []
take (suc n) [] = []
take (suc n) (x ∷ xs) = x ∷ take n xs

-- What reading the body of a response gives until its end, or until a read that fails.
pub record Reader : Type 0 where
  pub content : Bytes
  pub broken : Option String

unfoldable pub body : Option (ℕ × String) → Bytes → Reader
unfolding take
body none content = record { content = content; broken = none }
body (some (n, s)) content = record { content = take n content; broken = some s }

-- The answer to HeadObject, where there is an object.
abbrev pub headed : (Object → Head) → Result Object × Bucket → Result Head × Bucket
headed head (ok o, b) = (ok (head o), b)
headed head (err e, b) = (err e, b)

pub record Config : Type 0 where
  pub endpoint : String
  pub access_key_id : String
  pub secret_access_key : String
  pub use_ssl : Bool
  pub bucket_name : String

-- The client: where and as whom it talks to the service, and the bucket.
pub record Storage : Type 0 where
  pub region : String
  pub use_path_style : Bool
  pub access_key_id : String
  pub secret_access_key : String
  pub base_endpoint : String
  pub bucket : String

unfoldable pub new_storage : Config → Storage
new_storage cfg =
    let scheme : String = if cfg.use_ssl then "https" else "http" in
    record {
      region = "us-east-1";
      use_path_style = true;
      access_key_id = cfg.access_key_id;
      secret_access_key = cfg.secret_access_key;
      base_endpoint = scheme <> ("://" <> cfg.endpoint);
      bucket = cfg.bucket_name;
    }

module _ (env : Env) where
  unfoldable pub create_unless : Result (Unit {0}) → M (Unit {0})
  unfolding create_in
  create_unless (ok _) = pure tt
  create_unless (err _) =
      rewrap (wrap "create bucket") (object_call env (λ t b. create_in (env.recreates t) b))

  unfoldable pub ensure_bucket : M (Unit {0})
  unfolding create_unless head_in
  ensure_bucket = do found ← attempt (object_call env (λ t b. head_in b)); create_unless found

  unfoldable pub upload : String → Bytes → String → M String
  unfolding put_in
  upload name content content_type = rewrap (wrap ("upload object " <> name)) (
      object_call env λ t b.
        put_in name
          (record { content = content; content_type = content_type; modified = env.now t }) b)

  -- The body of the response; reading it is one step of its own.
  unfoldable pub download : String → M Reader
  unfolding get_in body
  download name = do
    o ← rewrap (wrap ("download object " <> name)) (object_call env (λ t b. get_in name b))
    host_call λ t w. (ok (body (env.torn t) o.content), w)

  -- HeadObject: the headers that are missing stay 0, the zero time and the empty text.
  unfoldable pub stat : String → M ObjectInfo
  unfolding get_in
  stat name = do
    resp ←
        rewrap (wrap ("stat object " <> name))
          (object_call env λ t b. headed (env.head t) (get_in name b))
    pure (record {
      key = name;
      size = or_zero resp.content_length;
      last_modified = or_zero resp.last_modified;
      content_type = or_empty resp.content_type;
    })

-- `GetPresignedURL`; `presign` is what the SDK's presigner answers to a bucket, a key and an expiry.
unfoldable pub get_presigned_url :
    (String → String → ℕ → Result String) → Storage → String → ℕ → Result String
get_presigned_url presign s name expiry = elim (presign s.bucket name expiry) [
  | ok url ↦ ok url
  | err e ↦ err (wrap "generate presigned URL" e)
]
