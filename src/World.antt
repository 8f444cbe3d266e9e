-- ===== src/World.antt =====
-- What the orchestrator reads and writes, and the calls through which it does: the tables of
-- PostgreSQL, the bucket of the object storage, the messages published and the log of the job that
-- a worker runs. PostgreSQL and the object storage are no code of the repository: what they do that
-- the program does not determine is the record `Env`, asked anew at each call by the call's number.
pub mod Keeps
pub mod Reads
pub mod Calls
pub mod Ends
pub mod Succeeds
use openenvx_cloud.Prelude.{
  ℕ, suc, String, Bool, true, false, List, [], ◌∷◌, Option, none, some, ◌==◌, if◌then◌else◌,
}
use openenvx_cloud.Models.{JobStatus, JobRow, Bytes}

-- Go's errors. `no_rows` is `pgx.ErrNoRows`, `fault` one that a driver, a tool or the operating
-- system reports, `wrap` is `fmt.Errorf("text: %w", err)`.
pub data Error : Type 0 where
  no_rows : Error
  fault : String → Error
  wrap : String → Error → Error

-- `err == pgx.ErrNoRows`
abbrev pub is_no_rows : Error → Bool
is_no_rows no_rows = true
is_no_rows (fault _) = false
is_no_rows (wrap _ _) = false

pub data Result {ℓ} (A : Type ℓ) : Type ℓ where
  ok : A → Result A
  err : Error → Result A

pub record Db : Type 0 where
  pub jobs : List JobRow
  pub projects : List (String × String)  -- a project's id and its organization_id
  pub members : List (String × String)  -- user_id and organization_id

pub record Object : Type 0 where
  pub content : Bytes
  pub content_type : String
  pub modified : ℕ

-- The headers of an object that a `HeadObject` answer may carry.
pub record Head : Type 0 where
  pub content_length : Option ℕ
  pub last_modified : Option ℕ
  pub content_type : Option String

-- The bucket of the object storage, `none` until it is created.
abbrev pub Bucket : Type 0
Bucket = Option (List (String × Object))

pub data File : Type 0 where
  text : String → File
  binary : Bytes → File

-- The working directory of the job that a worker runs, by file name; `none` while there is none.
abbrev pub WorkDir : Type 0
WorkDir = Option (List (String × File))

pub record World : Type 0 where
  pub db : Db
  pub bucket : Bucket
  pub work_dir : WorkDir
  pub published : List (String × Bytes)
  pub log : Bytes
  pub tick : ℕ  -- how many external calls were made

-- How a call fares: it is answered; it fails and has no effect; or it has its effect and only the
-- answer is lost.
pub data Link : Type 0 where
  up lost lost_after : Link

pub record Env : Type 0 where
  pub now : ℕ → ℕ  -- NOW(), in microseconds
  pub new_id : ℕ → String  -- the default of jobs.id
  pub has_label : JobStatus → Bool  -- whether the column's type has the value
  pub takes_nil : Bool  -- whether a column that is NOT NULL takes what a nil slice is sent as
  pub scan : ℕ → List JobRow → List JobRow  -- the order in which a query meets the rows
  pub locked : ℕ → String → Bool  -- the rows that other transactions have locked
  pub link : ℕ → Link
  pub others : ℕ → Db → Db  -- what other processes have committed since the last call
  pub others_bucket : ℕ → Bucket → Bucket
  pub head : ℕ → Object → Head  -- which headers HeadObject reports, and as what
  pub torn : ℕ → Option (ℕ × String)  -- after how many bytes the read of a body fails, and how
  pub recreates : ℕ → Bool  -- whether CreateBucket accepts a bucket that is there

abbrev pub M {ℓ} : Type ℓ → Type ℓ
M A = World → Result A × World

module _ {ℓ} {A : Type ℓ} where
  unfoldable pub pure : A → M A
  pure a w = (ok a, w)

  unfoldable pub raise : Error → M A
  raise e w = (err e, w)

module _ {ℓ κ} {A : Type ℓ} {B : Type κ} where
  unfoldable pub continue : Result A → (A → M B) → M B
  continue (ok a) f w = f a w
  continue (err e) f w = (err e, w)

  infixl 10 ◌>>=◌ ◌>>◌
  unfoldable pub ◌>>=◌ : M A → (A → M B) → M B
  unfolding pure raise continue
  ◌>>=◌ m f w = let (r, w') = m w in continue r f w'

  abbrev pub ◌>>◌ : M A → M B → M B
  m >> n = m >>= λ _. n

module _ {ℓ} {A : Type ℓ} where
  unfoldable pub rewrap_result : (Error → Error) → Result A → Result A
  rewrap_result f (ok a) = ok a
  rewrap_result f (err e) = err (f e)

module _ {ℓ} {A : Type ℓ} where
  -- A call whose error the caller looks at.
  unfoldable pub attempt : M A → M (Result A)
  attempt m w = let (r, w') = m w in (ok r, w')

  -- `if err != nil { return f(err) }` after a call.
  unfoldable pub rewrap : (Error → Error) → M A → M A
  unfolding rewrap_result
  rewrap f m w = let (r, w') = m w in (rewrap_result f r, w')

  unfoldable pub answer : Link → Result A × Db → World → Result A × World
  answer up (r, d) w = (r, record w { db = d })
  answer lost (r, d) w = (err (fault "connection lost"), w)
  answer lost_after (r, d) w = (err (fault "connection lost"), record w { db = d })

  -- What the worker itself holds, with no call.
  unfoldable pub look : (World → A) → M A
  look f w = (ok (f w), w)

  -- An operation of the operating system or of a tool: it does not touch the tables.
  unfoldable pub host_call : (ℕ → World → Result A × World) → M A
  host_call f w = let (r, v) = f w.tick w in (r, record v { db = w.db; tick = suc w.tick })

  -- One SQL statement of its own: PostgreSQL runs it at once, on what others have committed.
  unfoldable pub statement : Env → (ℕ → Db → Result A × Db) → M A
  unfolding answer
  statement env f w =
      let d = env.others w.tick w.db in
      answer (env.link w.tick) (f w.tick d) (record w { db = d; tick = suc w.tick })

  unfoldable pub answer_object : Link → Result A × Bucket → World → Result A × World
  answer_object up (r, b) w = (r, record w { bucket = b })
  answer_object lost (r, b) w = (err (fault "connection lost"), w)
  answer_object lost_after (r, b) w = (err (fault "connection lost"), record w { bucket = b })

  -- One request to the object storage.
  unfoldable pub object_call : Env → (ℕ → Bucket → Result A × Bucket) → M A
  unfolding answer_object
  object_call env f w =
      let b = env.others_bucket w.tick w.bucket in
      answer_object (env.link w.tick) (f w.tick b) (record w { bucket = b; tick = suc w.tick })

  -- The statement of a transaction that is open: its changes are not in `db` yet.
  unfoldable pub within : Link → Result A × Db → Result (A × Db)
  within up (ok a, d) = ok (a, d)
  within up (err e, d) = err e
  within lost _ = err (fault "connection lost")
  within lost_after _ = err (fault "connection lost")

  -- `Commit`, on which the changes take effect; without it the deferred `Rollback` drops them.
  unfoldable pub finish : (Error → Error) → Result (A × Db) → Link → World → Result A × World
  finish on_commit (err e) link w = (err e, w)
  finish on_commit (ok (a, d)) up w = (ok a, record w { db = d; tick = suc w.tick })
  finish on_commit (ok (a, d)) lost w =
      (err (on_commit (fault "connection lost")), record w { tick = suc w.tick })
  finish on_commit (ok (a, d)) lost_after w =
      (err (on_commit (fault "connection lost")), record w { db = d; tick = suc w.tick })

  -- `Begin`, one statement, `Commit`. The row that the statement changes stays locked until the
  -- commit, so the two are one change of the tables.
  unfoldable pub transaction :
      Env → (Error → Error) → (Error → Error) → (Error → Error) → (ℕ → Db → Result A × Db) → M A
  unfolding within finish rewrap_result
  transaction env on_begin on_query on_commit f w = elim (env.link w.tick) [
    | up ↦
        let t = suc w.tick in
        let d = env.others t w.db in
        finish on_commit (rewrap_result on_query (within (env.link t) (f t d))) (env.link (suc t))
          (record w { db = d; tick = suc t })
    | _ ↦ (err (on_begin (fault "connection lost")), record w { tick = suc w.tick })
  ]

-- `var logBuffer bytes.Buffer`
unfoldable pub fresh_log : M (Unit {0})
fresh_log w = (ok tt, record w { log = [] })
