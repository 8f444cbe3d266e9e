-- ===== src/Daemon/Planning.antt =====
-- internal/daemon/worker_handlers.go: what it takes for a plan to be made, and what its being made
-- means.
pub mod Steps
pub mod Storing
pub mod Completion
pub mod Preparing
pub mod Execution
pub mod Processing
use mathlib.Core.List.{Memᴰ}
use openenvx_cloud.Prelude.{
  ℕ, ◌≡◌, refl, sym, ap, subst, ◌∙◌, inl, inr, String, Bool, true, List, [], ◌∷◌, none, some, arith,
  eq_iff, if◌then◌else◌, Bool-cases,
}
use openenvx_cloud.Models.{planned, Bytes, JobRow}
use openenvx_cloud.World.{ok, Db, Object, Bucket, WorkDir, File, binary, text, World, Env, up}
use openenvx_cloud.Db.Rows.{has_id, update_where}
use openenvx_cloud.Db.Updates.{IsWellFormed, mem-update_where, update_where-mem}
use openenvx_cloud.Db.Claims.{IsScan}
use openenvx_cloud.Storage.{get_object}
use openenvx_cloud.Terraform
use openenvx_cloud.Terraform.{Host, clean, write, write_in}
use openenvx_cloud.Daemon.Handlers.{plan_object, read_in, read_dir}

-- The database, the storage, the files and the tools work, hooks leave the working directory where it
-- is, and nobody else writes.
pub record IsWorking (env : Env) (host : Host) : Type 0 where
  pub scans : IsScan env
  pub answered : (t : ℕ) → env.link t ≡ up
  pub alone : (t : ℕ) (d : Db) → env.others t d ≡ d
  pub own_bucket : (t : ℕ) (b : Bucket) → env.others_bucket t b ≡ b
  pub labelled : env.has_label planned ≡ true
  pub files : (t : ℕ) → host.os t ≡ none
  pub starts : (t : ℕ) (h : Bytes) (dir : _) → (host.hook t h dir).unstarted ≡ none
  pub exits : (t : ℕ) (h : Bytes) (dir : _) → (host.hook t h dir).failure ≡ none
  pub scanned : (t : ℕ) (h : Bytes) (dir : _) → (host.hook t h dir).scan_end ≡ clean
  pub stays :
      (t : ℕ) (h : Bytes) (fs : List (String × File))
      → (gs : List (String × File)) × ((host.hook t h (some fs)).left ≡ some gs)
  pub plans : (t : ℕ) (d : Bool) (dir : _) → (host.plan t d dir).failure ≡ none
  pub plan_files :
      (t : ℕ) (d : Bool) (dir : _) → (b : Bytes) × ((host.plan t d dir).plan_file ≡ some b)
  pub shows : (t : ℕ) (dir : _) → (host.show t dir).failure ≡ none

-- What `tfplan` reads as in the working directory is the same after each of these hooks.
abbrev pub LeavePlan : Host → List Bytes → Type 0
LeavePlan host hooks =
    (h : Bytes)
    → Memᴰ h hooks
    → (t : ℕ) (dir : WorkDir) → read_dir "tfplan" (host.hook t h dir).left ≡ read_dir "tfplan" dir

-- The job is in the table, and there are a bucket and a working directory.
pub record Ready (r : JobRow) (w : World) : Type 0 where
  pub well_formed : IsWellFormed w.db
  pub listed : Memᴰ r w.db.jobs
  pub bucket : (m : List (String × Object)) × (w.bucket ≡ some m)
  pub dir : (fs : List (String × File)) × (w.work_dir ≡ some fs)

-- Terraform has made this plan, to destroy or not.
abbrev pub IsPlan : Host → Bool → Bytes → Type 0
IsPlan host destroy content =
    (t : ℕ) × (dir : WorkDir) × ((host.plan t destroy dir).plan_file ≡ some content)

-- It has left one in the working directory.
abbrev pub Planned : Host → Bool → JobRow → World → Type 0
Planned host destroy r w =
    Ready r w
    × ((content : Bytes) × IsPlan host destroy content
        × (read_dir "tfplan" w.work_dir ≡ ok content))

-- The plan is in the bucket under the job's name for it.
abbrev pub Stored : JobRow → Bytes → World → Type 0
Stored r content w =
    (m : List (String × Object)) × (o : Object) × (w.bucket ≡ some m)
    × (get_object (plan_object r.id) m ≡ some o)
    × (o.content ≡ content)

-- A row with the plan's name and text.
abbrev pub IsDescribed : JobRow → Bytes → JobRow → Type 0
IsDescribed r summary x =
    (x.plan_output_path ≡ some (plan_object r.id)) × (x.plan_summary ≡ some summary)

abbrev pub Listed : JobRow → World → Type 0
Listed r w = (x : JobRow) × Memᴰ x w.db.jobs × (x.id ≡ r.id)

abbrev pub Described : JobRow → Bytes → World → Type 0
Described r summary w = (x : JobRow) → Memᴰ x w.db.jobs → x.id ≡ r.id → IsDescribed r summary x

-- The job is in the table and PLANNED, with the plan that is in the bucket.
pub record Made (r : JobRow) (content summary : Bytes) (w : World) : Type 0 where
  pub stored : Stored r content w
  pub listed : (x : JobRow) × Memᴰ x w.db.jobs × (x.id ≡ r.id)
  pub rows :
      (x : JobRow) → Memᴰ x w.db.jobs → x.id ≡ r.id → (x.status ≡ planned) × IsDescribed r summary x

-- A plan was made and stored.
abbrev pub Finished : Host → Bool → JobRow → World → Type 0
Finished host destroy r w =
    (content : Bytes) × (summary : Bytes) × IsPlan host destroy content × Made r content summary w

pub read_in-write :
    (name : String) (b : Bytes) (fs : List (String × File))
    → read_in name (write name (binary b) fs) ≡ ok b
unfolding read_in write
read_in-write name b [] = ground (arith, eq_iff name name)
read_in-write name b ((n, text s) ∷ fs) =
    ground (arith, eq_iff n name, eq_iff name name, read_in-write name b fs)
read_in-write name b ((n, binary c) ∷ fs) =
    ground (arith, eq_iff n name, eq_iff name name, read_in-write name b fs)

pub read_dir-write_in :
    (name : String) (b : Bytes) (fs : List (String × File)) (dir : WorkDir)
    → dir ≡ some fs
    → read_dir name (write_in name (binary b) dir) ≡ ok b
unfolding read_dir write_in
read_dir-write_in name b fs dir e = rw e (read_in-write name b fs)

-- What an UPDATE of the rows with an id makes true of them.
pub updated :
    (id : String) (f : JobRow → JobRow) (Q : JobRow → Type 0) (rs : List JobRow)
    → ((x : JobRow) → (f x).id ≡ x.id)
    → ((x : JobRow) → Memᴰ x rs → x.id ≡ id → Q (f x))
    → (x : JobRow) → Memᴰ x (update_where (has_id id) f rs)
    → x.id ≡ id
    → Q x
updated id f Q rs same k x m i =
    let (y, n, e) = mem-update_where (has_id id) f x rs m in
    elim (Bool-cases (has_id id y)) [
      | inl h ↦ subst Q (sym (e ∙ rw h refl)) (k y n ((eq_iff y.id id).0 h))
      | inr h ↦
          let old : x ≡ y = e ∙ rw h refl in
          let hit : has_id id y ≡ true =
            (eq_iff y.id id).1 (sym (ap (λ (z : JobRow). z.id) old) ∙ i) in
          absurd cc
    ]

pub updated-listed :
    (id : String) (f : JobRow → JobRow) (rs : List JobRow)
    → ((x : JobRow) → (f x).id ≡ x.id)
    → (r : JobRow) → Memᴰ r rs
    → r.id ≡ id
    → (x : JobRow) × Memᴰ x (update_where (has_id id) f rs) × (x.id ≡ id)
updated-listed id f rs same r m i =
    let hit : has_id id r ≡ true = (eq_iff r.id id).1 i in
    (
      f r,
      subst (λ b. Memᴰ (if b then f r else r) (update_where (has_id id) f rs)) hit
          (update_where-mem (has_id id) f rs m),
      same r ∙ i,
    )
