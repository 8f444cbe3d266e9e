-- ===== src/Db/Claims.antt =====
-- What ClaimNextJob, PromoteNextJob and FailTimedOutJobs do to the queue of jobs, against a
-- description that does not say how they find a row.
use mathlib.Core.List.{Memᴰ, Permᴰ}
use openenvx_cloud.Prelude.{
  ℕ, ◌≡◌, refl, inl, inr, String, Bool, true, false, List, [], ◌∷◌, some, filter, Option-cases,
}
use openenvx_cloud.Models.{JobStatus, queued, pending_plan, JobRow, Job}
use openenvx_cloud.World.{Result, ok, err, no_rows, Db, Env}
use openenvx_cloud.Db.Rows.{
  lookup, head?, order_by, by_created_at, by_created_at_and_id, with_labels,
}
use openenvx_cloud.Db.Selection.{
  IsNext, first-IsNext, first-none, by_created_at-IsByAge, by_created_at_and_id-IsByAge, IsByAge,
}
use openenvx_cloud.Db.Updates.{Replaces, IsWellFormed, update_where-Replaces}
use openenvx_cloud.Db.Queue.{
  returning, update_next, promotable, promote, promote_in, claimable, claim, claim_in, claim_labels,
}

-- A query meets every row once, in some order.
pub record IsScan (env : Env) : Type 0 where
  pub perm : (t : ℕ) (rows : List JobRow) → Permᴰ (env.scan t rows) rows

-- The database has all these values of `job_status`.
abbrev pub HasLabels : Env → List JobStatus → Type 0
HasLabels env [] = Unit
HasLabels env (s ∷ ss) = (env.has_label s ≡ true) × HasLabels env ss

-- Taking one row that passes `p` and turning it into `f` of it: an oldest such row is replaced in
-- the table and returned with its organization, or there is none and nothing changes.
pub data Takes (p : JobRow → Bool) (f : JobRow → JobRow) (d : Db) (r : Result Job) (d' : Db)
    : Type 0 where
  took :
      (row : JobRow) (org : String)
      → IsNext p d.jobs row
      → lookup row.project_id d.projects ≡ some org
      → r ≡ ok (record { row = f row; organization_id = org })
      → Replaces row (f row) d.jobs d'.jobs
      → d'.projects ≡ d.projects
      → d'.members ≡ d.members
      → Takes p f d r d'
  none_left :
      ((row : JobRow) → Memᴰ row d.jobs → p row ≡ false)
      → r ≡ err no_rows
      → d' ≡ d
      → Takes p f d r d'

pub with_labels_lem {ℓ} :
    {A : Type ℓ} (env : Env) (ss : List JobStatus) (d : Db) (r : Result A × Db)
    → HasLabels env ss
    → with_labels env ss d r ≡ r
unfolding with_labels
with_labels_lem env [] d r h = refl
with_labels_lem env (s ∷ ss) d r h = rw h.0 (with_labels_lem env ss d r h.1)

update_next-Takes :
    (before : JobRow → JobRow → Bool) (p : JobRow → Bool) (f : JobRow → JobRow) (d : Db)
    (met : List JobRow)
    → IsByAge before
    → Permᴰ met d.jobs
    → IsWellFormed d
    → let out = update_next f (head? (order_by before (filter p met))) d in Takes p f d out.0 out.1
unfolding update_next
update_next-Takes before p f d met age perm wf =
    elim (Option-cases (head? (order_by before (filter p met)))) [
      | inl e ↦ rw e (none_left (first-none before p perm e) refl refl)
      | inr (row, e) ↦
          let next : IsNext p d.jobs row = first-IsNext before p perm age row e in
          let (org, o) = wf.owned row next.listed in
          rw (e, update_next)
            (rw (o, returning)
              (took row org next o refl (update_where-Replaces f row d.jobs wf.nodup next.listed)
                refl refl))
    ]

module _ (env : Env) (scans : IsScan env) where
  -- For every table that meets its constraints, ClaimNextJob takes an oldest row that is in one of
  -- the statuses and not locked, and sets its status by its operation; it returns that row, no other
  -- row changes, and it reports `ErrNoRows`, changing nothing, exactly where there is no such row.
  -- The database has the statuses named among its values of `job_status`.
  pub claim_in-Takes :
      (statuses : List JobStatus) (t : ℕ) (d : Db)
      → HasLabels env statuses
      → HasLabels env claim_labels
      → IsWellFormed d
      → let out = claim_in env statuses t d in
        Takes (claimable env statuses t) (claim env t) d out.0 out.1
  unfolding claim_in
  claim_in-Takes statuses t d h k wf = rw (with_labels_lem env statuses d _ h) (
      rw (with_labels_lem env claim_labels d _ k) (
        update_next-Takes by_created_at (claimable env statuses t) (claim env t) d
          (env.scan t d.jobs) by_created_at-IsByAge (scans.perm t d.jobs) wf))

  -- For every table that meets its constraints, PromoteNextJob takes an oldest row of the project
  -- that is QUEUED and not locked and makes it PENDING_PLAN; it returns that row, no other row
  -- changes, and it reports `ErrNoRows`, changing nothing, exactly where there is no such row. The
  -- database has QUEUED and PENDING_PLAN among its values of `job_status`.
  pub promote_in-Takes :
      (project_id : String) (t : ℕ) (d : Db)
      → HasLabels env (queued ∷ pending_plan ∷ [])
      → IsWellFormed d
      → let out = promote_in env project_id t d in
        Takes (promotable env project_id t) (promote env t) d out.0 out.1
  unfolding promote_in
  promote_in-Takes project_id t d h wf =
      rw (with_labels_lem env (queued ∷ pending_plan ∷ []) d _ h) (
        update_next-Takes by_created_at_and_id (promotable env project_id t) (promote env t) d
          (env.scan t d.jobs) by_created_at_and_id-IsByAge (scans.perm t d.jobs) wf)
