-- ===== src/Db/Timeouts.antt =====
-- internal/db/queries_jobs.go: what FailTimedOutJobs does to the table, row by row.
use mathlib.Core.List.{Memᴰ}
use openenvx_cloud.Prelude.{
  ℕ, suc, ◌+◌, ◌*◌, ◌/◌, ◌<◌, ◌≡◌, refl, ap, subst, ◌∙◌, inl, inr, true, false, List, [], ◌∷◌,
  arith, Bool-cases,
}
use openenvx_cloud.Models.{queued, failed, JobRow}
use openenvx_cloud.World.{ok, World, Env, up, rewrap_result}
use openenvx_cloud.World.Calls.{statement-up}
use openenvx_cloud.Db.Rows.{update_where, count_where}
use openenvx_cloud.Db.Selection.{mem-cons}
use openenvx_cloud.Db.Claims.{HasLabels, with_labels_lem}
use openenvx_cloud.Db.Answers.{current}
use openenvx_cloud.Db.Queue.{timed_out, fail_in, fail_timed_out_jobs}

module _ (env : Env) (timeout t : ℕ) where
  -- The row is QUEUED, and was created before the whole seconds of the timeout, a `time.Duration` in
  -- nanoseconds; the database counts microseconds.
  abbrev pub IsOverdue : JobRow → Type 0
  IsOverdue r = (r.status ≡ queued) × (r.created_at + timeout / 1000000000 * 1000000 < env.now t)

  -- The rows before, the rows after, and how many of them were failed.
  pub data Swept : ℕ → List JobRow → List JobRow → Type 0 where
    none_left : Swept 0 [] []
    kept :
        {n : ℕ} {r : JobRow} {rs ss : List JobRow}
        → ¬ IsOverdue r
        → Swept n rs ss
        → Swept n (r ∷ rs) (r ∷ ss)
    swept :
        {n : ℕ} {r s : JobRow} {rs ss : List JobRow}
        → IsOverdue r
        → s ≡ record r { status = failed; updated_at = env.now t }
        → Swept n rs ss
        → Swept (suc n) (r ∷ rs) (s ∷ ss)

  timed_out-true : (r : JobRow) → timed_out env timeout t r ≡ true → IsOverdue r
  unfolding timed_out
  timed_out-true r e = ground arith

  timed_out-false : (r : JobRow) → timed_out env timeout t r ≡ false → ¬ IsOverdue r
  unfolding timed_out
  timed_out-false r e (q, l) = ground arith

  sweep :
      (rs : List JobRow)
      → Swept (count_where (timed_out env timeout t) rs) rs (
          update_where
            (timed_out env timeout t)
            (λ r. record r { status = failed; updated_at = env.now t })
            rs)
  unfolding count_where update_where
  sweep [] = none_left
  sweep (r ∷ rs) = elim (Bool-cases (timed_out env timeout t r)) [
    | inl e ↦ rw e (swept (timed_out-true r e) refl (sweep rs))
    | inr e ↦ rw e (kept (timed_out-false r e) (sweep rs))
  ]

  -- Nothing is left to fail.
  Swept-none :
      {n : ℕ} {rs ss : List JobRow} → Swept n rs ss → (x : JobRow) → Memᴰ x ss → ¬ IsOverdue x
  Swept-none none_left x m o = elim m [ ]
  Swept-none (kept {r} fresh s) x m o = elim (mem-cons m) [
    | inl q ↦ fresh (subst IsOverdue q o)
    | inr n ↦ Swept-none s x n o
  ]
  Swept-none (swept _ e s) x m o = elim (mem-cons m) [
    | inl q ↦
        let fails : x.status ≡ failed = ap (λ (y : JobRow). y.status) (q ∙ e) in
        absurd (cc (fails, o.0))
    | inr n ↦ Swept-none s x n o
  ]

module _ (env : Env) (timeout : ℕ) (labels : HasLabels env (failed ∷ queued ∷ [])) where
  -- Where the database answers and knows FAILED and QUEUED, FailTimedOutJobs goes over the table that
  -- others have left: a row that is QUEUED and older than the whole seconds of the timeout becomes
  -- FAILED, with the time of the update and no other change; any other row stays as it is; the answer
  -- is how many rows were failed, and no such row is left.
  pub fail_timed_out_jobs_lem :
      (w : World)
      → env.link w.tick ≡ up
      → let (r, v) = fail_timed_out_jobs env timeout w in
        (n : ℕ) × (r ≡ ok n)
        × Swept env timeout w.tick n (current env w).jobs v.db.jobs
        × ((x : JobRow) → Memᴰ x v.db.jobs → ¬ IsOverdue env timeout w.tick x)
  unfolding fail_timed_out_jobs fail_in rewrap_result
  fail_timed_out_jobs_lem w answered =
      let s = sweep env timeout w.tick (current env w).jobs in
      rw (statement-up env _ _ w answered) (
        rw (with_labels_lem env (failed ∷ queued ∷ []) (current env w) _ labels)
          (_, refl, s, Swept-none env timeout w.tick s))
