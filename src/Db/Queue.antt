-- ===== src/Db/Queue.antt =====
-- internal/db/queries_jobs.go: the jobs as a queue, which workers claim from, a finished job promotes
-- in, and a timer clears.
use openenvx_cloud.Prelude.{
  ℕ, ◌+◌, ◌*◌, ◌/◌, String, Bool, List, [], ◌∷◌, Option, none, some, filter, ◌==◌, ◌&&◌, not, ltb,
  if◌then◌else◌,
}
use openenvx_cloud.Models.{
  JobStatus, pending_plan, planning, queued, applying, destroying, failed, status_eq, status_in,
  JobRow, Job,
}
use openenvx_cloud.World.{
  Result, ok, err, no_rows, wrap, Db, Env, M, rewrap, statement, transaction,
}
use openenvx_cloud.Db.Rows.{
  lookup, head?, order_by, by_created_at, by_created_at_and_id, update_where, count_where, has_id,
  with_labels,
}
use openenvx_cloud.Db.Jobs.{unless_no_rows}

-- The UPDATE of the row that `next_job` found, and the SELECT that joins its project: where either
-- finds nothing there is no row, and the transaction is rolled back.
unfoldable pub returning : (JobRow → JobRow) → JobRow → Option String → Db → Result Job × Db
returning f r none d = (err no_rows, d)
returning f r (some org) d = (
  ok (record { row = f r; organization_id = org }),
  record d { jobs = update_where (has_id r.id) f d.jobs },
)

unfoldable pub update_next : (JobRow → JobRow) → Option JobRow → Db → Result Job × Db
unfolding returning
update_next f none d = (err no_rows, d)
update_next f (some r) d = returning f r (lookup r.project_id d.projects) d

-- The CASE on the operation.
unfoldable pub running_status : String → JobStatus → JobStatus
running_status operation status =
    if operation == "plan"
    then planning
    else if operation == "apply"
    then applying
    else if operation == "destroy"
    then destroying
    else status

abbrev pub claim_labels : List JobStatus
claim_labels = planning ∷ applying ∷ destroying ∷ []

module _ (env : Env) where
  -- A row that FOR UPDATE SKIP LOCKED does not pass over.
  abbrev pub is_free : ℕ → JobRow → Bool
  is_free t r = not (env.locked t r.id)

  unfoldable pub promotable : String → ℕ → JobRow → Bool
  promotable project_id t r = r.project_id == project_id && status_eq r.status queued && is_free t r

  unfoldable pub promote : ℕ → JobRow → JobRow
  promote t r = record r { status = pending_plan; updated_at = env.now t }

  unfoldable pub promote_in : String → ℕ → Db → Result Job × Db
  unfolding update_next promotable promote
  promote_in project_id t d = with_labels env (queued ∷ pending_plan ∷ []) d (
      update_next (promote t)
        (head?
          (order_by by_created_at_and_id (filter (promotable project_id t) (env.scan t d.jobs))))
        d)

  unfoldable pub promote_next_job : String → M Job
  unfolding promote_in
  promote_next_job project_id =
      transaction env (wrap "begin promote next job tx") (unless_no_rows "promote next job")
        (wrap "commit promote next job tx") (promote_in project_id)

  unfoldable pub claimable : List JobStatus → ℕ → JobRow → Bool
  claimable statuses t r = status_in r.status statuses && is_free t r

  unfoldable pub claim : ℕ → JobRow → JobRow
  unfolding running_status
  claim t r = record r { status = running_status r.operation r.status; updated_at = env.now t }

  unfoldable pub claim_in : List JobStatus → ℕ → Db → Result Job × Db
  unfolding update_next claimable claim
  claim_in statuses t d = with_labels env statuses d (
      with_labels env claim_labels d (
        update_next (claim t)
          (head? (order_by by_created_at (filter (claimable statuses t) (env.scan t d.jobs)))) d))

  unfoldable pub claim_next_job : List JobStatus → M Job
  unfolding claim_in
  claim_next_job statuses = transaction env (λ e. e) (λ e. e) (λ e. e) (claim_in statuses)

  -- `timeout` is a `time.Duration` in nanoseconds, of which the query gets the whole seconds;
  -- created_at < NOW() - seconds, in microseconds.
  unfoldable pub timed_out : ℕ → ℕ → JobRow → Bool
  timed_out timeout t r =
      status_eq r.status queued && ltb (r.created_at + (timeout / 1000000000) * 1000000) (env.now t)

  unfoldable pub fail_in : ℕ → ℕ → Db → Result ℕ × Db
  unfolding timed_out
  fail_in timeout t d = with_labels env (failed ∷ queued ∷ []) d (
    ok (count_where (timed_out timeout t) d.jobs),
    record d {
      jobs =
          update_where (timed_out timeout t)
            (λ r. record r { status = failed; updated_at = env.now t }) d.jobs;
    },
  )

  unfoldable pub fail_timed_out_jobs : ℕ → M ℕ
  unfolding fail_in
  fail_timed_out_jobs timeout =
      rewrap (wrap "fail timed out jobs") (statement env (fail_in timeout))
