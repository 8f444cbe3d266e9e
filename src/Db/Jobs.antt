-- ===== src/Db/Jobs.antt =====
-- internal/db/queries_jobs.go: reading, writing and creating jobs.
use openenvx_cloud.Prelude.{
  ℕ, String, Bool, List, [], ◌∷◌, ◌++◌, Option, none, some, filter, any, ◌==◌, ◌&&◌, ◌||◌, true,
  false, if◌then◌else◌,
}
use openenvx_cloud.Models.{
  JobStatus, pending_plan, planning, planned, approved, applying, status_eq, status_in, Bytes,
  Fields, JobRow, Job,
}
use openenvx_cloud.World.{
  Error, Result, ok, err, fault, no_rows, wrap, Db, Env, M, rewrap, statement,
}
use openenvx_cloud.Db.Rows.{
  lookup, join, head?, order_by, by_created_at, update_where, has_id, with_labels, scan_row,
}

-- An error that is `pgx.ErrNoRows` is returned as it is, any other with a text in front.
abbrev pub unless_no_rows : String → Error → Error
unless_no_rows text no_rows = no_rows
unless_no_rows text (fault s) = wrap text (fault s)
unless_no_rows text (wrap s e) = wrap text (wrap s e)

module _ (env : Env) where
  unfoldable pub fetch_jobs_by_status : JobStatus → M (List Job)
  fetch_jobs_by_status status = rewrap (wrap "query jobs by status") (
      statement env λ t d. with_labels env (status ∷ []) d (
        ok (
            join d.projects (
              order_by by_created_at
                (filter (λ r. status_eq r.status status) (env.scan t d.jobs)))),
        d,
      ))

  unfoldable pub fetch_jobs_by_statuses : List JobStatus → M (List Job)
  fetch_jobs_by_statuses statuses = rewrap (wrap "query jobs by statuses") (
      statement env λ t d. with_labels env statuses d (
        ok (
            join d.projects (
              order_by by_created_at
                (filter (λ r. status_in r.status statuses) (env.scan t d.jobs)))),
        d,
      ))

  unfoldable pub set_status : String → JobStatus → ℕ → Db → Result (Unit {0}) × Db
  set_status id status t d = with_labels env (status ∷ []) d (
    ok tt,
    record d {
      jobs =
          update_where (has_id id) (λ r. record r { status = status; updated_at = env.now t })
            d.jobs;
    },
  )

  unfoldable pub update_job_status : String → JobStatus → M (Unit {0})
  unfolding set_status
  update_job_status id status =
      rewrap (wrap "update job status") (statement env (set_status id status))

  unfoldable pub set_plan_result : String → String → Bytes → ℕ → Db → Result (Unit {0}) × Db
  set_plan_result id path summary t d = (
    ok tt,
    record d {
      jobs =
          update_where (has_id id)
            (λ r. record r {
              plan_output_path = some path;
              plan_summary = some summary;
              updated_at = env.now t;
            })
            d.jobs;
    },
  )

  unfoldable pub update_job_plan_result : String → String → Bytes → M (Unit {0})
  unfolding set_plan_result
  update_job_plan_result id path summary =
      rewrap (wrap "update job plan result") (statement env (set_plan_result id path summary))

  unfoldable pub set_summary : String → Bytes → ℕ → Db → Result (Unit {0}) × Db
  set_summary id summary t d = (
    ok tt,
    record d {
      jobs =
          update_where (has_id id)
            (λ r. record r { plan_summary = some summary; updated_at = env.now t }) d.jobs;
    },
  )

  unfoldable pub update_job_summary : String → Bytes → M (Unit {0})
  unfolding set_summary
  update_job_summary id summary =
      rewrap (wrap "update job summary") (statement env (set_summary id summary))

  unfoldable pub select_by_id : String → ℕ → Db → Result Job × Db
  select_by_id id t d =
      (scan_row (head? (join d.projects (filter (has_id id) (env.scan t d.jobs)))), d)

  unfoldable pub get_job : String → M Job
  unfolding select_by_id
  get_job id = rewrap (wrap "get job") (statement env (select_by_id id))

-- The arguments of `CreateJob` after the status; a list of hooks is a nil slice where the request leaves
-- it out.
pub record NewJob : Type 0 where
  pub project_id : String
  pub operation : String
  pub module_name : String
  pub variables : Fields
  pub pre_plan : Option (List Bytes)
  pub post_plan : Option (List Bytes)
  pub pre_apply : Option (List Bytes)
  pub post_apply : Option (List Bytes)
  pub pre_destroy : Option (List Bytes)

abbrev pub hooks_of : Option (List Bytes) → List Bytes
hooks_of none = []
hooks_of (some hooks) = hooks

abbrev is_given : Option (List Bytes) → Bool
is_given none = false
is_given (some _) = true

abbrev pub gives_hooks : NewJob → Bool
gives_hooks n =
    is_given n.pre_plan
    && (is_given n.post_plan
        && (is_given n.pre_apply && (is_given n.post_apply && is_given n.pre_destroy)))

unfoldable pub new_row : NewJob → JobStatus → String → ℕ → JobRow
new_row n status id now = record {
  id = id;
  project_id = n.project_id;
  status = status;
  operation = n.operation;
  module_name = n.module_name;
  variables = n.variables;
  plan_output_path = none;
  plan_summary = none;
  pre_plan = hooks_of n.pre_plan;
  post_plan = hooks_of n.post_plan;
  pre_apply = hooks_of n.pre_apply;
  post_apply = hooks_of n.post_apply;
  pre_destroy = hooks_of n.pre_destroy;
  created_at = now;
  updated_at = now;
}

abbrev pub active_statuses : List JobStatus
active_statuses = pending_plan ∷ planning ∷ planned ∷ approved ∷ applying ∷ []

abbrev pub is_active : String → JobRow → Bool
is_active project_id r = r.project_id == project_id && status_in r.status active_statuses

-- The key of `projects` and the primary key of `jobs` are checked by the INSERT.
unfoldable pub insert_row : JobRow → Option String → Db → Result Job × Db
insert_row r none d = (err (fault "violates foreign key constraint"), d)
insert_row r (some org) d =
    if any (has_id r.id) d.jobs
    then (err (fault "duplicate key value"), d)
    else (ok (record { row = r; organization_id = org }), record d { jobs = d.jobs ++ r ∷ [] })

-- The columns of the hooks are NOT NULL.
unfoldable pub not_null {ℓ} : {A : Type ℓ} → Bool → Db → Result A × Db → Result A × Db
not_null accepted d r =
    if accepted then r else (err (fault "null value violates not-null constraint"), d)

module _ (env : Env) where
  abbrev pub is_accepted : NewJob → Bool
  is_accepted n = env.takes_nil || gives_hooks n

  unfoldable pub insert_job : NewJob → JobStatus → ℕ → Db → Result Job × Db
  unfolding insert_row new_row not_null
  insert_job n status t d = with_labels env (status ∷ []) d (
      not_null (is_accepted n) d (
        insert_row (new_row n status (env.new_id t) (env.now t)) (lookup n.project_id d.projects)
          d))

  unfoldable pub create_job : NewJob → JobStatus → M Job
  unfolding insert_job
  create_job n status = rewrap (unless_no_rows "create job") (statement env (insert_job n status))

  -- LIMIT 1 with no ORDER BY: the first row that the query meets.
  unfoldable pub select_active : String → ℕ → Db → Result Job × Db
  select_active project_id t d =
      with_labels env active_statuses d
        (scan_row (head? (join d.projects (filter (is_active project_id) (env.scan t d.jobs)))), d)

  unfoldable pub get_active_job_for_project : String → M Job
  unfolding select_active
  get_active_job_for_project project_id =
      rewrap (unless_no_rows "get active job") (statement env (select_active project_id))
