-- ===== src/Tests/Requests.antt =====
-- The theorems on requests, on three jobs.
use openenvx_cloud.Db.Rows.{lookup}
use mathlib.Core.List.{Memᴰ}
use openenvx_cloud.Prelude.{
  ◌<>◌, ◌==◌, ◌≡◌, refl, ◌⊎◌, String, [], ◌∷◌, true, false, any, some, none, Option,
}
use openenvx_cloud.Models.{approved, cancelled, queued, empty, JobRow, Job}
use openenvx_cloud.World.{ok, Env, M, pure}
use openenvx_cloud.Db.Jobs.{NewJob, new_row, is_active}
use openenvx_cloud.Db.Lookup.{IsFound}
use openenvx_cloud.Db.Answers.{with_status}
use openenvx_cloud.Auth.{Identity, answer_text, middleware}
use openenvx_cloud.Auth.Laws.{Judged, identity, middleware-cases}
use openenvx_cloud.Api.Reply.{Reply, plain, failure, job, stream, locked}
use openenvx_cloud.Api.Jobs.{
  handle_create_job, handle_approve_job, handle_discard_job, is_incomplete,
}
use openenvx_cloud.Api.Projects.{
  handle_lock_project_state, handle_unlock_project_state, handle_post_project_state,
  handle_get_project_state,
}
use openenvx_cloud.Api.Table
use openenvx_cloud.Api.Table.{ended, same, given, pattern_of_unique}
use openenvx_cloud.Api.Creation.{create_unqueued, create_without_hooks}
use openenvx_cloud.Api.Review.{approve_lem, discard_lem}
use openenvx_cloud.Api.Locking.{lock-cases, lock_while_running}
use openenvx_cloud.Api.Unlocking.{unlock-cases}
use openenvx_cloud.Api.State.{IsCalm, state_round_trip}
use openenvx_cloud.Tests.{
  quiet, quiet-IsScan, tables, tables-IsWellFormed, start, planned_row, waiting_row, running_row,
}

abbrev wanted : NewJob
wanted = record {
  project_id = "p-1";
  operation = "apply";
  module_name = "network";
  variables = empty;
  pre_plan = some [];
  post_plan = some [];
  pre_apply = some [];
  post_apply = some [];
  pre_destroy = some [];
}

abbrev added_row : JobRow
added_row = new_row wanted queued "job-9" 1

-- The database of packages/db.
abbrev as_deployed : Env
as_deployed = record quiet { has_label = λ s. elim s [ queued ↦ false | _ ↦ true ] }

create_unqueued_example :
    let out = handle_create_job as_deployed (some wanted) start in
    (out.0 ≡ ok (failure 500 "Failed to create job")) × (out.1.db ≡ tables)
unfolding is_incomplete any
create_unqueued_example =
    create_unqueued as_deployed start wanted refl refl (refl, (refl, (refl, (refl, tt)))) refl refl

-- A database whose columns for the hooks are NOT NULL, and a request with only some of the lists.
abbrev strict : Env
strict = record quiet { takes_nil = false }

abbrev partial : NewJob
partial = record wanted { post_plan = none }

create_without_hooks_example :
    let out = handle_create_job strict (some partial) start in
    (out.0 ≡ ok (failure 500 "Failed to create job")) × (out.1.db ≡ tables)
unfolding is_incomplete
create_without_hooks_example =
    create_without_hooks strict start partial refl refl (refl, (refl, (refl, (refl, tt)))) refl refl

approve_lem_example :
    let out = handle_approve_job quiet "job-1" start in
    ((true ≡ false)
      × (out.0 ≡ ok (failure 400 "Job is not in PLANNED status"))
      × (out.1.db ≡ tables))
    ⊎ ((true ≡ true)
        × (out.0
            ≡ ok (record {
              code = 200;
              body = job (record {
                row = record planned_row { status = approved };
                organization_id = "o-1";
              });
            }))
        × (out.1.db ≡ with_status quiet "job-1" approved 1 tables))
unfolding lookup
approve_lem_example =
    approve_lem quiet quiet-IsScan start refl refl tables-IsWellFormed planned_row (Memᴰ.head refl)
      "o-1" refl refl

discard_lem_example :
    let out = handle_discard_job quiet "job-2" start in
    ((false ≡ true)
      × (out.0 ≡ ok (failure 400 "Job cannot be discarded in QUEUED status"))
      × (out.1.db ≡ tables))
    ⊎ ((false ≡ false)
        × (out.0 ≡ ok (plain 200))
        × (out.1.db ≡ with_status quiet "job-2" cancelled 1 tables))
unfolding lookup
discard_lem_example =
    discard_lem quiet quiet-IsScan start refl refl tables-IsWellFormed waiting_row
      (Memᴰ.tail (Memᴰ.head refl)) "o-1" refl refl

lock-cases_example :
    let out = handle_lock_project_state quiet "p-1" start in
    (out.1.db ≡ tables)
    × (((any (is_active "p-1") tables.jobs ≡ false) × (out.0 ≡ ok (plain 200)))
        ⊎ ((job : Job) × IsFound (is_active "p-1") tables job
            × (out.0 ≡ ok (record { code = 423; body = locked "Project is locked" job.id }))))
lock-cases_example =
    lock-cases quiet quiet-IsScan start refl (refl, (refl, (refl, (refl, (refl, tt)))))
      tables-IsWellFormed "p-1"

lock_while_running_example :
    (id : String) × ((handle_lock_project_state quiet "p-2" start).0
      ≡ ok (record { code = 423; body = locked "Project is locked" id }))
lock_while_running_example =
    lock_while_running quiet quiet-IsScan start refl (refl, (refl, (refl, (refl, (refl, tt)))))
      tables-IsWellFormed running_row (Memᴰ.tail (Memᴰ.tail (Memᴰ.head refl))) refl

abbrev trim : String → String
trim s = s

abbrev greet : Identity → M Reply
greet i = pure (answer_text 200 i.user_id)

abbrev credentials : Option (String × String)
credentials = some ("u-2", "o-1")

middleware-cases_example :
    let out = middleware quiet trim "token" greet credentials start in
    ((credentials ≡ none)
      × (out ≡ (ok (answer_text 401 "Unauthorized: missing basic auth"), start)))
    ⊎ ((user : String) × (password : String) × (credentials ≡ some (user, password))
        × Judged quiet trim "token" greet start
            (identity quiet trim "token" greet start user password)
            out)
middleware-cases_example = middleware-cases quiet trim "token" greet start credentials refl

quiet-IsCalm : IsCalm quiet
quiet-IsCalm = record { answered = λ t. refl; alone = λ t b. refl; whole = λ t. refl }

state_round_trip_example :
    let posted = handle_post_project_state quiet "p-1" (123 ∷ 125 ∷ []) start in
    (posted.0 ≡ ok (plain 200))
    × ((handle_get_project_state quiet "p-1" posted.1).0
        ≡ ok (record { code = 200; body = stream (123 ∷ 125 ∷ []) }))
state_round_trip_example = state_round_trip quiet quiet-IsCalm "p-1" (123 ∷ 125 ∷ []) start [] refl

unlock-cases_example :
    let out = handle_unlock_project_state quiet "p-1" (some "job-1") "" start in
    ((any (is_active "p-1") tables.jobs ≡ false) × (out.0 ≡ ok (plain 200)) × (out.1.db ≡ tables))
    ⊎ ((job : Job) × IsFound (is_active "p-1") tables job
        × (((job.id == "job-1" ≡ true)
              × (out.0 ≡ ok (plain 200))
              × (out.1.db ≡ with_status quiet job.id cancelled 1 tables))
            ⊎ ((job.id == "job-1" ≡ false)
                × (out.0
                    ≡ ok (
                        failure 500
                          ("lock ID mismatch: expected " <> (job.id <> (", got " <> "job-1")))))
                × (out.1.db ≡ tables))))
unlock-cases_example =
    unlock-cases quiet quiet-IsScan start refl refl (refl, (refl, (refl, (refl, (refl, tt))))) refl
      tables-IsWellFormed "p-1" "job-1" ""

pattern_of_unique_example : Table.get_job ≡ Table.get_job
unfolding Table.pattern_of
pattern_of_unique_example =
    pattern_of_unique Table.get_job Table.get_job ("jobs" ∷ "job-1" ∷ []) refl (same (given ended))
      (same (given ended))
