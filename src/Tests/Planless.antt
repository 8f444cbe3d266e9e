-- ===== src/Tests/Planless.antt =====
-- The theorem on applies, on a job that a worker claims, and that fails.
use openenvx_cloud.Db.Jobs.{update_job_status}
use openenvx_cloud.Daemon.Handlers.{handle_apply}
use openenvx_cloud.Daemon.Execute.{execute_job}
use openenvx_cloud.Db.Rows.{with_labels, head?, order_by, update_where}
use openenvx_cloud.Db.Queue.{claim_next_job, promote_next_job}
use openenvx_cloud.Daemon.Worker.{worker_tick}
use mathlib.Core.List.{Memᴰ}
use openenvx_cloud.Prelude.{
  ◌≡◌, ◌≢◌, refl, sym, ap, subst, ◌∙◌, ◌⊎◌, inl, inr, arith, eq_iff, ◌==◌, Bool-cases, String, [],
  ◌∷◌, some, any, filter,
}
use openenvx_cloud.Models.{applied, pending_plan, failed, JobRow}
use openenvx_cloud.World.{
  World, ◌>>=◌, attempt, transaction, fresh_log, look, rewrap, object_call, host_call, statement,
}
use openenvx_cloud.Db.Rows.{lookup}
use openenvx_cloud.Storage.{get_object, ensure_bucket, download}
use openenvx_cloud.Terraform.{Host, new_runner, write_backend_config, init}
use openenvx_cloud.Lifecycle.Rows.{IsLawful, Holds}
use openenvx_cloud.Lifecycle.Statements.{resting-IsLawful}
use openenvx_cloud.Lifecycle.Stuck.{IsStuck, IsOther, LeavesStuck}
use openenvx_cloud.Lifecycle.Names.{plan_object-inj}
use openenvx_cloud.Daemon.Handlers.{plan_object}
use openenvx_cloud.Daemon.Applying.{IsMissing}
use openenvx_cloud.Lifecycle.System.{works, run, Nothing}
use openenvx_cloud.Lifecycle.Planless.{run-never_applied}
use openenvx_cloud.Tests.{quiet, quiet-IsScan, quiet-OthersHold, tools, start, row, planned_row}

abbrev apply_row : JobRow
apply_row = row "job-2" "p-1" pending_plan "apply" 4

-- One apply that waits for a worker, and the job before it with its plan in the storage.
abbrev waiting : World
waiting = record start {
  db = record { jobs = apply_row ∷ planned_row ∷ []; projects = ("p-1", "o-1") ∷ []; members = [] };
  bucket = some (
      (
        "jobs/job-1/tfplan",
        record { content = 7 ∷ []; content_type = "application/octet-stream"; modified = 0 },
      )
      ∷ []);
}

quiet-LeavesStuck : (k : String) → LeavesStuck quiet k
quiet-LeavesStuck k = record { tables = λ b t d h. h; bucket = λ t d b h. h }

waiting-Holds : Holds Nothing waiting.db
unfolding any lookup
waiting-Holds = record {
  well_formed = record { nodup = (refl, (refl, tt)); owned = owned };
  lawful = lawful;
  known = λ r m op w. elim w [ ];
  present = λ id op w. elim w [ ];
}
  where
    project :
        (x y : JobRow)
        → x ≡ y
        → (lookup y.project_id waiting.db.projects ≡ some "o-1")
        → (org : String) × (lookup x.project_id waiting.db.projects ≡ some org)
    project x y q e = (
      "o-1",
      subst (λ (z : JobRow). lookup z.project_id waiting.db.projects ≡ some "o-1") (sym q) e,
    )

    owned :
        (r : JobRow)
        → Memᴰ r waiting.db.jobs
        → (org : String) × (lookup r.project_id waiting.db.projects ≡ some org)
    owned r (Memᴰ.head q) = project r apply_row q refl
    owned r (Memᴰ.tail (Memᴰ.head q)) = project r planned_row q refl
    owned r (Memᴰ.tail (Memᴰ.tail m)) = elim m [ ]

    lawful : (r : JobRow) → Memᴰ r waiting.db.jobs → IsLawful r
    lawful r (Memᴰ.head q) = subst IsLawful (sym q) (resting-IsLawful apply_row refl)
    lawful r (Memᴰ.tail (Memᴰ.head q)) = subst IsLawful (sym q) (resting-IsLawful planned_row refl)
    lawful r (Memᴰ.tail (Memᴰ.tail m)) = elim m [ ]

-- The plan that is there is that of the planned job.
planned-IsOther : IsOther "job-1" waiting.db
unfolding any
planned-IsOther = record { present = refl; operation = operation }
  where
    operation : (r : JobRow) → Memᴰ r waiting.db.jobs → r.id ≡ "job-1" → r.operation ≢ "apply"
    operation r (Memᴰ.head q) i o =
        let clash : apply_row.id ≡ "job-1" = sym (ap (λ (y : JobRow). y.id) q) ∙ i in
        absurd (ground (arith, eq_iff "job-2" "job-1", clash))
    operation r (Memᴰ.tail (Memᴰ.head q)) i o =
        let clash : planned_row.operation ≡ "apply" =
          sym (ap (λ (y : JobRow). y.operation) q) ∙ o in
        absurd (ground (arith, eq_iff "plan" "apply", clash))
    operation r (Memᴰ.tail (Memᴰ.tail m)) i o = elim m [ ]

waiting-IsStuck : (k : String) → IsStuck k waiting.db waiting.bucket
unfolding get_object
waiting-IsStuck k = record { unapplied = unapplied; planless = planless }
  where
    unapplied : (r : JobRow) → Memᴰ r waiting.db.jobs → r.id ≡ k → r.status ≢ applied
    unapplied r (Memᴰ.head q) i a = cc
    unapplied r (Memᴰ.tail (Memᴰ.head q)) i a = cc
    unapplied r (Memᴰ.tail (Memᴰ.tail m)) i a = elim m [ ]

    planless : IsMissing (plan_object k) waiting.bucket ⊎ IsOther k waiting.db
    planless = elim (Bool-cases (plan_object "job-1" == plan_object k)) [
      | inl e ↦ inr (
          subst (λ j. IsOther j waiting.db)
            (plan_object-inj "job-1" k ((eq_iff (plan_object "job-1") (plan_object k)).0 e))
            planned-IsOther)
      | inr e ↦ inl (rw e refl)
    ]

-- A worker claims the apply, which finds no plan under its own name.
-- Terraform writes nothing.
abbrev silent : Host
silent = record tools { init = λ t d. record (tools.init t d) { written = [] } }

abbrev after : World
after = run quiet silent (λ s. s) "url" "token" (works ∷ []) waiting

abbrev failed_row : JobRow
failed_row = record apply_row { status = failed; updated_at = 13 }

failed_row-listed : Memᴰ failed_row after.db.jobs
unfolding run worker_tick ◌>>=◌ attempt claim_next_job transaction with_labels head? order_by filter
    lookup promote_next_job fresh_log look execute_job rewrap ensure_bucket object_call host_call
    new_runner write_backend_config init handle_apply download update_job_status statement
    update_where
failed_row-listed = Memᴰ.head refl

run-never_applied_example : failed_row.status ≢ applied
run-never_applied_example =
    run-never_applied quiet quiet-IsScan quiet-OthersHold silent (λ s. s) "url" "token"
      quiet-LeavesStuck (works ∷ []) waiting waiting-Holds waiting-IsStuck failed_row
      failed_row-listed
