-- ===== src/Tests/Planning.antt =====
-- The theorems on the making of a plan, with tools that succeed, and on claims one after another.
use openenvx_cloud.Storage.{get_object}
use mathlib.Core.List.{Memᴰ}
use openenvx_cloud.Prelude.{
  ◌≡◌, ◌≢◌, refl, sym, subst, String, [], ◌∷◌, some, length, any, true, false, filter,
}
use openenvx_cloud.Models.{approved, pending_plan, planning, applying, JobRow, Job}
use openenvx_cloud.World.{Error, ok, err, Db, World}
use openenvx_cloud.Db.Rows.{lookup, count_where, with_labels, head?, order_by, update_where}
use openenvx_cloud.Db.Queue.{claim_in}
use openenvx_cloud.Db.Claiming.{IsClear, is_known, claims, waiting, claims_lem, claim_in-once}
use openenvx_cloud.Daemon.Worker.{claimed_statuses, process_job}
use openenvx_cloud.Daemon.Handlers.{handle_apply, handle_destroy}
use openenvx_cloud.Daemon.Planning.{IsWorking, Ready, Finished}
use openenvx_cloud.Daemon.Planning.Completion.{handle_destroy-Finished}
use openenvx_cloud.Daemon.Execute.{execute_job}
use openenvx_cloud.Daemon.Planning.Preparing.{IsEquipped, Claimed}
use openenvx_cloud.Daemon.Planning.Execution.{execute_job-Finished}
use openenvx_cloud.Daemon.Applying.{Untouched, handle_apply-without_plan}
use openenvx_cloud.Daemon.Planning.Processing.{StaysPlanned, process_job-StaysPlanned}
use openenvx_cloud.Tests.{
  quiet, quiet-IsScan, tools, start, tables, tables-IsWellFormed, running_row, running_job, row,
}

working : IsWorking quiet tools
working = record {
  scans = quiet-IsScan;
  answered = λ t. refl;
  alone = λ t d. refl;
  own_bucket = λ t b. refl;
  labelled = refl;
  files = λ t. refl;
  starts = λ t h dir. refl;
  exits = λ t h dir. refl;
  scanned = λ t h dir. refl;
  stays = λ t h fs. (fs, refl);
  plans = λ t d dir. refl;
  plan_files = λ t d dir. (7 ∷ [], refl);
  shows = λ t dir. refl;
}

abbrev in_dir : World
in_dir = record start { work_dir = some [] }

in_dir-Ready : Ready running_row in_dir
in_dir-Ready = record {
  well_formed = tables-IsWellFormed;
  listed = Memᴰ.tail (Memᴰ.tail (Memᴰ.head refl));
  bucket = ([], refl);
  dir = ([], refl);
}

handle_destroy-Finished_example :
    let out = handle_destroy quiet tools running_job in_dir in
    (out.0 ≡ ok tt) × Finished tools true running_row out.1
handle_destroy-Finished_example =
    handle_destroy-Finished quiet tools working running_job in_dir in_dir-Ready

equipped : IsEquipped tools
equipped = record {
  listed = λ t p e s. ([], refl);
  installed = λ t e. refl;
  encoded = λ f. ("null", refl);
  inits = λ t dir. refl;
  published = λ t. refl;
}

start-Claimed : Claimed running_row start
start-Claimed = record {
  well_formed = tables-IsWellFormed;
  listed = Memᴰ.tail (Memᴰ.tail (Memᴰ.head refl));
  bucket = ([], refl);
}

execute_job-Finished_example :
    let out = execute_job quiet tools "http://localhost:8080" "secret" running_job start in
    (out.0 ≡ ok tt) × Finished tools false running_row out.1
execute_job-Finished_example =
    execute_job-Finished quiet tools working equipped "http://localhost:8080" "secret" running_job
      start refl (λ h m t dir. refl) start-Claimed

process_job-StaysPlanned_example :
    StaysPlanned "job-3"
      (process_job quiet tools "http://localhost:8080" "secret" running_job start).1.db
process_job-StaysPlanned_example =
    process_job-StaysPlanned quiet tools working equipped "http://localhost:8080" "secret"
      running_job start refl (λ h m t dir. refl) start-Claimed

handle_apply-without_plan_example :
    let out = handle_apply quiet tools running_job in_dir in
    ((e : Error) × (out.0 ≡ err e)) × Untouched quiet in_dir out.1
unfolding get_object
handle_apply-without_plan_example = handle_apply-without_plan quiet tools running_job in_dir refl

abbrev first_row : JobRow
first_row = row "job-4" "p-1" pending_plan "plan" 5

abbrev second_row : JobRow
second_row = row "job-5" "p-2" approved "apply" 6

abbrev queue : Db
queue = record tables { jobs = first_row ∷ second_row ∷ [] }

queue-IsClear : IsClear queue
unfolding any lookup
queue-IsClear = record {
  well_formed = record { nodup = (refl, (refl, tt)); owned = owned };
  known = known;
}
  where
    owned :
        (r : JobRow)
        → Memᴰ r queue.jobs
        → (org : String) × (lookup r.project_id queue.projects ≡ some org)
    owned r (Memᴰ.head q) = (
      "o-1",
      subst (λ (x : JobRow). lookup x.project_id queue.projects ≡ some "o-1") (sym q) refl,
    )
    owned r (Memᴰ.tail (Memᴰ.head q)) = (
      "o-1",
      subst (λ (x : JobRow). lookup x.project_id queue.projects ≡ some "o-1") (sym q) refl,
    )
    owned r (Memᴰ.tail (Memᴰ.tail m)) = elim m [ ]

    known : (r : JobRow) → Memᴰ r queue.jobs → is_known r.operation ≡ true
    known r (Memᴰ.head q) = subst (λ (x : JobRow). is_known x.operation ≡ true) (sym q) refl
    known r (Memᴰ.tail (Memᴰ.head q)) =
        subst (λ (x : JobRow). is_known x.operation ≡ true) (sym q) refl
    known r (Memᴰ.tail (Memᴰ.tail m)) = elim m [ ]

waiting-queue : waiting queue ≡ 2
unfolding count_where
waiting-queue = refl

claims_lem_example : let out = claims quiet 2 5 queue in (length out.0 ≡ 2) × (waiting out.1 ≡ 0)
claims_lem_example =
    claims_lem quiet quiet-IsScan (λ t id. refl) (refl, (refl, tt)) (refl, (refl, (refl, tt))) 2 5
      queue queue-IsClear waiting-queue

abbrev claimed_job : Job
claimed_job = record {
  row = record first_row { status = planning; updated_at = 5 };
  organization_id = "o-1";
}

abbrev next_job : Job
next_job = record {
  row = record second_row { status = applying; updated_at = 6 };
  organization_id = "o-1";
}

first_claim : (claim_in quiet claimed_statuses 5 queue).0 ≡ ok claimed_job
unfolding claim_in with_labels head? order_by filter lookup
first_claim = refl

second_claim :
    (claim_in quiet claimed_statuses 6 (claim_in quiet claimed_statuses 5 queue).1).0 ≡ ok next_job
unfolding claim_in with_labels head? order_by filter lookup update_where
second_claim = refl

claim_in-once_example : next_job.id ≢ claimed_job.id
claim_in-once_example =
    claim_in-once quiet quiet-IsScan (λ t id. refl) (refl, (refl, tt)) (refl, (refl, (refl, tt))) 5
      6 queue claimed_job next_job queue-IsClear first_claim second_claim
