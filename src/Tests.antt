-- ===== src/Tests.antt =====
-- A small orchestrator on which the theorems are applied: two projects, three jobs, a database and a
-- storage that answer, and tools that succeed.
mod Secrets
mod Planning
mod Stream
mod Pool
mod Ending
mod Retrying
mod Start
mod Final
mod Planless
mod System
mod Queue
mod Requests
mod Workers
mod Hooks
mod Logs
use mathlib.Core.List.Permᴰ
use mathlib.Core.List.{Memᴰ, Permᴰ}
use openenvx_cloud.Prelude.{
  length, ◌≡◌, refl, sym, subst, String, true, false, [], ◌∷◌, none, some, any, ℕ,
}
use openenvx_cloud.Models.{
  JobStatus, planned, queued, planning, pending_plan, empty, JobRow, Job, Bytes,
}
use openenvx_cloud.World.{ok, Db, World, Env, up, File, binary}
use openenvx_cloud.Db.Rows.{lookup}
use openenvx_cloud.Db.Claims.{IsScan}
use openenvx_cloud.Db.Updates.{IsWellFormed, NodupIds}
use openenvx_cloud.Terraform.{Host, ToolRun, HookRun, clean}
use openenvx_cloud.Lifecycle.Rows.{IsLawful, Holds}
use openenvx_cloud.Lifecycle.System.{Nothing, OthersHold}

abbrev pub quiet : Env
quiet = record {
  now = λ t. t;
  new_id = λ t. "job-9";
  has_label = λ s. true;
  takes_nil = true;
  scan = λ t rows. rows;
  locked = λ t id. false;
  link = λ t. up;
  others = λ t d. d;
  others_bucket = λ t b. b;
  head = λ t o. record {
    content_length = some (length o.content);
    last_modified = some o.modified;
    content_type = some o.content_type;
  };
  torn = λ t. none;
  recreates = λ t. false;
}

pub quiet-IsScan : IsScan quiet
quiet-IsScan = record { perm = λ t rows. Permᴰ.refl rows }

pub quiet-OthersHold : OthersHold quiet
quiet-OthersHold W t d h = h

abbrev pub row : String → String → JobStatus → String → ℕ → JobRow
row id project_id status operation created = record {
  id = id;
  project_id = project_id;
  status = status;
  operation = operation;
  module_name = "network";
  variables = empty;
  plan_output_path = none;
  plan_summary = none;
  pre_plan = [];
  post_plan = [];
  pre_apply = [];
  post_apply = [];
  pre_destroy = [];
  created_at = created;
  updated_at = created;
}

abbrev pub planned_row : JobRow
planned_row = row "job-1" "p-1" planned "plan" 3

abbrev pub waiting_row : JobRow
waiting_row = row "job-2" "p-1" queued "apply" 4

abbrev pub running_row : JobRow
running_row = row "job-3" "p-2" planning "plan" 1

abbrev pub tables : Db
tables = record {
  jobs = planned_row ∷ waiting_row ∷ running_row ∷ [];
  projects = ("p-1", "o-1") ∷ ("p-2", "o-1") ∷ [];
  members = ("u-1", "o-1") ∷ [];
}

abbrev pub start : World
start = record {
  db = tables;
  bucket = some [];
  work_dir = none;
  published = [];
  log = [];
  tick = 0;
}

-- A table with the job that a worker is to plan.
abbrev pub running_job : Job
running_job = record { row = running_row; organization_id = "o-1" }

abbrev done : Bytes → ToolRun
done out = record {
  written = out;
  stdout = out;
  stderr = [];
  plan_file = some (7 ∷ []);
  failure = none;
}

abbrev pub tools : Host
tools = record {
  os = λ t. none;
  list_secrets = λ t p e s. ok [];
  marshal = λ f. ok "null";
  setup = λ t e. none;
  init = λ t d. done (1 ∷ []);
  plan = λ t b d. done (2 ∷ []);
  apply = λ t d. done (3 ∷ []);
  destroy = λ t d. done (5 ∷ []);
  show = λ t d. done (4 ∷ []);
  show_result = λ t d. [];
  hook = λ t l dir. record {
    unstarted = none;
    lines = [];
    failure = none;
    scan_end = clean;
    left = dir;
  };
  removed = λ t dir. none;
  cancelled = λ t. false;
  reader = λ t. none;
}

tables_owned :
    (r : JobRow)
    → Memᴰ r tables.jobs
    → (org : String) × (lookup r.project_id tables.projects ≡ some org)
unfolding lookup
tables_owned r (Memᴰ.head q) =
    ("o-1", subst (λ (x : JobRow). lookup x.project_id tables.projects ≡ some "o-1") (sym q) refl)
tables_owned r (Memᴰ.tail (Memᴰ.head q)) =
    ("o-1", subst (λ (x : JobRow). lookup x.project_id tables.projects ≡ some "o-1") (sym q) refl)
tables_owned r (Memᴰ.tail (Memᴰ.tail (Memᴰ.head q))) =
    ("o-1", subst (λ (x : JobRow). lookup x.project_id tables.projects ≡ some "o-1") (sym q) refl)
tables_owned r (Memᴰ.tail (Memᴰ.tail (Memᴰ.tail m))) = elim m [ ]

pub tables-IsWellFormed : IsWellFormed tables
unfolding any
tables-IsWellFormed = record { nodup = (refl, (refl, (refl, tt))); owned = tables_owned }

tables-IsLawful : (r : JobRow) → Memᴰ r tables.jobs → IsLawful r
tables-IsLawful r (Memᴰ.head q) = subst IsLawful (sym q) (record {
  not_destroyed = λ e. cc;
  planning_plans = λ e. cc;
  applying_applies = λ e. cc;
  applied_applies = λ e. cc;
  destroying_destroys = λ e. cc;
})
tables-IsLawful r (Memᴰ.tail (Memᴰ.head q)) = subst IsLawful (sym q) (record {
  not_destroyed = λ e. cc;
  planning_plans = λ e. cc;
  applying_applies = λ e. cc;
  applied_applies = λ e. cc;
  destroying_destroys = λ e. cc;
})
tables-IsLawful r (Memᴰ.tail (Memᴰ.tail (Memᴰ.head q))) = subst IsLawful (sym q) (record {
  not_destroyed = λ e. cc;
  planning_plans = λ e. refl;
  applying_applies = λ e. cc;
  applied_applies = λ e. cc;
  destroying_destroys = λ e. cc;
})
tables-IsLawful r (Memᴰ.tail (Memᴰ.tail (Memᴰ.tail m))) = elim m [ ]

pub tables-Holds : Holds Nothing tables
tables-Holds = record {
  well_formed = tables-IsWellFormed;
  lawful = tables-IsLawful;
  known = λ r m op w. elim w [ ];
  present = λ id op w. elim w [ ];
}
