-- ===== src/Models.antt =====
-- internal/models/job.go: the statuses and the job, and the row of the table `jobs` (the schema of
-- packages/db/src/schema/jobs.ts) that a job is read from. Texts that the program only compares are
-- `String`; texts that it cuts up or concatenates as bytes are lists of bytes.
use openenvx_cloud.Prelude.{ℕ, String, Bool, false, List, [], ◌∷◌, ◌||◌, Option, nat_eq}

pub data JobStatus : Type 0 where
  pending_plan planning planned approved queued applying applied destroying : JobStatus
  destroyed failed cancelled : JobStatus

-- The place of a status in the `const` block, by which two are compared.
abbrev pub position : JobStatus → ℕ
position pending_plan = 0
position planning = 1
position planned = 2
position approved = 3
position queued = 4
position applying = 5
position applied = 6
position destroying = 7
position destroyed = 8
position failed = 9
position cancelled = 10

abbrev pub status_eq : JobStatus → JobStatus → Bool
status_eq a b = nat_eq (position a) (position b)

-- `status = ANY(statuses)`, `status IN (statuses)`.
abbrev pub status_in : JobStatus → List JobStatus → Bool
status_in s [] = false
status_in s (x ∷ xs) = status_eq s x || status_in s xs

abbrev pub Bytes : Type 0
Bytes = List ℕ

-- A value of `map[string]interface{}`, as JSON gives it; a number keeps its text.
mutual
  pub data Json : Type 0 where
    null : Json
    boolean : Bool → Json
    number : String → Json
    text : String → Json
    array : Items → Json
    object : Fields → Json

  pub data Items : Type 0 where
    end : Items
    item : Json → Items → Items

  pub data Fields : Type 0 where
    empty : Fields
    field : String → Json → Fields → Fields

pub record JobRow : Type 0 where
  pub id : String
  pub project_id : String
  pub status : JobStatus
  pub operation : String
  pub module_name : String
  pub variables : Fields
  pub plan_output_path : Option String
  pub plan_summary : Option Bytes
  pub pre_plan : List Bytes
  pub post_plan : List Bytes
  pub pre_apply : List Bytes
  pub post_apply : List Bytes
  pub pre_destroy : List Bytes
  pub created_at : ℕ
  pub updated_at : ℕ

-- A row joined with the organization of its project.
pub record Job : Type 0 where
  pub row : JobRow
  pub open row use *
  pub organization_id : String
