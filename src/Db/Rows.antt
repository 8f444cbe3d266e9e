-- ===== src/Db/Rows.antt =====
-- What the SQL texts of internal/db are made of: WHERE, JOIN, ORDER BY, LIMIT 1 and UPDATE over the
-- rows of `jobs`, and PostgreSQL's refusal of a text that is no value of the type `job_status`.
use Prim.Native.String.{compare}
use text.Mathlib.Text.{is_le}
use openenvx_cloud.Prelude.{
  ℕ, String, Bool, List, [], ◌∷◌, Option, none, some, map, ◌==◌, ◌||◌, ◌&&◌, ltb, leb, nat_eq,
  if◌then◌else◌, suc,
}
unfoldable pub use openenvx_cloud.Maps.{lookup}
use openenvx_cloud.Models.{JobStatus, JobRow, Job}
use openenvx_cloud.World.{Result, ok, err, fault, no_rows, Db, Env}

-- JOIN projects p ON j.project_id = p.id, with p.organization_id.
unfoldable pub join_cons : JobRow → Option String → List Job → List Job
join_cons r none js = js
join_cons r (some org) js = record { row = r; organization_id = org } ∷ js

unfoldable pub join : List (String × String) → List JobRow → List Job
unfolding join_cons lookup
join projects [] = []
join projects (r ∷ rs) = join_cons r (lookup r.project_id projects) (join projects rs)

unfoldable pub head? {ℓ} : {A : Type ℓ} → List A → Option A
head? [] = none
head? (x ∷ xs) = some x

module _ (before : JobRow → JobRow → Bool) where
  unfoldable pub insert : JobRow → List JobRow → List JobRow
  insert r [] = r ∷ []
  insert r (s ∷ ss) = if before r s then r ∷ s ∷ ss else s ∷ insert r ss

  -- ORDER BY, rows that compare alike in the order in which they were met.
  unfoldable pub order_by : List JobRow → List JobRow
  unfolding insert
  order_by [] = []
  order_by (r ∷ rs) = insert r (order_by rs)

-- created_at ASC
abbrev pub by_created_at : JobRow → JobRow → Bool
by_created_at r s = leb r.created_at s.created_at

abbrev str_leb : String → String → Bool
str_leb a b = is_le (compare a b)

-- created_at ASC, id ASC
abbrev pub by_created_at_and_id : JobRow → JobRow → Bool
by_created_at_and_id r s =
    ltb r.created_at s.created_at || (nat_eq r.created_at s.created_at && str_leb r.id s.id)

-- UPDATE jobs SET f WHERE p.
unfoldable pub update_where : (JobRow → Bool) → (JobRow → JobRow) → List JobRow → List JobRow
update_where p f = map (λ r. if p r then f r else r)

unfoldable pub count_where : (JobRow → Bool) → List JobRow → ℕ
count_where p [] = 0
count_where p (r ∷ rs) = let n = count_where p rs in if p r then suc n else n

abbrev pub has_id : String → JobRow → Bool
has_id id r = r.id == id

-- A statement that is sent these texts as values of `job_status` fails where one is none.
unfoldable pub with_labels {ℓ} :
    {A : Type ℓ} → Env → List JobStatus → Db → Result A × Db → Result A × Db
with_labels env [] d r = r
with_labels env (s ∷ ss) d r =
    if env.has_label s
    then with_labels env ss d r
    else (err (fault "invalid input value for enum job_status"), d)

-- `QueryRow(...).Scan(...)`
unfoldable pub scan_row {ℓ} : {A : Type ℓ} → Option A → Result A
scan_row none = err no_rows
scan_row (some a) = ok a
