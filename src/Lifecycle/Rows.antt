-- ===== src/Lifecycle/Rows.antt =====
-- The invariant of the tables, and the changes of rows that keep it.
use mathlib.Core.List.{Memᴰ}
use openenvx_cloud.Prelude.{
  ◌≡◌, sym, ap, subst, ◌∙◌, ◌≢◌, inl, inr, String, Bool, true, false, [], ◌∷◌, ◌++◌, any, arith,
  Bool-cases, if◌then◌else◌, ◌==◌, ◌||◌, some, ◌||◌, some,
}
use openenvx_cloud.Models.{planning, applying, applied, destroying, destroyed, JobRow}
use openenvx_cloud.World.{Db}
use openenvx_cloud.Db.Rows.{update_where, has_id, lookup}
use openenvx_cloud.Db.Updates.{
  IsWellFormed, mem-update_where, any-update_where, any-append, mem-append-one, append-NodupIds,
  update_where-IsWellFormed,
}

-- No job is DESTROYED; a job that is PLANNING, APPLYING or APPLIED, DESTROYING has the operation that
-- goes by that name.
pub record IsLawful (r : JobRow) : Type 0 where
  pub not_destroyed : r.status ≢ destroyed
  pub planning_plans : r.status ≡ planning → r.operation ≡ "plan"
  pub applying_applies : r.status ≡ applying → r.operation ≡ "apply"
  pub applied_applies : r.status ≡ applied → r.operation ≡ "apply"
  pub destroying_destroys : r.status ≡ destroying → r.operation ≡ "destroy"

-- What somebody relies on: `W id op` says that the job `id` is there with the operation `op`.
abbrev pub Watch : Type 1
Watch = String → String → Type 0

pub record Holds (W : Watch) (d : Db) : Type 0 where
  pub well_formed : IsWellFormed d
  pub lawful : (r : JobRow) → Memᴰ r d.jobs → IsLawful r
  pub known : (r : JobRow) → Memᴰ r d.jobs → (op : String) → W r.id op → r.operation ≡ op
  pub present : (id op : String) → W id op → any (has_id id) d.jobs ≡ true

pub record SameJob (f : JobRow → JobRow) : Type 0 where
  pub id : (r : JobRow) → (f r).id ≡ r.id
  pub project_id : (r : JobRow) → (f r).project_id ≡ r.project_id
  pub operation : (r : JobRow) → (f r).operation ≡ r.operation

module _ (p : JobRow → Bool) (f : JobRow → JobRow) (same : SameJob f) where
  pub same_if :
      (r : JobRow)
      → ((if p r then f r else r).id ≡ r.id) × ((if p r then f r else r).operation ≡ r.operation)
  same_if r = ground (arith, same.id r, same.operation r)

module _ (W : Watch) (p : JobRow → Bool) (f : JobRow → JobRow) (same : SameJob f) where
  -- An UPDATE keeps the invariant if it keeps each row that it changes lawful.
  pub update_where-Holds :
      (d : Db)
      → ((r : JobRow) → Memᴰ r d.jobs → p r ≡ true → IsLawful r → IsLawful (f r))
      → Holds W d
      → Holds W (record d { jobs = update_where p f d.jobs })
  update_where-Holds d keep h = record {
    well_formed =
        update_where-IsWellFormed p f d (λ r. (same.id r, same.project_id r)) h.well_formed;
    lawful = λ x m.
        let (r, n, e) = mem-update_where p f x d.jobs m in subst IsLawful (sym e) (changed r n);
    known = λ x m op w.
        let (r, n, e) = mem-update_where p f x d.jobs m in
        ap (λ (y : JobRow). y.operation) e
        ∙ (same_if p f same r).1
        ∙ h.known r n op
            (subst (λ id. W id op) (ap (λ (y : JobRow). y.id) e ∙ (same_if p f same r).0) w);
    present = λ id op w.
        any-update_where p f (has_id id) (λ r. ap (λ i. i == id) (same.id r)) d.jobs
        ∙ h.present id op w;
  }
    where
      changed : (r : JobRow) → Memᴰ r d.jobs → IsLawful (if p r then f r else r)
      changed r n = elim (Bool-cases (p r)) [
        | inl e ↦ rw e (keep r n e (h.lawful r n))
        | inr e ↦ rw e (h.lawful r n)
      ]

-- An INSERT of a lawful row under a new id, into a project that is there, keeps the invariant.
pub append-Holds :
    (W : Watch) (r : JobRow) (org : String) (d : Db)
    → any (has_id r.id) d.jobs ≡ false
    → lookup r.project_id d.projects ≡ some org
    → IsLawful r
    → Holds W d
    → Holds W (record d { jobs = d.jobs ++ r ∷ [] })
append-Holds W r org d fresh o l h = record {
  well_formed = record {
    nodup = append-NodupIds d.jobs r fresh h.well_formed.nodup;
    owned = λ x m. elim (mem-append-one d.jobs r m) [
      | inl n ↦ h.well_formed.owned x n
      | inr e ↦ (org, ap (λ (y : JobRow). lookup y.project_id d.projects) e ∙ o)
    ];
  };
  lawful = λ x m. elim (mem-append-one d.jobs r m) [
    | inl n ↦ h.lawful x n
    | inr e ↦ subst IsLawful (sym e) l
  ];
  known = λ x m op w. elim (mem-append-one d.jobs r m) [
    | inl n ↦ h.known x n op w
    | inr e ↦
        let there : any (has_id r.id) d.jobs ≡ true =
          h.present r.id op (subst (λ (y : JobRow). W y.id op) e w) in
        cc
  ];
  present = λ id op w. any-append (has_id id) d.jobs r ∙ grown id (h.present id op w);
}
  where
    grown :
        (id : String)
        → any (has_id id) d.jobs ≡ true
        → (any (has_id id) d.jobs || has_id id r) ≡ true
    grown id e = rw e
