-- ===== src/Db/Lookup.antt =====
-- What GetJob, GetActiveJobForProject and IsProjectActive answer, in terms of the rows of the table.
use mathlib.Core.List.{Memᴰ, Permᴰ}
use openenvx_cloud.Prelude.{
  ℕ, ◌≡◌, refl, sym, ap, subst, ◌∙◌, ◌⊎◌, inl, inr, String, Bool, true, false, List, [], ◌∷◌, none,
  some, arith, any, filter, Bool-cases, eq_iff,
}
use openenvx_cloud.Models.{JobRow, Job}
use openenvx_cloud.World.{ok, err, no_rows, Db, Env}
use openenvx_cloud.Db.Rows.{lookup, join, join_cons, head?, has_id, scan_row}
use openenvx_cloud.Db.Selection.{mem-filter, filter-mem, mem-perm, perm_symm}
use openenvx_cloud.Db.Updates.{IsWellFormed, any-false, any-mem, any-true, NodupIds-unique}
use openenvx_cloud.Db.Claims.{IsScan, HasLabels, with_labels_lem}
use openenvx_cloud.Db.Jobs.{select_by_id, select_active, is_active, active_statuses}

-- A job that a query with JOIN finds: a row that passes, with the organization of its project.
pub record IsFound (p : JobRow → Bool) (d : Db) (job : Job) : Type 0 where
  pub passes : p job.row ≡ true
  pub listed : Memᴰ job.row d.jobs
  pub joined : lookup job.project_id d.projects ≡ some job.organization_id

module _ (p : JobRow → Bool) (d : Db) (met : List JobRow) (perm : Permᴰ met d.jobs)
    (wf : IsWellFormed d) where
  -- LIMIT 1 finds a job exactly if a row passes.
  first_joined :
      (rows : List JobRow)
      → rows ≡ filter p met
      → ((any p d.jobs ≡ false) × (head? (join d.projects rows) ≡ none))
        ⊎ ((job : Job) × IsFound p d job
            × (any p d.jobs ≡ true)
            × (head? (join d.projects rows) ≡ some job))
  unfolding join head?
  first_joined [] e = inl (none_passes, refl)
    where
      none_passes : any p d.jobs ≡ false
      none_passes = elim (Bool-cases (any p d.jobs)) [
        | inl h ↦
            let (r, m, k) = any-mem p d.jobs h in
            let n : Memᴰ r [] =
              subst (Memᴰ r) (sym e) (filter-mem p r met k (mem-perm (perm_symm perm) m)) in
            elim n [ ]
        | inr h ↦ h
      ]
  first_joined (r ∷ rows) e =
      let (h, m) = mem-filter p r met (subst (Memᴰ r) e (Memᴰ.head refl)) in
      let n = mem-perm perm m in
      let (org, o) = wf.owned r n in
      inr (
        record { row = r; organization_id = org },
        record { passes = h; listed = n; joined = o },
        any-true p d.jobs n h,
        rw (o, join_cons) refl,
      )

module _ (env : Env) (scans : IsScan env) (t : ℕ) (d : Db) (wf : IsWellFormed d) where
  -- GetJob finds the job with the id, or reports `ErrNoRows` where there is none.
  pub select_by_id-cases :
      (id : String)
      → ((any (has_id id) d.jobs ≡ false) × (select_by_id env id t d ≡ (err no_rows, d)))
        ⊎ ((job : Job) × IsFound (has_id id) d job × (select_by_id env id t d ≡ (ok job, d)))
  unfolding select_by_id scan_row
  select_by_id-cases id =
      elim (first_joined (has_id id) d (env.scan t d.jobs) (scans.perm t d.jobs) wf _ refl) [
        | inl (h, e) ↦ inl (h, rw (e, scan_row) refl)
        | inr (job, f, h, e) ↦ inr (job, f, rw (e, scan_row) refl)
      ]

  -- For a row of the table that is the row itself.
  pub select_by_id-row :
      (r : JobRow)
      → Memᴰ r d.jobs
      → (org : String) → lookup r.project_id d.projects ≡ some org
      → select_by_id env r.id t d ≡ (ok (record { row = r; organization_id = org }), d)
  select_by_id-row r m org o = elim (select_by_id-cases r.id) [
    | inl (h, e) ↦ absurd (ground (arith, any-false (has_id r.id) d.jobs h m, eq_iff r.id r.id))
    | inr (job, f, e) ↦
        let row : job.row ≡ r =
          NodupIds-unique job.row r d.jobs wf.nodup f.listed m ((eq_iff job.id r.id).0 f.passes) in
        let org' : some job.organization_id ≡ some org =
          sym f.joined ∙ ap (λ (x : JobRow). lookup x.project_id d.projects) row ∙ o in
        e ∙ ground arith
  ]

  -- GetActiveJobForProject finds a job exactly if a row of the project is in one of its five statuses.
  pub select_active-cases :
      (project_id : String)
      → HasLabels env active_statuses
      → ((any (is_active project_id) d.jobs ≡ false)
          × (select_active env project_id t d ≡ (err no_rows, d)))
        ⊎ ((job : Job) × IsFound (is_active project_id) d job
            × (any (is_active project_id) d.jobs ≡ true)
            × (select_active env project_id t d ≡ (ok job, d)))
  unfolding select_active scan_row
  select_active-cases project_id labels =
      elim (first_joined (is_active project_id) d (env.scan t d.jobs) (scans.perm t d.jobs) wf _
        refl) [
          | inl (h, e) ↦
              inl (h, with_labels_lem env active_statuses d _ labels ∙ rw (e, scan_row) refl)
          | inr (job, f, h, e) ↦
              inr
                (job, f, h, with_labels_lem env active_statuses d _ labels ∙ rw (e, scan_row) refl)
        ]
