-- ===== src/Lifecycle/Settling.antt =====
-- What the code looks at before it gives a job another status, and that no act of the orchestrator
-- changes the status of a job that is APPLIED, FAILED or CANCELLED.
use mathlib.Core.List.{Memᴰ}
use openenvx_cloud.Prelude.{
  ℕ, ◌≡◌, ◌≢◌, refl, sym, ap, subst, ◌∙◌, String, Bool, true, List, arith, Option, none, some,
  eq_iff, filter,
}
use openenvx_cloud.Models.{JobStatus, status_in, JobRow, Job}
use openenvx_cloud.World.{Result, ok, Db, Env}
use openenvx_cloud.World.Keeps.{Tables, Stable}
use openenvx_cloud.World.Reads.{Reads, Reads-rewrap, Reads-statement, Reads-transaction}
use openenvx_cloud.Db.Rows.{head?, order_by, by_created_at, has_id, join, scan_row, with_labels}
use openenvx_cloud.Db.Selection.{mem-filter, mem-perm, mem-join, head?-mem, order_by-perm}
use openenvx_cloud.Db.Claims.{IsScan}
use openenvx_cloud.Db.Jobs.{
  get_job, select_by_id, get_active_job_for_project, select_active, is_active, active_statuses,
  fetch_jobs_by_statuses,
}
use openenvx_cloud.Db.Queue.{
  returning, update_next, claim, claimable, claim_in, claim_next_job, claim_labels,
}
use openenvx_cloud.Daemon.Recovery.{stale_statuses}
use openenvx_cloud.Daemon.Worker.{claimed_statuses}
use openenvx_cloud.Lifecycle.Frame.{with_labels-keeps, with_labels-ok}
use openenvx_cloud.Lifecycle.Settled.{IsSettled, IsApart, elsewhere, update_next-IsSettled}

scanned {ℓ} : {A : Type ℓ} (o : Option A) (a : A) → scan_row o ≡ ok a → o ≡ some a
unfolding scan_row
scanned none a e = absurd cc
scanned (some b) a e = ground arith

returned-row :
    (f : JobRow → JobRow) (r : JobRow) (o : Option String) (d : Db) (job : Job)
    → (returning f r o d).0 ≡ ok job
    → f r ≡ job.row
unfolding returning
returned-row f r none d job e = absurd cc
returned-row f r (some org) d job e = ground arith

updated-row :
    (f : JobRow → JobRow) (o : Option JobRow) (d : Db) (job : Job)
    → (update_next f o d).0 ≡ ok job
    → (r : JobRow) × (o ≡ some r) × (f r ≡ job.row)
unfolding update_next
updated-row f none d job e = absurd cc
updated-row f (some r) d job e = (r, refl, returned-row f r _ d job e)

module _ (env : Env) (scans : IsScan env) where
  -- A job that a query by a test returns stands in the table, and passes the test.
  joined :
      (p : JobRow → Bool) (t : ℕ) (d : Db) (j : Job)
      → Memᴰ j (join d.projects (filter p (env.scan t d.jobs)))
      → (p j.row ≡ true) × Memᴰ j.row d.jobs
  joined p t d j m =
      let (e, n) = mem-filter p j.row (env.scan t d.jobs) (mem-join d.projects j _ m) in
      (e, mem-perm (scans.perm t d.jobs) n)

  ordered :
      (before : JobRow → JobRow → Bool) (p : JobRow → Bool) (t : ℕ) (d : Db) (r : JobRow)
      → Memᴰ r (order_by before (filter p (env.scan t d.jobs)))
      → (p r ≡ true) × Memᴰ r d.jobs
  ordered before p t d r m =
      let (e, n) = mem-filter p r (env.scan t d.jobs) (mem-perm (order_by-perm before _) m) in
      (e, mem-perm (scans.perm t d.jobs) n)

module _ (env : Env) (scans : IsScan env) (k : String) (s : JobStatus) (away : IsApart s)
    (stable : Stable env (IsSettled k s)) where
  pub get_job-Reads :
      (id : String)
      → Reads
          (Tables (IsSettled k s))
          (get_job env id)
          (λ j. (j.id ≡ id) × (j.id ≡ k → j.status ≡ s))
  unfolding get_job select_by_id
  get_job-Reads id = Reads-rewrap _ _ (
      Reads-statement env (select_by_id env id) (λ _. stable) (λ t d b h. h)
        λ t d b h j e.
          let (p, m) = joined env scans (has_id id) t d j (
            head?-mem j _
              (scanned (head? (join d.projects (filter (has_id id) (env.scan t d.jobs)))) j e)) in
          ((eq_iff j.id id).0 p, h.rows j.row m))

  pub get_active-Reads :
      (project : String)
      → Reads (Tables (IsSettled k s)) (get_active_job_for_project env project) (λ j. j.id ≢ k)
  unfolding get_active_job_for_project select_active
  get_active-Reads project = Reads-rewrap _ _ (
      Reads-statement env (select_active env project) (λ _. stable)
        (λ t d b h. with_labels-keeps env (IsSettled k s) active_statuses d _ h h)
        λ t d b h j e.
          let q = with_labels-ok env active_statuses d _ j e in
          let (p, m) = joined env scans (is_active project) t d j (
            head?-mem j _ (
              scanned (head? (join d.projects (filter (is_active project) (env.scan t d.jobs)))) j
                (sym (ap (λ (x : Result Job × Db). x.0) q) ∙ e))) in
          elsewhere k s d j.row (λ x. status_in x active_statuses) away.inactive h m
            (ground (arith, p)))

  pub claim-Reads :
      Reads (Tables (IsSettled k s)) (claim_next_job env claimed_statuses) (λ j. j.id ≢ k)
  unfolding claim_next_job claim_in claim claimable
  claim-Reads =
      Reads-transaction env _ _ _ (claim_in env claimed_statuses) (λ _. stable)
        (λ t d b h. with_labels-keeps env (IsSettled k s) claimed_statuses d _ h (
          with_labels-keeps env (IsSettled k s) claim_labels d _ h
            (update_next-IsSettled k s (claim env t) _ d (λ r. refl) (picked t d h) h)))
        λ t d b h j e.
          let inner = with_labels env claim_labels d (update_next (claim env t) (found t d) d) in
          let e₁ = with_labels-ok env claimed_statuses d inner j e in
          let f₁ : inner.0 ≡ ok j = sym (ap (λ (x : Result Job × Db). x.0) e₁) ∙ e in
          let e₂ =
            with_labels-ok env claim_labels d (update_next (claim env t) (found t d) d) j f₁ in
          let (r, o, row) =
            updated-row (claim env t) (found t d) d j
              (sym (ap (λ (x : Result Job × Db). x.0) e₂) ∙ f₁) in
          λ i. picked t d h r o (ap (λ (x : JobRow). x.id) row ∙ i)
    where
      found : ℕ → Db → Option JobRow
      found t d =
          head?
            (order_by by_created_at (filter (claimable env claimed_statuses t) (env.scan t d.jobs)))

      picked : (t : ℕ) (d : Db) → IsSettled k s d → (r : JobRow) → found t d ≡ some r → r.id ≢ k
      picked t d h r e =
          let (p, m) =
            ordered env scans by_created_at (claimable env claimed_statuses t) t d r
              (head?-mem r _ e) in
          elsewhere k s d r (λ x. status_in x claimed_statuses) away.unclaimed h m
            (ground (arith, p))

  -- The jobs that the recovery finds are others.
  pub stale-Reads :
      Reads
        (Tables (IsSettled k s))
        (fetch_jobs_by_statuses env stale_statuses)
        (λ js. (j : Job) → Memᴰ j js → j.id ≢ k)
  unfolding fetch_jobs_by_statuses
  stale-Reads = Reads-rewrap _ _ (
      Reads-statement env _ (λ _. stable)
        (λ t d b h. with_labels-keeps env (IsSettled k s) stale_statuses d _ h h)
        λ t d b h js e j m.
          let q = with_labels-ok env stale_statuses d _ js e in
          let listed : ok (fetched t d) ≡ ok js =
            sym (ap (λ (x : Result (List Job) × Db). x.0) q) ∙ e in
          let (p, n) =
            ordered env scans by_created_at is_stale t d j.row
              (mem-join d.projects j _ (subst (Memᴰ j) (sym (ok-inj listed)) m)) in
          elsewhere k s d j.row (λ x. status_in x stale_statuses) away.fresh h n p)
    where
      is_stale : JobRow → Bool
      is_stale r = status_in r.status stale_statuses

      fetched : ℕ → Db → List Job
      fetched t d = join d.projects (order_by by_created_at (filter is_stale (env.scan t d.jobs)))

      ok-inj : {xs ys : List Job} → ok xs ≡ ok ys → xs ≡ ys
      ok-inj e = ground (arith, e)
