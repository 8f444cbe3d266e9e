-- ===== src/Lifecycle/Claimed.antt =====
-- A worker knows the operation of the job that it has claimed: nobody else can change it.
use mathlib.Core.List.{Memᴰ}
use openenvx_cloud.Prelude.{
  ℕ, suc, ◌≡◌, refl, sym, ap, subst, ◌∙◌, ◌⊎◌, inl, inr, String, true, List, any, arith, Option,
  none, some, eq_iff, filter,
}
use openenvx_cloud.Models.{JobStatus, JobRow, Job}
use openenvx_cloud.World.{
  Error, Result, ok, err, Db, World, Env, Link, up, lost, lost_after, within, finish, rewrap_result,
  transaction,
}
use openenvx_cloud.World.Keeps.{Stable}
use openenvx_cloud.Db.Rows.{head?, order_by, by_created_at, update_where, has_id, with_labels}
use openenvx_cloud.Db.Selection.{mem-filter, mem-perm, head?-mem, order_by-perm}
use openenvx_cloud.Db.Updates.{any-true, NodupIds-unique, has_id_self, update_where-mem}
use openenvx_cloud.Db.Claims.{IsScan}
use openenvx_cloud.Db.Queue.{
  returning, update_next, claim, claimable, claim_in, claim_next_job, claim_labels,
}
use openenvx_cloud.Lifecycle.Frame.{with_labels-ok}
use openenvx_cloud.Lifecycle.Rows.{Watch, Holds}
use openenvx_cloud.Lifecycle.Statements.{claim_next_job-Holds}

-- One more thing to rely on: the job `r`.
abbrev pub And : Watch → JobRow → Watch
And W r id op = W id op ⊎ ((id ≡ r.id) × (op ≡ r.operation))

pub And-Holds : (W : Watch) (r : JobRow) (d : Db) → Memᴰ r d.jobs → Holds W d → Holds (And W r) d
And-Holds W r d m h = record {
  well_formed = h.well_formed;
  lawful = h.lawful;
  known = known;
  present = present;
}
  where
    known : (s : JobRow) → Memᴰ s d.jobs → (op : String) → And W r s.id op → s.operation ≡ op
    known s n op (inl w) = h.known s n op w
    known s n op (inr (e, o)) =
        ap (λ (y : JobRow). y.operation) (NodupIds-unique s r d.jobs h.well_formed.nodup n m e)
        ∙ sym o

    present : (id op : String) → And W r id op → any (has_id id) d.jobs ≡ true
    present id op (inl w) = h.present id op w
    present id op (inr (e, o)) = any-true (has_id id) d.jobs m ((eq_iff r.id id).1 (sym e))

returning-mem :
    (f : JobRow → JobRow) (r : JobRow) (o : Option String) (d : Db) (job : Job)
    → Memᴰ r d.jobs
    → (returning f r o d).0 ≡ ok job
    → Memᴰ job.row (returning f r o d).1.jobs
unfolding returning
returning-mem f r none d job m e = cc
returning-mem f r (some org) d job m e =
    let row : f r ≡ job.row = ground arith in
    subst (λ x. Memᴰ x (update_where (has_id r.id) f d.jobs)) row
      (rw (has_id_self r) at (update_where-mem (has_id r.id) f d.jobs m))

update_next-mem :
    (f : JobRow → JobRow) (o : Option JobRow) (d : Db) (job : Job)
    → ((r : JobRow) → o ≡ some r → Memᴰ r d.jobs)
    → (update_next f o d).0 ≡ ok job
    → Memᴰ job.row (update_next f o d).1.jobs
unfolding update_next
update_next-mem f none d job listed e = cc
update_next-mem f (some r) d job listed e = returning-mem f r _ d job (listed r refl) e

module _ (env : Env) (scans : IsScan env) where
  -- The job that a claim returns stands in the table.
  claim_in-mem :
      (statuses : List JobStatus) (t : ℕ) (d : Db) (job : Job)
      → (claim_in env statuses t d).0 ≡ ok job
      → Memᴰ job.row (claim_in env statuses t d).1.jobs
  unfolding claim_in
  claim_in-mem statuses t d job e =
      let found =
        head? (order_by by_created_at (filter (claimable env statuses t) (env.scan t d.jobs))) in
      let inner = with_labels env claim_labels d (update_next (claim env t) found d) in
      let e₁ = with_labels-ok env statuses d inner job e in
      let f₁ : inner.0 ≡ ok job = sym (ap (λ (x : Result Job × Db). x.0) e₁) ∙ e in
      let e₂ = with_labels-ok env claim_labels d (update_next (claim env t) found d) job f₁ in
      let f₂ : (update_next (claim env t) found d).0 ≡ ok job =
        sym (ap (λ (x : Result Job × Db). x.0) e₂) ∙ f₁ in
      subst (λ (x : Result Job × Db). Memᴰ job.row x.1.jobs) (sym (e₁ ∙ e₂))
        (update_next-mem (claim env t) found d job listed f₂)
    where
      listed :
          (r : JobRow)
          → head? (order_by by_created_at (filter (claimable env statuses t) (env.scan t d.jobs)))
            ≡ some r
          → Memᴰ r d.jobs
      listed r q =
          mem-perm (scans.perm t d.jobs)
            (mem-filter (claimable env statuses t) r (env.scan t d.jobs)
              (mem-perm (order_by-perm by_created_at _) (head?-mem r _ q))).1

-- What a transaction that succeeds leaves is what its statement left, on tables that meet `P`.
module _ {A : Type 0} (env : Env) (P : Db → Type 0) (Q : A → Db → Type 0) where
  finish-ensures :
      (g q : Error → Error) (l l' : Link) (r : Result A × Db) (w : World) (a : A)
      → ((b : A) → r.0 ≡ ok b → Q b r.1)
      → (finish g (rewrap_result q (within l r)) l' w).0 ≡ ok a
      → Q a (finish g (rewrap_result q (within l r)) l' w).1.db
  unfolding finish within rewrap_result
  finish-ensures g q up up (ok b, d) w a h e = h a e
  finish-ensures g q up lost (ok b, d) w a h e = cc
  finish-ensures g q up lost_after (ok b, d) w a h e = cc
  finish-ensures g q up _ (err x, d) w a h e = cc
  finish-ensures g q lost _ _ w a h e = cc
  finish-ensures g q lost_after _ _ w a h e = cc

  begun-ensures :
      (b q c : Error → Error) (f : ℕ → Db → Result A × Db) (l : Link) (w : World) (a : A)
      → env.link w.tick ≡ l
      → Stable env P
      → ((t : ℕ) (d : Db) (x : A) → P d → (f t d).0 ≡ ok x → Q x (f t d).1)
      → P w.db
      → (transaction env b q c f w).0 ≡ ok a
      → Q a (transaction env b q c f w).1.db
  unfolding transaction
  begun-ensures b q c f up w a l stable k h e =
      let t = suc w.tick in
      let d = env.others t w.db in
      rw (l, transaction)
        (finish-ensures c q (env.link t) (env.link (suc t)) (f t d)
          (record w { db = d; tick = suc t }) a (λ x. k t d x (stable t w.db h))
          (rw (l, transaction) at e))
  begun-ensures b q c f lost w a l stable k h e = absurd (cc (rw (l, transaction) at e))
  begun-ensures b q c f lost_after w a l stable k h e = absurd (cc (rw (l, transaction) at e))

module _ (env : Env) (scans : IsScan env) (W : Watch) (stable : Stable env (Holds W)) where
  -- After a successful claim the invariant holds, and it knows the job's operation.
  pub claim_next_job-And :
      (statuses : List JobStatus) (w : World) (job : Job)
      → Holds W w.db
      → (claim_next_job env statuses w).0 ≡ ok job
      → Holds (And W job.row) (claim_next_job env statuses w).1.db
  unfolding claim_next_job
  claim_next_job-And statuses w job h e =
      And-Holds W job.row _
        (begun-ensures env (Holds W) (λ j d. Memᴰ j.row d.jobs) _ _ _ (claim_in env statuses)
          (env.link w.tick) w job refl stable (λ t d x _ q. claim_in-mem env scans statuses t d x q)
          h e)
        ((claim_next_job-Holds W env stable statuses).at w h)
