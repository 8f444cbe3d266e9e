-- ===== src/Daemon/Recovery/Laws.antt =====
-- What the recovery at the start makes of the jobs.
use mathlib.Core.List.{Memᴰ}
use openenvx_cloud.Prelude.{
  ℕ, suc, ◌≡◌, refl, sym, ap, subst, ◌∙◌, ◌⊎◌, inl, inr, String, Bool, true, false, List, [], ◌∷◌,
  some, arith, any, filter, Bool-cases, Option-cases, if◌then◌else◌, eq_iff, ◌==◌,
}
use openenvx_cloud.Models.{JobStatus, failed, status_in, JobRow, Job}
use openenvx_cloud.World.{
  Result, ok, wrap, Db, World, Env, up, pure, attempt, ◌>>=◌, rewrap_result, rewrap,
}
use openenvx_cloud.World.Calls.{statement-up}
use openenvx_cloud.Db.Rows.{has_id, lookup, join, join_cons, order_by, by_created_at}
use openenvx_cloud.Db.Selection.{
  mem-join, mem-filter, filter-mem, mem-perm, perm_symm, order_by-perm,
}
use openenvx_cloud.Db.Updates.{IsWellFormed, mem-update_where, NodupIds-unique}
use openenvx_cloud.Db.Claims.{IsScan, HasLabels, with_labels_lem}
use openenvx_cloud.Db.Jobs.{fetch_jobs_by_statuses}
use openenvx_cloud.Db.Answers.{with_status, update_job_status-up}
use openenvx_cloud.Daemon.Recovery.{fail_each, recover_jobs, stale_statuses}

-- The database answers, and nobody else writes it.
pub record IsQuiet (env : Env) : Type 0 where
  pub answered : (t : ℕ) → env.link t ≡ up
  pub alone : (t : ℕ) (d : Db) → env.others t d ≡ d

abbrev named : String → Job → Bool
named id j = j.id == id

any-join :
    (projects : List (String × String)) (r : JobRow) (org : String) (rs : List JobRow)
    → lookup r.project_id projects ≡ some org
    → Memᴰ r rs
    → any (named r.id) (join projects rs) ≡ true
unfolding join any
any-join projects r org [] o m = elim m [ ]
any-join projects r org (s ∷ ss) o (Memᴰ.head q) =
    rw (← q) (rw (o, join_cons) (rw ((eq_iff r.id r.id).1 refl) refl))
any-join projects r org (s ∷ ss) o (Memᴰ.tail m) =
    elim (Option-cases (lookup s.project_id projects)) [
      | inl e ↦ rw (e, join_cons) (any-join projects r org ss o m)
      | inr (x, e) ↦ rw (e, join_cons) (ground (arith, any-join projects r org ss o m))
    ]

Bool-clash : ¬ (true ≡ false)
Bool-clash e = cc

eq_comm : (a b : String) → (a == b) ≡ (b == a)
eq_comm a b = elim (Bool-cases (a == b)) [
  | inl e ↦ e ∙ sym ((eq_iff b a).1 (sym ((eq_iff a b).0 e)))
  | inr e ↦ elim (Bool-cases (b == a)) [
    | inl h ↦ absurd (Bool-clash (sym ((eq_iff a b).1 (sym ((eq_iff b a).0 h))) ∙ e))
    | inr h ↦ e ∙ sym h
  ]
]

-- What became of a row that an update of `j` turned from `r` to `s`, and the later ones to `x`.
abbrev Traced : List Job → JobRow → JobRow → Type 0
Traced js r x =
    ((x ≡ r) × (any (named r.id) js ≡ false)) ⊎ ((x.status ≡ failed) × (any (named r.id) js ≡ true))

module _ (j : Job) (js : List Job) (f : JobRow → JobRow) (r s x : JobRow)
    (fails : (f r).status ≡ failed) (c : Traced js s x) where
  abbrev status : JobRow → JobStatus
  status y = y.status

  Traced-hit : s ≡ f r → (j.id == r.id) ≡ true → Traced (j ∷ js) r x
  unfolding any
  Traced-hit e h = elim c [
    | inl (q, n) ↦ inr (ap status (q ∙ e) ∙ fails, rw h refl)
    | inr (g, n) ↦ inr (g, rw h refl)
  ]

  Traced-miss : s ≡ r → (j.id == r.id) ≡ false → Traced (j ∷ js) r x
  unfolding any
  Traced-miss e h = elim c [
    | inl (q, n) ↦ inl (q ∙ e, rw h (subst (λ (y : JobRow). any (named y.id) js ≡ false) e n))
    | inr (g, n) ↦ inr (g, rw h (subst (λ (y : JobRow). any (named y.id) js ≡ true) e n))
  ]

  traced :
      ((f r).id ≡ r.id)
      → s ≡ (if has_id j.id r then f r else r)
      → has_id j.id r ≡ (j.id == r.id)
      → s.id ≡ x.id
      → (r.id ≡ x.id) × Traced (j ∷ js) r x
  traced same e t i = elim (Bool-cases (has_id j.id r)) [
    | inl hit ↦
        let q : s ≡ f r = rw hit at e in
        (sym same ∙ sym (ap (λ (y : JobRow). y.id) q) ∙ i, Traced-hit q (sym t ∙ hit))
    | inr miss ↦
        let q : s ≡ r = rw miss at e in
        (sym (ap (λ (y : JobRow). y.id) q) ∙ i, Traced-miss q (sym t ∙ miss))
  ]

module _ (env : Env) (quiet : IsQuiet env) (labelled : env.has_label failed ≡ true) where
  abbrev mark : String → World → World
  mark id w = record w { db = with_status env id failed w.tick w.db; tick = suc w.tick }

  fail_each-cons :
      (j : Job) (js : List Job) (w : World)
      → fail_each env (j ∷ js) w ≡ fail_each env js (mark j.id w)
  unfolding fail_each attempt ◌>>=◌
  fail_each-cons j js w =
      rw (update_job_status-up env w (quiet.answered w.tick) j.id failed labelled)
        (rw quiet.alone refl)

  fail_each-ok : (js : List Job) (w : World) → (fail_each env js w).0 ≡ ok tt
  unfolding pure
  fail_each-ok [] w = unfold fail_each in refl
  fail_each-ok (j ∷ js) w = rw fail_each-cons (fail_each-ok js (mark j.id w))

  -- A row afterwards is one from before that no job of the list names, or it is FAILED.
  fail_each-from :
      (js : List Job) (w : World) (x : JobRow)
      → Memᴰ x (fail_each env js w).1.db.jobs
      → (r : JobRow) × Memᴰ r w.db.jobs × (r.id ≡ x.id) × Traced js r x
  unfolding any pure
  fail_each-from [] w x m = (x, (unfold fail_each in m), refl, inl (refl, refl))
  fail_each-from (j ∷ js) w x m =
      let (s, n, i, c) = fail_each-from js (mark j.id w) x (rw fail_each-cons at m) in
      let f = λ (y : JobRow). record y { status = failed; updated_at = env.now w.tick } in
      let (r, k, e) = mem-update_where (has_id j.id) f s w.db.jobs n in
      let (same, t) = traced j js f r s x refl c refl e (eq_comm r.id j.id) i in (r, k, same, t)

unfoldable pub is_stale : JobRow → Bool
is_stale r = status_in r.status stale_statuses

-- The jobs that the recovery fetches.
abbrev fetched : Env → World → List Job
fetched env w =
    join w.db.projects (order_by by_created_at (filter is_stale (env.scan w.tick w.db.jobs)))

named-row :
    (id : String) (js : List Job) → any (named id) js ≡ true → (j : Job) × Memᴰ j js × (j.id ≡ id)
unfolding any
named-row id [] h = cc
named-row id (j ∷ js) h = elim (Bool-cases (j.id == id)) [
  | inl e ↦ (j, Memᴰ.head refl, (eq_iff j.id id).0 e)
  | inr e ↦ let (k, m, q) = named-row id js (rw e at h) in (k, Memᴰ.tail m, q)
]

module _ (env : Env) (quiet : IsQuiet env) (scans : IsScan env)
    (labels : HasLabels env stale_statuses) (labelled : env.has_label failed ≡ true) where
  fetched_rows :
      (w : World)
      → fetch_jobs_by_statuses env stale_statuses w
        ≡ (ok (fetched env w), record w { tick = suc w.tick })
  unfolding fetch_jobs_by_statuses rewrap_result is_stale
  fetched_rows w =
      statement-up env (wrap "query jobs by statuses") _ w (quiet.answered w.tick)
      ∙ ap
          (λ (x : Result (List Job) × Db). (
            rewrap_result (wrap "query jobs by statuses") x.0,
            record w { db = x.1; tick = suc w.tick },
          ))
          {y = (ok (fetched env w), w.db)}
          (rw quiet.alone (with_labels_lem env stale_statuses w.db _ labels))

  named_stale :
      (w : World) (r : JobRow)
      → IsWellFormed w.db
      → Memᴰ r w.db.jobs
      → any (named r.id) (fetched env w) ≡ is_stale r
  named_stale w r wf m = elim (Bool-cases (is_stale r)) [
    | inl e ↦ met e ∙ sym e
    | inr e ↦ elim (Bool-cases (any (named r.id) (fetched env w))) [
      | inl h ↦ absurd (Bool-clash (sym (stale h) ∙ e))
      | inr h ↦ h ∙ sym e
    ]
  ]
    where
      sorted : List JobRow
      sorted = order_by by_created_at (filter is_stale (env.scan w.tick w.db.jobs))

      met : is_stale r ≡ true → any (named r.id) (fetched env w) ≡ true
      met e =
          let (org, o) = wf.owned r m in
          any-join w.db.projects r org _ o (
            mem-perm (perm_symm (order_by-perm by_created_at _))
              (filter-mem is_stale r _ e (mem-perm (perm_symm (scans.perm w.tick w.db.jobs)) m)))

      stale : any (named r.id) (fetched env w) ≡ true → is_stale r ≡ true
      stale h =
          let (j, n, q) = named-row r.id _ h in
          let (e, k) =
            mem-filter is_stale j.row _
              (mem-perm (order_by-perm by_created_at _) (mem-join w.db.projects j _ n)) in
          let same =
            NodupIds-unique j.row r w.db.jobs wf.nodup (mem-perm (scans.perm w.tick w.db.jobs) k) m
              q in
          sym (ap is_stale same) ∙ e

  recovered-ok : (w : World) → (recover_jobs env w).0 ≡ ok tt
  unfolding recover_jobs ◌>>=◌ rewrap
  recovered-ok w =
      rw fetched_rows
        (fail_each-ok env quiet labelled (fetched env w) (record w { tick = suc w.tick }))

  recovered-rows :
      (w : World)
      → IsWellFormed w.db
      → (x : JobRow) → Memᴰ x (recover_jobs env w).1.db.jobs
      → (r : JobRow) × Memᴰ r w.db.jobs
        × (r.id ≡ x.id)
        × (((x ≡ r) × (is_stale r ≡ false)) ⊎ ((x.status ≡ failed) × (is_stale r ≡ true)))
  unfolding recover_jobs ◌>>=◌ rewrap is_stale
  recovered-rows w wf x m =
      let (r, k, i, t) =
        fail_each-from env quiet labelled (fetched env w) (record w { tick = suc w.tick }) x
          (rw fetched_rows at m) in
      (r, k, i, rw (named_stale w r wf k) at t)

  -- Where the database answers, nobody else writes it, it knows the statuses named and a query meets
  -- every row once, from tables that meet their constraints: the recovery returns no error; and each
  -- row after it has the id of a row from before, and either it is that row, and its status was not
  -- PLANNING, APPLYING or DESTROYING, or it is FAILED, and the row from before was in one of these
  -- three.
  pub recover_jobs_lem :
      (w : World)
      → IsWellFormed w.db
      → ((recover_jobs env w).0 ≡ ok tt)
        × ((x : JobRow)
            → Memᴰ x (recover_jobs env w).1.db.jobs
            → (r : JobRow) × Memᴰ r w.db.jobs
              × (r.id ≡ x.id)
              × (((x ≡ r) × (is_stale r ≡ false)) ⊎ ((x.status ≡ failed) × (is_stale r ≡ true))))
  recover_jobs_lem w wf = (recovered-ok w, recovered-rows w wf)
