-- ===== src/Db/Claiming.antt =====
-- Claims one after another: a job is claimed once, and no claimable job is left waiting.
use mathlib.Core.List.{Memᴰ}
use openenvx_cloud.Prelude.{
  ℕ, zero, suc, ◌≡◌, ◌≢◌, refl, sym, ap, ◌∙◌, ◌⊎◌, inl, inr, String, Bool, true, false, List, [],
  ◌∷◌, arith, any, length, ◌==◌, ◌||◌,
}
use openenvx_cloud.Models.{status_in, JobRow, Job}
use openenvx_cloud.World.{Error, ok, err, Db, Env}
use openenvx_cloud.Db.Rows.{count_where, has_id}
use openenvx_cloud.Db.Updates.{Replaces, here, there, NodupIds, IsWellFormed, NodupIds-unique}
use openenvx_cloud.Db.Claims.{IsScan, HasLabels, took, none_left, claim_in-Takes}
use openenvx_cloud.Db.Queue.{claimable, claim, claim_in, claim_labels, running_status}
use openenvx_cloud.Daemon.Worker.{claimed_statuses}

module _ {r r' : JobRow} where
  Replaces-any :
      {rs rs' : List JobRow} (id : String)
      → r'.id ≡ r.id
      → Replaces r r' rs rs'
      → any (has_id id) rs' ≡ any (has_id id) rs
  unfolding any
  Replaces-any id e here = rw e refl
  Replaces-any id e (there {s} q) = ap (λ b. has_id id s || b) (Replaces-any id e q)

  Replaces-NodupIds :
      {rs rs' : List JobRow} → r'.id ≡ r.id → Replaces r r' rs rs' → NodupIds rs → NodupIds rs'
  Replaces-NodupIds e here (h, n) = (rw e h, n)
  Replaces-NodupIds e (there {s} q) (h, n) = (Replaces-any s.id e q ∙ h, Replaces-NodupIds e q n)

  Replaces-new : {rs rs' : List JobRow} → Replaces r r' rs rs' → Memᴰ r' rs'
  Replaces-new here = Memᴰ.head refl
  Replaces-new (there q) = Memᴰ.tail (Replaces-new q)

  Replaces-mem :
      {x : JobRow} {rs rs' : List JobRow} → Replaces r r' rs rs' → Memᴰ x rs' → (x ≡ r') ⊎ Memᴰ x rs
  Replaces-mem here (Memᴰ.head q) = inl q
  Replaces-mem here (Memᴰ.tail m) = inr (Memᴰ.tail m)
  Replaces-mem (there q) (Memᴰ.head e) = inr (Memᴰ.head e)
  Replaces-mem (there q) (Memᴰ.tail m) = elim (Replaces-mem q m) [
    | inl e ↦ inl e
    | inr n ↦ inr (Memᴰ.tail n)
  ]

  Replaces-count :
      {rs rs' : List JobRow} (p : JobRow → Bool)
      → p r ≡ true
      → p r' ≡ false
      → Replaces r r' rs rs'
      → count_where p rs ≡ suc (count_where p rs')
  unfolding count_where
  Replaces-count p h h' here = rw (h, h') refl
  Replaces-count p h h' (there {s} q) = ground (arith, Replaces-count p h h' q)

count_where-none :
    (p : JobRow → Bool) (rs : List JobRow)
    → ((r : JobRow) → Memᴰ r rs → p r ≡ false)
    → count_where p rs ≡ 0
unfolding count_where
count_where-none p [] h = refl
count_where-none p (r ∷ rs) h =
    rw (h r (Memᴰ.head refl)) (count_where-none p rs (λ s m. h s (Memᴰ.tail m)))

ok_inj : {a b : Job} → ok a ≡ ok b → a ≡ b
ok_inj e = cc

ok_err : {a : Job} {x : Error} → ok a ≡ err x → ⊥
ok_err e = cc

clash : true ≡ false → ⊥
clash e = cc

abbrev pub is_known : String → Bool
is_known operation = operation == "plan" || operation == "apply" || operation == "destroy"

-- A job that a worker looks for.
abbrev pub is_waiting : JobRow → Bool
is_waiting r = status_in r.status claimed_statuses

abbrev pub waiting : Db → ℕ
waiting d = count_where is_waiting d.jobs

-- The tables meet their constraints, and the jobs have operations that the code knows.
pub record IsClear (d : Db) : Type 0 where
  pub well_formed : IsWellFormed d
  pub known : (r : JobRow) → Memᴰ r d.jobs → is_known r.operation ≡ true

module _ (env : Env) where
  claim-not_waiting :
      (t : ℕ) (r : JobRow) → is_known r.operation ≡ true → is_waiting (claim env t r) ≡ false
  unfolding claim running_status
  claim-not_waiting t r h = ground (arith)

  -- So many claims, until one finds nothing, and what each returned.
  pub claims : ℕ → ℕ → Db → List Job × Db
  claims zero t d = ([], d)
  claims (suc n) t d =
      let out = claim_in env claimed_statuses t d in
      let rest = claims n (suc t) out.1 in
      elim out.0 [ ok job ↦ (job ∷ rest.0, rest.1) | err e ↦ ([], out.1) ]

module _ (env : Env) (scans : IsScan env)
    (unlocked : (t : ℕ) (id : String) → env.locked t id ≡ false)
    (labels : HasLabels env claimed_statuses) (labels' : HasLabels env claim_labels) where
  claimable_lem : (t : ℕ) (r : JobRow) → claimable env claimed_statuses t r ≡ is_waiting r
  unfolding claimable
  claimable_lem t r = rw (unlocked) (ground arith)

  Takes-IsClear :
      (t : ℕ) (d d' : Db) (row : JobRow)
      → IsClear d
      → Memᴰ row d.jobs
      → Replaces row (claim env t row) d.jobs d'.jobs
      → d'.projects ≡ d.projects
      → IsClear d'
  unfolding claim
  Takes-IsClear t d d' row c m q p = record {
    well_formed = record {
      nodup = Replaces-NodupIds refl q c.well_formed.nodup;
      owned = λ r n. elim (Replaces-mem q n) [
        | inl e ↦
            let (org, o) = c.well_formed.owned row m in
            (org, rw (p, ap (λ (x : JobRow). x.project_id) e) o)
        | inr k ↦ let (org, o) = c.well_formed.owned r k in (org, rw p o)
      ];
    };
    known = λ r n. elim (Replaces-mem q n) [
      | inl e ↦ rw (ap (λ (x : JobRow). x.operation) e) (c.known row m)
      | inr k ↦ c.known r k
    ];
  }

  one_claim :
      (t : ℕ) (d : Db)
      → IsClear d
      → let out = claim_in env claimed_statuses t d in
        ((job : Job) × (row : JobRow) × (out.0 ≡ ok job)
          × (job.id ≡ row.id)
          × (is_waiting row ≡ true)
          × Memᴰ row d.jobs
          × Replaces row (claim env t row) d.jobs out.1.jobs
          × IsClear out.1)
        ⊎ ((e : Error) × (out.0 ≡ err e) × (out.1 ≡ d) × (waiting d ≡ 0))
  unfolding claim
  one_claim t d c =
      elim (claim_in-Takes env scans claimed_statuses t d labels labels' c.well_formed) [
        | took row org next o e q p _ ↦ inl (
          _,
          row,
          e,
          refl,
          sym (claimable_lem t row) ∙ next.passes,
          next.listed,
          q,
          Takes-IsClear t d _ row c next.listed q p,
        )
        | none_left free e q ↦ inr (
          _,
          e,
          q,
          count_where-none is_waiting d.jobs (λ r m. sym (claimable_lem t r) ∙ free r m),
        )
      ]

  -- Where the tables meet their constraints, all jobs have the operation plan, apply or destroy, and
  -- nobody else writes or locks rows: as many claims as jobs wait (PENDING_PLAN or APPROVED) all
  -- return a job, and then no job waits.
  pub claims_lem :
      (n t : ℕ) (d : Db)
      → IsClear d
      → waiting d ≡ n
      → let out = claims env n t d in (length out.0 ≡ n) × (waiting out.1 ≡ 0)
  unfolding claims
  claims_lem zero t d c e = (refl, e)
  claims_lem (suc n) t d c e = elim (one_claim t d c) [
    | inl (job, row, o, _, w, m, q, c') ↦
        let fewer = Replaces-count is_waiting w (claim-not_waiting env t row (c.known row m)) q in
        let (k, z) = claims_lem n (suc t) _ c' (omega (arith, fewer, e)) in
        rw (claims, o) (omega (arith, k), z)
    | inr (_, _, _, z) ↦ absurd (omega (arith, z, e))
  ]

  -- Under the same conditions, a claim and the next one never return the same job.
  pub claim_in-once :
      (t t' : ℕ) (d : Db) (job other : Job)
      → IsClear d
      → (claim_in env claimed_statuses t d).0 ≡ ok job
      → (claim_in env claimed_statuses t' (claim_in env claimed_statuses t d).1).0 ≡ ok other
      → other.id ≢ job.id
  unfolding claim
  claim_in-once t t' d job other c e e' same = elim (one_claim t d c) [
    | inr (_, o, _, _) ↦ ok_err (sym e ∙ o)
    | inl (job', row, o, i, w, m, q, c') ↦ elim (one_claim t' _ c') [
      | inr (_, o', _, _) ↦ ok_err (sym e' ∙ o')
      | inl (other', row', o', i', w', m', _, _) ↦
          let eq : row' ≡ claim env t row =
            NodupIds-unique row' (claim env t row) _ c'.well_formed.nodup m' (Replaces-new q) (
              sym i'
              ∙ ap (λ (x : Job). x.id) (ok_inj (sym o' ∙ e'))
              ∙ same
              ∙ ap (λ (x : Job). x.id) (ok_inj (sym e ∙ o))
              ∙ i) in
          clash (sym w' ∙ ap is_waiting eq ∙ claim-not_waiting env t row (c.known row m))
    ]
  ]
