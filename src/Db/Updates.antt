-- ===== src/Db/Updates.antt =====
-- What an UPDATE and an INSERT do to the rows of `jobs`, and the constraints of the tables: the
-- primary key of `jobs` and the foreign key to `projects`.
use mathlib.Core.List.{Memᴰ}
use openenvx_cloud.Prelude.{
  ◌≡◌, refl, sym, ap, subst, ◌∙◌, ◌⊎◌, inl, inr, String, Bool, true, false, List, [], ◌∷◌, ◌++◌,
  some, arith, any, Bool-cases, if◌then◌else◌, ◌==◌, eq_iff, ◌||◌,
}
use openenvx_cloud.Models.{JobRow}
use openenvx_cloud.World.{Db}
use openenvx_cloud.Db.Selection.{mem-cons}
use openenvx_cloud.Db.Rows.{lookup, update_where, has_id}

-- One row of the list is replaced in its place, and no other is touched.
pub data Replaces (r r' : JobRow) : List JobRow → List JobRow → Type 0 where
  here : {rs : List JobRow} → Replaces r r' (r ∷ rs) (r' ∷ rs)
  there :
      {s : JobRow} {rs rs' : List JobRow} → Replaces r r' rs rs' → Replaces r r' (s ∷ rs) (s ∷ rs')

-- No two rows have one id.
abbrev pub NodupIds : List JobRow → Type 0
NodupIds [] = Unit
NodupIds (r ∷ rs) = (any (has_id r.id) rs ≡ false) × NodupIds rs

pub record IsWellFormed (d : Db) : Type 0 where
  pub nodup : NodupIds d.jobs
  pub owned :
      (r : JobRow) → Memᴰ r d.jobs → (org : String) × (lookup r.project_id d.projects ≡ some org)

pub any-false :
    (p : JobRow → Bool) {r : JobRow} (rs : List JobRow) → any p rs ≡ false → Memᴰ r rs → p r ≡ false
unfolding any
any-false p [] h m = elim m [ ]
any-false p (s ∷ ss) h (Memᴰ.head q) = rw q (ground arith)
any-false p (s ∷ ss) h (Memᴰ.tail m) = any-false p ss (ground arith) m

pub has_id_self : (r : JobRow) → has_id r.id r ≡ true
has_id_self r = (eq_iff r.id r.id).1 refl

pub any-true :
    (p : JobRow → Bool) {r : JobRow} (rs : List JobRow) → Memᴰ r rs → p r ≡ true → any p rs ≡ true
unfolding any
any-true p [] m h = elim m [ ]
any-true p (s ∷ ss) (Memᴰ.head q) h = rw (← q) (ground arith)
any-true p (s ∷ ss) (Memᴰ.tail m) h = ground (arith, any-true p ss m h)

pub any-mem :
    (p : JobRow → Bool) (rs : List JobRow)
    → any p rs ≡ true
    → (r : JobRow) × Memᴰ r rs × (p r ≡ true)
unfolding any
any-mem p [] h = cc
any-mem p (s ∷ ss) h = elim (Bool-cases (p s)) [
  | inl e ↦ (s, Memᴰ.head refl, e)
  | inr e ↦ let (r, m, k) = any-mem p ss (rw e at h) in (r, Memᴰ.tail m, k)
]

-- A row is determined by its id.
pub NodupIds-unique :
    (r s : JobRow) (rs : List JobRow) → NodupIds rs → Memᴰ r rs → Memᴰ s rs → r.id ≡ s.id → r ≡ s
NodupIds-unique r s [] n m k e = elim m [ ]
NodupIds-unique r s (x ∷ xs) n (Memᴰ.head p) (Memᴰ.head q) e = p ∙ sym q
NodupIds-unique r s (x ∷ xs) n (Memᴰ.head p) (Memᴰ.tail k) e =
    let fresh : has_id x.id s ≡ false = any-false (has_id x.id) xs n.0 k in
    let same : s.id ≡ x.id = sym e ∙ ap (λ (y : JobRow). y.id) p in
    absurd (ground (arith, eq_iff s.id x.id))
NodupIds-unique r s (x ∷ xs) n (Memᴰ.tail m) (Memᴰ.head q) e =
    let fresh : has_id x.id r ≡ false = any-false (has_id x.id) xs n.0 m in
    let same : r.id ≡ x.id = e ∙ ap (λ (y : JobRow). y.id) q in
    absurd (ground (arith, eq_iff r.id x.id))
NodupIds-unique r s (x ∷ xs) n (Memᴰ.tail m) (Memᴰ.tail k) e = NodupIds-unique r s xs n.1 m k e

module _ (p : JobRow → Bool) (f : JobRow → JobRow) where
  pub update_where-none : (rs : List JobRow) → any p rs ≡ false → update_where p f rs ≡ rs
  unfolding update_where any
  update_where-none [] h = refl
  update_where-none (r ∷ rs) h = ground (arith, update_where-none rs)

  -- Where the update keeps what a test looks at, the test finds as much as before.
  pub any-update_where :
      (q : JobRow → Bool)
      → ((r : JobRow) → q (f r) ≡ q r)
      → (rs : List JobRow) → any q (update_where p f rs) ≡ any q rs
  unfolding update_where any
  any-update_where q same [] = refl
  any-update_where q same (r ∷ rs) = ground (arith, same r, any-update_where q same rs)

  -- Each row afterwards is a row from before, updated exactly if it passed.
  pub mem-update_where :
      (x : JobRow) (rs : List JobRow)
      → Memᴰ x (update_where p f rs)
      → (r : JobRow) × Memᴰ r rs × (x ≡ (if p r then f r else r))
  unfolding update_where
  mem-update_where x [] m = elim m [ ]
  mem-update_where x (r ∷ rs) m = elim (mem-cons m) [
    | inl q ↦ (r, Memᴰ.head refl, q)
    | inr n ↦ let (s, l, e) = mem-update_where x rs n in (s, Memᴰ.tail l, e)
  ]

  pub update_where-mem :
      {r : JobRow} (rs : List JobRow)
      → Memᴰ r rs
      → Memᴰ (if p r then f r else r) (update_where p f rs)
  unfolding update_where
  update_where-mem [] m = elim m [ ]
  update_where-mem (s ∷ ss) (Memᴰ.head q) = Memᴰ.head (ap (λ x. if p x then f x else x) q)
  update_where-mem (s ∷ ss) (Memᴰ.tail m) = Memᴰ.tail (update_where-mem ss m)

  pub update_where-NodupIds :
      ((r : JobRow) → (f r).id ≡ r.id)
      → (rs : List JobRow) → NodupIds rs
      → NodupIds (update_where p f rs)
  unfolding update_where
  update_where-NodupIds same [] n = tt
  update_where-NodupIds same (r ∷ rs) (h, n) = (
    any-update_where (has_id _) (λ s. ap (λ id. id == _) (same s)) rs ∙ fresh,
    update_where-NodupIds same rs n,
  )
    where
      id_kept : (if p r then f r else r).id ≡ r.id
      id_kept = ground (arith, same r)

      fresh : any (has_id (if p r then f r else r).id) rs ≡ false
      fresh = rw id_kept h

update_where-head :
    (f : JobRow → JobRow) (r : JobRow) (rs : List JobRow)
    → any (has_id r.id) rs ≡ false
    → update_where (has_id r.id) f (r ∷ rs) ≡ f r ∷ rs
unfolding update_where
update_where-head f r rs h =
    rw has_id_self (ap (◌∷◌ (f r)) (update_where-none (has_id r.id) f rs h))

-- The update of the row with the id of `r` replaces `r`.
pub update_where-Replaces :
    (f : JobRow → JobRow) (r : JobRow) (rs : List JobRow)
    → NodupIds rs
    → Memᴰ r rs
    → Replaces r (f r) rs (update_where (has_id r.id) f rs)
unfolding update_where
update_where-Replaces f r [] n m = elim m [ ]
update_where-Replaces f r (s ∷ ss) n (Memᴰ.head q) =
    subst (λ x. Replaces x (f x) (s ∷ ss) (update_where (has_id x.id) f (s ∷ ss))) (sym q)
      (rw (update_where-head f s ss n.0) here)
update_where-Replaces f r (s ∷ ss) n (Memᴰ.tail m) =
    let other : has_id r.id s ≡ false =
      ground (arith, any-false (has_id s.id) ss n.0 m, eq_iff r.id s.id, eq_iff s.id r.id) in
    rw other (there (update_where-Replaces f r ss n.1 m))

pub any-append :
    (p : JobRow → Bool) (rs : List JobRow) (r : JobRow) → any p (rs ++ r ∷ []) ≡ (any p rs || p r)
unfolding any
any-append p [] r = ground arith
any-append p (s ∷ ss) r = ground (arith, any-append p ss r)

-- An id that no row has can be added.
pub append-NodupIds :
    (rs : List JobRow) (r : JobRow)
    → any (has_id r.id) rs ≡ false
    → NodupIds rs
    → NodupIds (rs ++ r ∷ [])
unfolding any
append-NodupIds [] r h n = (refl, tt)
append-NodupIds (s ∷ ss) r h n = (
  ground (arith, any-append (has_id s.id) ss r, eq_iff r.id s.id, eq_iff s.id r.id),
  append-NodupIds ss r (ground arith) n.1,
)

pub mem-append-one :
    {x : JobRow} (rs : List JobRow) (r : JobRow) → Memᴰ x (rs ++ r ∷ []) → Memᴰ x rs ⊎ (x ≡ r)
mem-append-one [] r m = elim (mem-cons m) [ inl q ↦ inr q | inr n ↦ elim n [ ] ]
mem-append-one (s ∷ ss) r m = elim (mem-cons m) [
  | inl q ↦ inl (Memᴰ.head q)
  | inr n ↦ elim (mem-append-one ss r n) [ inl k ↦ inl (Memᴰ.tail k) | inr q ↦ inr q ]
]

-- An UPDATE that changes neither ids nor projects keeps the constraints.
pub update_where-IsWellFormed :
    (p : JobRow → Bool) (f : JobRow → JobRow) (d : Db)
    → ((r : JobRow) → ((f r).id ≡ r.id) × ((f r).project_id ≡ r.project_id))
    → IsWellFormed d
    → IsWellFormed (record d { jobs = update_where p f d.jobs })
update_where-IsWellFormed p f d same w = record {
  nodup = update_where-NodupIds p f (λ r. (same r).0) d.jobs w.nodup;
  owned = λ x m.
      let (r, n, e) = mem-update_where p f x d.jobs m in
      let (org, o) = w.owned r n in
      (
        org,
        subst (λ project. lookup project d.projects ≡ some org)
            (project_kept r ∙ sym (ap (λ (y : JobRow). y.project_id) e)) o,
      );
}
  where
    project_kept : (r : JobRow) → r.project_id ≡ (if p r then f r else r).project_id
    project_kept r = ground (arith, same r)
