-- ===== src/Db/Selection.antt =====
-- What the WHERE, ORDER BY and LIMIT 1 of a query find among the rows of a table, whatever the order
-- in which the database meets them.
use mathlib.Core.List.Permᴰ
use mathlib.Core.List.{Memᴰ, Permᴰ}
use native.Mathlib.Nat.{le_trans}
use openenvx_cloud.Prelude.{
  String, Option-cases, ◌≤◌, ◌≡◌, refl, sym, ap, subst, ◌∙◌, ◌⊎◌, inl, inr, Bool, true, false, List,
  [], ◌∷◌, none, some, arith, filter, Bool-cases,
}
use openenvx_cloud.Models.{JobRow, Job}
use openenvx_cloud.Db.Rows.{
  lookup, join, join_cons, head?, insert, order_by, by_created_at, by_created_at_and_id,
}

module _ {ℓ} {A : Type ℓ} where
  pub mem-cons : {x y : A} {ys : List A} → Memᴰ x (y ∷ ys) → (x ≡ y) ⊎ Memᴰ x ys
  mem-cons (Memᴰ.head q) = inl q
  mem-cons (Memᴰ.tail m) = inr m

  pub mem-filter :
      (p : A → Bool) (x : A) (xs : List A) → Memᴰ x (filter p xs) → (p x ≡ true) × Memᴰ x xs
  unfolding filter
  mem-filter p x [] m = elim m [ ]
  mem-filter p x (y ∷ ys) m = elim (Bool-cases (p y)) [
    | inl e ↦ elim (mem-cons (rw e at m)) [
      | inl q ↦ (ap p q ∙ e, Memᴰ.head q)
      | inr n ↦ let (h, k) = mem-filter p x ys n in (h, Memᴰ.tail k)
    ]
    | inr e ↦ let (h, n) = mem-filter p x ys (rw e at m) in (h, Memᴰ.tail n)
  ]

  pub filter-mem :
      (p : A → Bool) (x : A) (xs : List A) → p x ≡ true → Memᴰ x xs → Memᴰ x (filter p xs)
  unfolding filter
  filter-mem p x [] h m = elim m [ ]
  filter-mem p x (y ∷ ys) h (Memᴰ.head q) = rw (sym (ap p q) ∙ h) (Memᴰ.head q)
  filter-mem p x (y ∷ ys) h (Memᴰ.tail m) = elim (Bool-cases (p y)) [
    | inl e ↦ rw e (Memᴰ.tail (filter-mem p x ys h m))
    | inr e ↦ rw e (filter-mem p x ys h m)
  ]

  pub mem-perm : {x : A} {xs ys : List A} → Permᴰ xs ys → Memᴰ x xs → Memᴰ x ys
  mem-perm Permᴰ.nil m = elim m [ ]
  mem-perm (Permᴰ.cons e p) (Memᴰ.head q) = Memᴰ.head (q ∙ e)
  mem-perm (Permᴰ.cons e p) (Memᴰ.tail m) = Memᴰ.tail (mem-perm p m)
  mem-perm (Permᴰ.swap e f) (Memᴰ.head q) = Memᴰ.tail (Memᴰ.head (q ∙ e))
  mem-perm (Permᴰ.swap e f) (Memᴰ.tail (Memᴰ.head q)) = Memᴰ.head (q ∙ f)
  mem-perm (Permᴰ.swap e f) (Memᴰ.tail (Memᴰ.tail m)) = Memᴰ.tail (Memᴰ.tail m)
  mem-perm (Permᴰ.trans p q) m = mem-perm q (mem-perm p m)

  pub perm_symm : {xs ys : List A} → Permᴰ xs ys → Permᴰ ys xs
  perm_symm Permᴰ.nil = Permᴰ.nil
  perm_symm (Permᴰ.cons e p) = Permᴰ.cons (sym e) (perm_symm p)
  perm_symm (Permᴰ.swap e f) = Permᴰ.swap (sym f) (sym e)
  perm_symm (Permᴰ.trans p q) = Permᴰ.trans (perm_symm q) (perm_symm p)

  pub head?-mem : (x : A) (xs : List A) → head? xs ≡ some x → Memᴰ x xs
  unfolding head?
  head?-mem x [] h = cc
  head?-mem x (y ∷ ys) h = Memᴰ.head (cc)

  pub head?-none : (x : A) (xs : List A) → head? xs ≡ none → ¬ Memᴰ x xs
  unfolding head?
  head?-none x [] h m = elim m [ ]
  head?-none x (y ∷ ys) h m = cc

pub mem-join :
    (projects : List (String × String)) (j : Job) (rs : List JobRow)
    → Memᴰ j (join projects rs)
    → Memᴰ j.row rs
unfolding join
mem-join projects j [] m = elim m [ ]
mem-join projects j (r ∷ rs) m = elim (Option-cases (lookup r.project_id projects)) [
  | inl e ↦ Memᴰ.tail (mem-join projects j rs (rw (e, join_cons) at m))
  | inr (org, e) ↦ elim (mem-cons (rw (e, join_cons) at m)) [
    | inl q ↦ Memᴰ.head (ap (λ (x : Job). x.row) q)
    | inr n ↦ Memᴰ.tail (mem-join projects j rs n)
  ]
]

module _ (before : JobRow → JobRow → Bool) where
  insert-perm : (r : JobRow) (rs : List JobRow) → Permᴰ (insert before r rs) (r ∷ rs)
  unfolding insert
  insert-perm r [] = Permᴰ.refl _
  insert-perm r (s ∷ ss) = elim (Bool-cases (before r s)) [
    | inl e ↦ rw e (Permᴰ.refl _)
    | inr e ↦ rw e (Permᴰ.trans (Permᴰ.cons refl (insert-perm r ss)) (Permᴰ.swap refl refl))
  ]

  pub order_by-perm : (rs : List JobRow) → Permᴰ (order_by before rs) rs
  unfolding order_by
  order_by-perm [] = Permᴰ.nil
  order_by-perm (r ∷ rs) =
      Permᴰ.trans (insert-perm r (order_by before rs)) (Permᴰ.cons refl (order_by-perm rs))

-- `before` puts no later row first.
pub record IsByAge (before : JobRow → JobRow → Bool) : Type 0 where
  pub forward : (r s : JobRow) → before r s ≡ true → r.created_at ≤ s.created_at
  pub backward : (r s : JobRow) → before r s ≡ false → s.created_at ≤ r.created_at

-- No row of the list is older than `r`.
abbrev Oldest : JobRow → List JobRow → Type 0
Oldest r rs = (s : JobRow) → Memᴰ s rs → r.created_at ≤ s.created_at

abbrev Leads : List JobRow → Type 0
Leads [] = Unit
Leads (r ∷ rs) = Oldest r rs × Leads rs

Oldest-cons :
    (r s : JobRow) (rs : List JobRow)
    → r.created_at ≤ s.created_at
    → Oldest r rs
    → Oldest r (s ∷ rs)
Oldest-cons r s rs h old x m = elim (mem-cons m) [
  | inl q ↦ omega (arith, ap (λ (y : JobRow). y.created_at) q)
  | inr n ↦ old x n
]

module _ (before : JobRow → JobRow → Bool) (age : IsByAge before) where
  insert-Leads : (r : JobRow) (rs : List JobRow) → Leads rs → Leads (insert before r rs)
  unfolding insert
  insert-Leads r [] l = (λ s m. elim m [ ], tt)
  insert-Leads r (s ∷ ss) (old, l) = elim (Bool-cases (before r s)) [
    | inl e ↦
        let le : r.created_at ≤ s.created_at = age.forward r s e in
        rw e (Oldest-cons r s ss le (λ x m. le_trans le (old x m)), (old, l))
    | inr e ↦ rw e (
      λ x m. Oldest-cons s r ss (age.backward r s e) old x (mem-perm (insert-perm before r ss) m),
      insert-Leads r ss l,
    )
  ]

  order_by-Leads : (rs : List JobRow) → Leads (order_by before rs)
  unfolding order_by
  order_by-Leads [] = tt
  order_by-Leads (r ∷ rs) = insert-Leads r (order_by before rs) (order_by-Leads rs)

head?-Oldest : (r : JobRow) (rs : List JobRow) → head? rs ≡ some r → Leads rs → Oldest r rs
unfolding head?
head?-Oldest r [] h l = cc
head?-Oldest r (s ∷ ss) h l =
    let e : s ≡ r = cc in
    subst (λ (y : JobRow). Oldest y (s ∷ ss)) e (Oldest-cons s s ss (omega arith) l.0)

-- `r` passes the test, stands in the table, and no row that passes is older.
pub record IsNext (p : JobRow → Bool) (rows : List JobRow) (r : JobRow) : Type 0 where
  pub passes : p r ≡ true
  pub listed : Memᴰ r rows
  pub oldest : (s : JobRow) → Memᴰ s rows → p s ≡ true → r.created_at ≤ s.created_at

module _ (before : JobRow → JobRow → Bool) (p : JobRow → Bool) {met rows : List JobRow}
    (perm : Permᴰ met rows) where
  pub first-IsNext :
      IsByAge before
      → (r : JobRow) → head? (order_by before (filter p met)) ≡ some r
      → IsNext p rows r
  first-IsNext age r e =
      let sorted = order_by before (filter p met) in
      let (h, m) =
        mem-filter p r met
          (mem-perm (order_by-perm before (filter p met)) (head?-mem r sorted e)) in
      record {
        passes = h;
        listed = mem-perm perm m;
        oldest = λ s n ps. head?-Oldest r sorted e (order_by-Leads before age (filter p met)) s (
            mem-perm (perm_symm (order_by-perm before (filter p met)))
              (filter-mem p s met ps (mem-perm (perm_symm perm) n)));
      }

  pub first-none :
      head? (order_by before (filter p met)) ≡ none → (s : JobRow) → Memᴰ s rows → p s ≡ false
  first-none e s n = elim (Bool-cases (p s)) [
    | inl ps ↦ absurd (
        head?-none s (order_by before (filter p met)) e (
          mem-perm (perm_symm (order_by-perm before (filter p met)))
            (filter-mem p s met ps (mem-perm (perm_symm perm) n))))
    | inr h ↦ h
  ]

pub by_created_at-IsByAge : IsByAge by_created_at
by_created_at-IsByAge = record { forward = λ r s h. ground arith; backward = λ r s h. ground arith }

pub by_created_at_and_id-IsByAge : IsByAge by_created_at_and_id
by_created_at_and_id-IsByAge = record {
  forward = λ r s h. ground arith;
  backward = λ r s h. ground arith;
}
