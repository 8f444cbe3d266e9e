-- ===== src/World/Succeeds.antt =====
-- Calls that are sure to succeed: from every world with the first property they return no error, in a
-- world with the second one.
use openenvx_cloud.Prelude.{ℕ, suc, ◌≡◌, refl}
use openenvx_cloud.World.Keeps.{Tables, Keeps}
use openenvx_cloud.World.{
  Error, Result, ok, Db, Bucket, World, Env, up, M, pure, continue, attempt, ◌>>=◌, rewrap,
  rewrap_result, statement, answer, object_call, answer_object, host_call,
}

pub record Succeeds {A : Type 0} (P : World → Type 0) (m : M A) (Q : A → World → Type 0)
    : Type 0 where
  pub at : (w : World) → P w → (a : A) × ((m w).0 ≡ ok a) × Q a (m w).1

module _ {A B : Type 0} {P : World → Type 0} {Q : A → World → Type 0} {R : B → World → Type 0} where
  pub Succeeds-bind :
      {m : M A} {f : A → M B}
      → Succeeds P m Q
      → ((a : A) → Succeeds (Q a) (f a) R)
      → Succeeds P (m >>= f) R
  unfolding ◌>>=◌ continue
  Succeeds-bind {m} {f} s k = record {
    at = λ w p. let (a, e, q) = s.at w p in rw (e, continue) ((k a).at (m w).1 q);
  }

  -- A call whose error would be looked at has none.
  pub Succeeds-attempt :
      {m : M A} (f : Result A → M B)
      → Succeeds P m Q
      → ((a : A) → Succeeds (Q a) (f (ok a)) R)
      → Succeeds P (attempt m >>= f) R
  unfolding ◌>>=◌ continue attempt
  Succeeds-attempt {m} f s k = record {
    at = λ w p. let (a, e, q) = s.at w p in rw e ((k a).at (m w).1 q);
  }

module _ {A : Type 0} {P : World → Type 0} {Q : A → World → Type 0} where
  pub Succeeds-pure : (a : A) → ((w : World) → P w → Q a w) → Succeeds P (pure a) Q
  unfolding pure
  Succeeds-pure a k = record { at = λ w p. (a, refl, k w p) }

  -- What is known before the call.
  pub Succeeds-fact : {F : Type 0} {m : M A} → (F → Succeeds P m Q) → Succeeds (λ w. F × P w) m Q
  Succeeds-fact k = record { at = λ w (f, p). (k f).at w p }

  pub Succeeds-weaken :
      {R : A → World → Type 0} {m : M A}
      → Succeeds P m Q
      → ((a : A) (w : World) → Q a w → R a w)
      → Succeeds P m R
  Succeeds-weaken s k = record { at = λ w p. let (a, e, q) = s.at w p in (a, e, k a _ q) }

  pub Succeeds-rewrap : (g : Error → Error) {m : M A} → Succeeds P m Q → Succeeds P (rewrap g m) Q
  unfolding rewrap rewrap_result
  Succeeds-rewrap g {m} s = record { at = λ w p. let (a, e, q) = s.at w p in (a, rw e refl, q) }

  pub Succeeds-host_call :
      (f : ℕ → World → Result A × World)
      → ((w : World)
          → P w
          → (a : A) × ((f w.tick w).0 ≡ ok a)
            × Q a (record (f w.tick w).1 { db = w.db; tick = suc w.tick }))
      → Succeeds P (host_call f) Q
  unfolding host_call
  Succeeds-host_call f k = record { at = k }

module _ {A : Type 0} {P : World → Type 0} {Q : A → World → Type 0} (env : Env)
    (answered : (t : ℕ) → env.link t ≡ up) where
  pub Succeeds-statement :
      (f : ℕ → Db → Result A × Db)
      → ((w : World)
          → P w
          → let d = env.others w.tick w.db in
            (a : A) × ((f w.tick d).0 ≡ ok a)
            × Q a (record w { db = (f w.tick d).1; tick = suc w.tick }))
      → Succeeds P (statement env f) Q
  unfolding statement answer
  Succeeds-statement f k = record { at = λ w p. rw (answered w.tick, answer) (k w p) }

  pub Succeeds-object_call :
      (f : ℕ → Bucket → Result A × Bucket)
      → ((w : World)
          → P w
          → let b = env.others_bucket w.tick w.bucket in
            (a : A) × ((f w.tick b).0 ≡ ok a)
            × Q a (record w { bucket = (f w.tick b).1; tick = suc w.tick }))
      → Succeeds P (object_call env f) Q
  unfolding object_call answer_object
  Succeeds-object_call f k = record { at = λ w p. rw (answered w.tick, answer_object) (k w p) }

-- Calls after which, from every world with the property, something holds of the tables.
pub record Leads {A : Type 0} (P : World → Type 0) (m : M A) (K : Db → Type 0) : Type 0 where
  pub at : (w : World) → P w → K (m w).1.db

module _ {A : Type 0} {P : World → Type 0} {K : Db → Type 0} where
  pub Leads-Keeps : {m : M A} → ((w : World) → P w → K w.db) → Keeps (Tables K) m → Leads P m K
  Leads-Keeps k keeps = record { at = λ w p. keeps.at w (k w p) }

module _ {A B : Type 0} {P : World → Type 0} {K : Db → Type 0} where
  pub Leads-bind :
      {Q : A → World → Type 0} {m : M A} {f : A → M B}
      → Succeeds P m Q
      → ((a : A) → Leads (Q a) (f a) K)
      → Leads P (m >>= f) K
  unfolding ◌>>=◌ continue
  Leads-bind {m} {f} s k = record {
    at = λ w p. let (a, e, q) = s.at w p in rw (e, continue) ((k a).at (m w).1 q);
  }

  -- After a call that succeeds, though its error would be looked at.
  pub Leads-attempt :
      {Q : A → World → Type 0} {m : M A} (f : Result A → M B)
      → Succeeds P m Q
      → ((a : A) → Leads (Q a) (f (ok a)) K)
      → Leads P (attempt m >>= f) K
  unfolding ◌>>=◌ continue attempt
  Leads-attempt {m} f s k = record {
    at = λ w p. let (a, e, q) = s.at w p in rw e ((k a).at (m w).1 q);
  }

  -- What follows keeps it, however the call ends.
  pub Leads-then :
      {m : M A} (f : Result A → M B)
      → Leads P m K
      → ((r : Result A) → Keeps (Tables K) (f r))
      → Leads P (attempt m >>= f) K
  unfolding ◌>>=◌ continue attempt
  Leads-then {m} f l k = record { at = λ w p. (k (m w).0).at (m w).1 (l.at w p) }
