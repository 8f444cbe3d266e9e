-- ===== src/World/Ends.antt =====
-- What holds of the tables whenever a call returns without an error: only its last step counts.
use openenvx_cloud.Prelude.{ℕ, ◌≡◌}
use openenvx_cloud.World.{
  Error, Result, ok, err, Db, World, Env, Link, up, lost, lost_after, M, continue, ◌>>=◌, rewrap,
  rewrap_result, statement, answer,
}

pub record Ends {ℓ} {A : Type ℓ} (Q : Db → Type 0) (m : M A) : Type ℓ where
  pub at : (w : World) (a : A) → (m w).0 ≡ ok a → Q (m w).1.db

module _ {ℓ κ} {A : Type ℓ} {B : Type κ} {Q : Db → Type 0} where
  continue-ends :
      (r : Result A) (f : A → M B) (w : World) (b : B)
      → ((a : A) → Ends Q (f a))
      → (continue r f w).0 ≡ ok b
      → Q (continue r f w).1.db
  unfolding continue
  continue-ends (ok a) f w b k e = (k a).at w b e
  continue-ends (err x) f w b k e = cc

  pub Ends-bind : (m : M A) {f : A → M B} → ((a : A) → Ends Q (f a)) → Ends Q (m >>= f)
  unfolding ◌>>=◌
  Ends-bind m {f} k = record { at = λ w b e. let (r, w') = m w in continue-ends r f w' b k e }

module _ {ℓ} {A : Type ℓ} where
  rewrap_result-ok :
      (g : Error → Error) (r : Result A) (a : A) → rewrap_result g r ≡ ok a → r ≡ ok a
  unfolding rewrap_result
  rewrap_result-ok g (ok b) a e = e
  rewrap_result-ok g (err x) a e = cc

module _ {ℓ} {A : Type ℓ} (Q : Db → Type 0) where
  answer-ends :
      (l : Link) (r : Result A × Db) (w : World) (a : A)
      → (r.0 ≡ ok a → Q r.1)
      → (answer l r w).0 ≡ ok a
      → Q (answer l r w).1.db
  unfolding answer
  answer-ends up r w a k e = k e
  answer-ends lost r w a k e = cc
  answer-ends lost_after r w a k e = cc

module _ {ℓ} {A : Type ℓ} {Q : Db → Type 0} where
  pub Ends-rewrap : (g : Error → Error) {m : M A} → Ends Q m → Ends Q (rewrap g m)
  unfolding rewrap
  Ends-rewrap g {m} k = record { at = λ w a e. k.at w a (rewrap_result-ok g (m w).0 a e) }

  pub Ends-statement :
      (env : Env) (f : ℕ → Db → Result A × Db)
      → ((t : ℕ) (d : Db) (a : A) → (f t d).0 ≡ ok a → Q (f t d).1)
      → Ends Q (statement env f)
  unfolding statement
  Ends-statement env f k = record {
    at = λ w a e. answer-ends Q (env.link w.tick) _ _ a (k w.tick (env.others w.tick w.db) a) e;
  }
