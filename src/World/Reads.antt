-- ===== src/World/Reads.antt =====
-- A call that keeps `P` and whose answer, if there is one, is known to meet `Q`: what a caller learns
-- before it goes on.
use openenvx_cloud.Prelude.{ℕ, suc, ◌≡◌, refl, sym, subst}
use openenvx_cloud.World.{
  Error, Result, ok, err, Db, World, Env, Link, up, lost, lost_after, M, continue, ◌>>=◌, attempt,
  rewrap, answer, statement, within, rewrap_result, finish, transaction, Bucket,
}
use openenvx_cloud.World.Keeps.{
  Claim, StableTables, Keeps, Keeps-rewrap, Keeps-statement, Keeps-transaction, continue-keeps,
}

pub record Reads {A : Type 0} (P : Claim) (m : M A) (Q : A → Type 0) : Type 0 where
  pub keeps : Keeps P m
  pub learns : (w : World) → P w.db w.bucket → (a : A) → (m w).0 ≡ ok a → Q a

module _ {A : Type 0} {Q : A → Type 0} where
  answer-learns :
      (l : Link) (r : Result A × Db) (w : World)
      → ((a : A) → r.0 ≡ ok a → Q a)
      → (a : A) → (answer l r w).0 ≡ ok a
      → Q a
  unfolding answer
  answer-learns up r w k a e = k a e
  answer-learns lost r w k a e = cc
  answer-learns lost_after r w k a e = cc

  rewrapped :
      (f : Error → Error) (r : Result A)
      → ((a : A) → r ≡ ok a → Q a)
      → (a : A) → rewrap_result f r ≡ ok a
      → Q a
  unfolding rewrap_result
  rewrapped f (ok b) k a e = k a e
  rewrapped f (err x) k a e = cc

  finish-learns :
      (g q : Error → Error) (l l' : Link) (r : Result A × Db) (w : World)
      → ((a : A) → r.0 ≡ ok a → Q a)
      → (a : A) → (finish g (rewrap_result q (within l r)) l' w).0 ≡ ok a
      → Q a
  unfolding finish within rewrap_result
  finish-learns g q up up (ok b, d) w k a e = k a e
  finish-learns g q up lost (ok b, d) w k a e = cc
  finish-learns g q up lost_after (ok b, d) w k a e = cc
  finish-learns g q up _ (err x, d) w k a e = cc
  finish-learns g q lost _ _ w k a e = cc
  finish-learns g q lost_after _ _ w k a e = cc

  begun-learns :
      (env : Env) (b q c : Error → Error) (f : ℕ → Db → Result A × Db) (l : Link) (w : World)
      → env.link w.tick ≡ l
      → ((d : Db) → d ≡ env.others (suc w.tick) w.db → (a : A) → (f (suc w.tick) d).0 ≡ ok a → Q a)
      → (a : A) → (transaction env b q c f w).0 ≡ ok a
      → Q a
  unfolding transaction
  begun-learns env b q c f up w e k a h =
      let t = suc w.tick in
      let d = env.others t w.db in
      finish-learns c q (env.link t) (env.link (suc t)) (f t d) (record w { db = d; tick = suc t })
        (k d refl) a (rw (e, transaction) at h)
  begun-learns env b q c f lost w e k a h = absurd (cc (rw (e, transaction) at h))
  begun-learns env b q c f lost_after w e k a h = absurd (cc (rw (e, transaction) at h))

module _ {A : Type 0} {P : Claim} {Q : A → Type 0} where
  pub Reads-rewrap : (f : Error → Error) (m : M A) → Reads P m Q → Reads P (rewrap f m) Q
  unfolding rewrap
  Reads-rewrap f m r = record {
    keeps = Keeps-rewrap f m r.keeps;
    learns = λ w p. rewrapped f (m w).0 (r.learns w p);
  }

  pub Reads-statement :
      (env : Env) (f : ℕ → Db → Result A × Db)
      → StableTables env P
      → ((t : ℕ) (d : Db) (b : Bucket) → P d b → P (f t d).1 b)
      → ((t : ℕ) (d : Db) (b : Bucket) → P d b → (a : A) → (f t d).0 ≡ ok a → Q a)
      → Reads P (statement env f) Q
  unfolding statement
  Reads-statement env f stable k q = record {
    keeps = Keeps-statement env f stable k;
    learns = λ w p.
        let d = env.others w.tick w.db in
        answer-learns (env.link w.tick) (f w.tick d) (record w { db = d; tick = suc w.tick })
          (q w.tick d w.bucket (stable w.bucket w.tick w.db p));
  }

  pub Reads-transaction :
      (env : Env) (b q c : Error → Error) (f : ℕ → Db → Result A × Db)
      → StableTables env P
      → ((t : ℕ) (d : Db) (o : Bucket) → P d o → P (f t d).1 o)
      → ((t : ℕ) (d : Db) (o : Bucket) → P d o → (a : A) → (f t d).0 ≡ ok a → Q a)
      → Reads P (transaction env b q c f) Q
  Reads-transaction env b q c f stable k learn = record {
    keeps = Keeps-transaction env b q c f stable k;
    learns = λ w p. begun-learns env b q c f (env.link w.tick) w refl λ d e.
        learn (suc w.tick) d w.bucket
          (subst (λ x. P x w.bucket) (sym e) (stable w.bucket (suc w.tick) w.db p));
  }

module _ {A B : Type 0} {P : Claim} {Q : A → Type 0} where
  infixr 2 ◌⊵◌ ◌⊵?◌
  -- The caller goes on with an answer, or with whatever came back.
  pub ◌⊵◌ :
      {m : M A} {f : A → M B} → Reads P m Q → ((a : A) → Q a → Keeps P (f a)) → Keeps P (m >>= f)
  unfolding ◌>>=◌
  ◌⊵◌ {m} {f} r k = record {
    at = λ w p.
        let (x, v) = m w in continue-keeps x f v (λ a e. k a (r.learns w p a e)) (r.keeps.at w p);
  }

  pub ◌⊵?◌ :
      {m : M A} {f : Result A → M B}
      → Reads P m Q
      → ((x : Result A) → ((a : A) → x ≡ ok a → Q a) → Keeps P (f x))
      → Keeps P (attempt m >>= f)
  unfolding ◌>>=◌ attempt continue
  ◌⊵?◌ {m} {f} r k = record {
    at = λ w p. let (x, v) = m w in (k x (r.learns w p)).at v (r.keeps.at w p);
  }
