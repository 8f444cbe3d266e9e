-- ===== src/World/Keeps.antt =====
-- What a call keeps of the tables and of the bucket, whatever it returns: one rule for each way to build
-- a call. An invariant `P` of the two is shared by everybody who writes them, so the rules for a
-- statement and for a request to the storage ask that the others keep it too.
use openenvx_cloud.Prelude.{ℕ, suc, ◌≡◌, refl, sym, subst, Bool, true, false, if◌then◌else◌}
use openenvx_cloud.World.{
  Error, Result, ok, err, Db, World, Env, Link, up, lost, lost_after, M, pure, raise, continue,
  ◌>>=◌, attempt, rewrap, answer, statement, within, rewrap_result, finish, transaction, Bucket,
  answer_object, object_call, host_call, look, fresh_log,
}

-- What is said of the tables and of the bucket.
abbrev pub Claim : Type 1
Claim = Db → Bucket → Type 0

-- What is said of the tables alone.
abbrev pub Tables : (Db → Type 0) → Claim
Tables P d b = P d

pub record Keeps {ℓ} {A : Type ℓ} (P : Claim) (m : M A) : Type ℓ where
  pub at : (w : World) → P w.db w.bucket → P (m w).1.db (m w).1.bucket

-- Everybody else keeps `P` of the tables, or of the bucket.
abbrev pub Stable : Env → (Db → Type 0) → Type 0
Stable env P = (t : ℕ) (d : Db) → P d → P (env.others t d)

abbrev pub StableTables : Env → Claim → Type 0
StableTables env P = (b : Bucket) → Stable env (λ d. P d b)

abbrev pub StableBucket : Env → Claim → Type 0
StableBucket env P = (t : ℕ) (d : Db) (b : Bucket) → P d b → P d (env.others_bucket t b)

module _ {ℓ} {A : Type ℓ} (P : Claim) where
  answer-keeps :
      (l : Link) (r : Result A × Db) (w : World)
      → P w.db w.bucket
      → P r.1 w.bucket
      → P (answer l r w).1.db (answer l r w).1.bucket
  unfolding answer
  answer-keeps up r w h k = k
  answer-keeps lost r w h k = h
  answer-keeps lost_after r w h k = k

  answer_object-keeps :
      (l : Link) (r : Result A × Bucket) (w : World)
      → P w.db w.bucket
      → P w.db r.1
      → P (answer_object l r w).1.db (answer_object l r w).1.bucket
  unfolding answer_object
  answer_object-keeps up r w h k = k
  answer_object-keeps lost r w h k = h
  answer_object-keeps lost_after r w h k = k

  finish-keeps :
      (g q : Error → Error) (l l' : Link) (r : Result A × Db) (w : World)
      → P w.db w.bucket
      → P r.1 w.bucket
      → let v = (finish g (rewrap_result q (within l r)) l' w).1 in P v.db v.bucket
  unfolding finish within rewrap_result
  finish-keeps g q up up (ok a, d) w h k = k
  finish-keeps g q up lost (ok a, d) w h k = h
  finish-keeps g q up lost_after (ok a, d) w h k = k
  finish-keeps g q up _ (err e, d) w h k = h
  finish-keeps g q lost _ _ w h k = h
  finish-keeps g q lost_after _ _ w h k = h

module _ {ℓ} {A : Type ℓ} {P : Claim} where
  pub Keeps-pure : (a : A) → Keeps P (pure a)
  unfolding pure
  Keeps-pure a = record { at = λ w h. h }

  pub Keeps-raise : (e : Error) → Keeps P (raise {A = A} e)
  unfolding raise
  Keeps-raise e = record { at = λ w h. h }

  pub Keeps-attempt : (m : M A) → Keeps P m → Keeps P (attempt m)
  unfolding attempt
  Keeps-attempt m k = record { at = λ w h. k.at w h }

  pub Keeps-rewrap : (f : Error → Error) (m : M A) → Keeps P m → Keeps P (rewrap f m)
  unfolding rewrap
  Keeps-rewrap f m k = record { at = λ w h. k.at w h }

  pub Keeps-if : (b : Bool) (m n : M A) → Keeps P m → Keeps P n → Keeps P (if b then m else n)
  Keeps-if true m n km kn = km
  Keeps-if false m n km kn = kn

  pub Keeps-look : (f : World → A) → Keeps P (look f)
  unfolding look
  Keeps-look f = record { at = λ w h. h }

  -- What runs on the host leaves the bucket as it is.
  pub Keeps-host_call :
      (f : ℕ → World → Result A × World)
      → ((t : ℕ) (w : World) → (f t w).1.bucket ≡ w.bucket)
      → Keeps P (host_call f)
  unfolding host_call
  Keeps-host_call f same = record { at = λ w h. subst (P w.db) (sym (same w.tick w)) h }

  pub Keeps-object_call :
      (env : Env) (f : ℕ → Bucket → Result A × Bucket)
      → StableBucket env P
      → ((t : ℕ) (d : Db) (b : Bucket) → P d b → P d (f t b).1)
      → Keeps P (object_call env f)
  unfolding object_call
  Keeps-object_call env f stable k = record {
    at = λ w h.
        let b = env.others_bucket w.tick w.bucket in
        answer_object-keeps P (env.link w.tick) (f w.tick b)
          (record w { bucket = b; tick = suc w.tick }) (stable w.tick w.db w.bucket h)
          (k w.tick w.db b (stable w.tick w.db w.bucket h));
  }

  -- The first branch may use that the test passed.
  pub Keeps-if_true :
      (b : Bool) (m n : M A) → (b ≡ true → Keeps P m) → Keeps P n → Keeps P (if b then m else n)
  Keeps-if_true true m n km kn = km refl
  Keeps-if_true false m n km kn = kn

  pub Keeps-if_false :
      (b : Bool) (m n : M A) → Keeps P m → (b ≡ false → Keeps P n) → Keeps P (if b then m else n)
  Keeps-if_false true m n km kn = km
  Keeps-if_false false m n km kn = kn refl

  pub Keeps-statement :
      (env : Env) (f : ℕ → Db → Result A × Db)
      → StableTables env P
      → ((t : ℕ) (d : Db) (b : Bucket) → P d b → P (f t d).1 b)
      → Keeps P (statement env f)
  unfolding statement
  Keeps-statement env f stable k = record {
    at = λ w h.
        let d = env.others w.tick w.db in
        answer-keeps P (env.link w.tick) (f w.tick d) (record w { db = d; tick = suc w.tick })
          (stable w.bucket w.tick w.db h) (k w.tick d w.bucket (stable w.bucket w.tick w.db h));
  }

module _ {ℓ} {A : Type ℓ} {P : Claim} where
  begun-keeps :
      (env : Env) (b q c : Error → Error) (f : ℕ → Db → Result A × Db) (l : Link) (w : World)
      → env.link w.tick ≡ l
      → StableTables env P
      → ((t : ℕ) (d : Db) (o : Bucket) → P d o → P (f t d).1 o)
      → P w.db w.bucket
      → let v = (transaction env b q c f w).1 in P v.db v.bucket
  unfolding transaction
  begun-keeps env b q c f up w e stable k h =
      let t = suc w.tick in
      let d = env.others t w.db in
      rw (e, transaction)
        (finish-keeps P c q (env.link t) (env.link (suc t)) (f t d)
          (record w { db = d; tick = suc t }) (stable w.bucket t w.db h)
          (k t d w.bucket (stable w.bucket t w.db h)))
  begun-keeps env b q c f lost w e stable k h = rw (e, transaction) h
  begun-keeps env b q c f lost_after w e stable k h = rw (e, transaction) h

  pub Keeps-transaction :
      (env : Env) (b q c : Error → Error) (f : ℕ → Db → Result A × Db)
      → StableTables env P
      → ((t : ℕ) (d : Db) (o : Bucket) → P d o → P (f t d).1 o)
      → Keeps P (transaction env b q c f)
  Keeps-transaction env b q c f stable k = record {
    at = λ w h. begun-keeps env b q c f (env.link w.tick) w refl stable k h;
  }

module _ {ℓ κ} {A : Type ℓ} {B : Type κ} {P : Claim} where
  pub continue-keeps :
      (r : Result A) (f : A → M B) (w : World)
      → ((a : A) → r ≡ ok a → Keeps P (f a))
      → P w.db w.bucket
      → P (continue r f w).1.db (continue r f w).1.bucket
  unfolding continue
  continue-keeps (ok a) f w k h = (k a refl).at w h
  continue-keeps (err e) f w k h = h

  pub Keeps-bind :
      (m : M A) (f : A → M B) → Keeps P m → ((a : A) → Keeps P (f a)) → Keeps P (m >>= f)
  unfolding ◌>>=◌
  Keeps-bind m f km kf = record {
    at = λ w h. let (r, w') = m w in continue-keeps r f w' (λ a _. kf a) (km.at w h);
  }

module _ {ℓ κ} {A : Type ℓ} {B : Type κ} {P : Claim} where
  infixr 2 ◌⊳◌
  -- `Keeps-bind` between the proofs, as a `do` block stands between the calls.
  pub ◌⊳◌ : {m : M A} {f : A → M B} → Keeps P m → ((a : A) → Keeps P (f a)) → Keeps P (m >>= f)
  ◌⊳◌ {m} {f} km kf = Keeps-bind m f km kf

pub Keeps-fresh_log : {P : Claim} → Keeps P fresh_log
unfolding fresh_log
Keeps-fresh_log = record { at = λ w h. h }

pub ruleset keeps_rules = (
  Keeps-pure, Keeps-raise, Keeps-attempt, Keeps-rewrap, Keeps-if, Keeps-look, Keeps-fresh_log,
  Keeps-bind,
)
