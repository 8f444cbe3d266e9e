-- ===== src/Daemon/Cleanup.antt =====
-- internal/daemon/worker_execute.go: what `executeJob` leaves of the working directory of a job.
use openenvx_cloud.Prelude.{
  ℕ, suc, ◌≡◌, refl, ◌∙◌, ◌⊎◌, String, none, some, List, Option-cases, inl, inr,
}
use openenvx_cloud.Models.{Job}
use openenvx_cloud.World.{
  Error, fault, Result, ok, err, Bucket, World, WorkDir, Env, Link, up, lost, lost_after, M,
  continue, ◌>>=◌, attempt, rewrap, rewrap_result, answer_object, object_call, host_call, pure,
  raise, wrap,
}
use openenvx_cloud.Storage.{ensure_bucket, create_unless}
use openenvx_cloud.Terraform.{Host}
use openenvx_cloud.Daemon.Execute.{execute_job, make_dir, remove_dir, in_work_dir, settled, made}

work_dir-answer_object {ℓ} :
    {A : Type ℓ} (l : Link) (r : Result A × Bucket) (w : World)
    → (answer_object l r w).1.work_dir ≡ w.work_dir
unfolding answer_object
work_dir-answer_object up r w = refl
work_dir-answer_object lost r w = refl
work_dir-answer_object lost_after r w = refl

-- From no working directory the call comes to none.
record Clears {ℓ} {A : Type ℓ} (m : M A) : Type ℓ where
  at : (w : World) → w.work_dir ≡ none → (m w).1.work_dir ≡ none

-- No directory, or what `os.RemoveAll` leaves of one.
abbrev pub IsRemoved : Host → WorkDir → Type 0
IsRemoved host d = (d ≡ none) ⊎ ((t : ℕ) × (before : WorkDir) × (d ≡ host.removed t before))

-- From no working directory the call comes to none, or to what is left of one that was removed.
record Removes {ℓ} (host : Host) {A : Type ℓ} (m : M A) : Type ℓ where
  at : (w : World) → w.work_dir ≡ none → IsRemoved host (m w).1.work_dir

module _ {ℓ κ} {host : Host} {A : Type ℓ} {B : Type κ} where
  continue-Removes :
      (r : Result A) (f : A → M B) (w : World)
      → w.work_dir ≡ none
      → ((a : A) → Removes host (f a))
      → IsRemoved host (continue r f w).1.work_dir
  unfolding continue
  continue-Removes (ok a) f w h k = (k a).at w h
  continue-Removes (err e) f w h k = inl h

  infixr 2 ◌⊳◌
  ◌⊳◌ : {m : M A} {f : A → M B} → Clears m → ((a : A) → Removes host (f a)) → Removes host (m >>= f)
  unfolding ◌>>=◌
  ◌⊳◌ {m} {f} km kf = record {
    at = λ w h. let (r, v) = m w in continue-Removes r f v (km.at w h) kf;
  }

module _ {ℓ} {A : Type ℓ} where
  Clears-rewrap : (g : Error → Error) {m : M A} → Clears m → Clears (rewrap g m)
  unfolding rewrap
  Clears-rewrap g k = record { at = λ w h. k.at w h }

  -- A call that does not touch the directory.
  Clears-ask : (f : ℕ → World → Result A) → Clears (host_call λ t w. (f t w, w))
  unfolding host_call
  Clears-ask f = record { at = λ w h. h }

module _ (env : Env) (host : Host) (url token : String) (job : Job) where
  work_dir-create_unless :
      (r : Result (Unit {0})) (w : World) → (create_unless env r w).1.work_dir ≡ w.work_dir
  unfolding create_unless rewrap object_call pure
  work_dir-create_unless (ok a) w = refl
  work_dir-create_unless (err e) w = work_dir-answer_object (env.link w.tick) _ _

  work_dir-ensure_bucket : (w : World) → (ensure_bucket env w).1.work_dir ≡ w.work_dir
  unfolding ensure_bucket attempt ◌>>=◌ continue object_call
  work_dir-ensure_bucket w =
      work_dir-create_unless _ _ ∙ work_dir-answer_object (env.link w.tick) _ _

  work_dir-settled :
      (r : Result (Unit {0})) (w : World) → (settled env host url token r w).1.work_dir ≡ w.work_dir
  unfolding settled pure raise
  work_dir-settled (ok a) w = refl
  work_dir-settled (err e) w = refl

  -- Once the job has run, or failed to, the directory is removed.
  in_dir_removes :
      (secrets : List (String × String)) (w : World)
      → IsRemoved host
          ((attempt (in_work_dir env host url token job secrets) >>= λ done.
              remove_dir env host url token >>= λ _. settled env host url token done)
            w).1.work_dir
  unfolding ◌>>=◌ attempt continue remove_dir host_call
  in_dir_removes secrets w = inr (_, _, work_dir-settled _ _)

  make_dir-made :
      (w : World)
      → host.os w.tick ≡ none
      → rewrap (wrap "mkdir workdir") (make_dir env host url token) w
        ≡ (ok tt, record w { work_dir = made w.work_dir; tick = suc w.tick })
  unfolding rewrap rewrap_result make_dir host_call
  make_dir-made w e = rw e refl

  make_dir-failed :
      (w : World) (s : String)
      → host.os w.tick ≡ some s
      → rewrap (wrap "mkdir workdir") (make_dir env host url token) w
        ≡ (err (wrap "mkdir workdir" (fault s)), record w { tick = suc w.tick })
  unfolding rewrap rewrap_result make_dir host_call
  make_dir-failed w s e = rw e refl

  dir-Removes :
      (secrets : List (String × String))
      → Removes host (
          rewrap (wrap "mkdir workdir") (make_dir env host url token) >>= λ _.
          attempt (in_work_dir env host url token job secrets) >>= λ done.
          remove_dir env host url token >>= λ _. settled env host url token done)
  unfolding ◌>>=◌ continue
  dir-Removes secrets = record {
    at = λ w h. elim (Option-cases (host.os w.tick)) [
      | inl e ↦
          rw (make_dir-made w e)
            (in_dir_removes secrets (record w { work_dir = made w.work_dir; tick = suc w.tick }))
      | inr (s, e) ↦ rw (make_dir-failed w s e) (inl h)
    ];
  }

  -- If no working directory is there before `executeJob`, then none is there after it, however it
  -- returns, or only what `os.RemoveAll`, whose error is dropped, has left of it.
  pub work_dir-execute_job :
      (w : World)
      → w.work_dir ≡ none
      → IsRemoved host (execute_job env host url token job w).1.work_dir
  unfolding execute_job
  work_dir-execute_job w h = whole.at w h
    where
      whole : Removes host (execute_job env host url token job)
      whole = Clears-rewrap _ (record { at = λ v k. work_dir-ensure_bucket v ∙ k }) ⊳ λ _.
          Clears-rewrap _ (Clears-ask _) ⊳ λ secrets. dir-Removes secrets
