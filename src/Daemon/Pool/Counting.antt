-- ===== src/Daemon/Pool/Counting.antt =====
-- The WaitGroup counts the workers that have not returned.
use openenvx_cloud.Prelude.{
  ℕ, suc, ◌+◌, ◌-◌, ◌≡◌, refl, Bool, true, false, List, [], ◌∷◌, arith, length, All,
}
use openenvx_cloud.Models.{Job}
use openenvx_cloud.World.{Result, ok, err}
use openenvx_cloud.Daemon.Pool.{
  Phase, ready, busy, stopped, Stage, preparing, launching, serving, stopping, returned, failed,
  Pool, new_worker_pool, claimed, Moves, here, there, Shutdown, shut_down, Works, tick, process,
  Step, cancel, prepared, unprepared, launch, launched, work, leave, clean, stop, waited, Reach,
  start, later,
}

abbrev pub live : Phase → ℕ
live stopped = 0
live _ = 1

abbrev pub count : List Phase → ℕ
count [] = 0
count (p ∷ ps) = live p + count ps

abbrev pub to_launch : ℕ → Stage → ℕ
to_launch n preparing = n
to_launch n failed = n
to_launch n (launching k) = k
to_launch n _ = 0

-- Whether `Daemon.Start` has left its loop.
abbrev pub has_left : Stage → Bool
has_left stopping = true
has_left returned = true
has_left _ = false

abbrev pub waiting : Stage → ℕ → ℕ
waiting returned wg = wg
waiting _ wg = 0

pub record IsCounted (n : ℕ) (p : Pool) : Type 0 where
  pub counted : p.wg ≡ count p.phases
  pub all_launched : length p.phases + to_launch n p.stage ≡ n
  pub same_workers : p.workers ≡ n
  pub left_done : has_left p.stage ≡ true → p.done ≡ true
  pub returned_none : waiting p.stage p.wg ≡ 0

none_live : (ps : List Phase) → count ps ≡ 0 → All (λ phase. phase ≡ stopped) ps
none_live [] e = tt
none_live (stopped ∷ ps) e = (refl, none_live ps (omega (arith, e)))
none_live (ready ∷ ps) e = absurd (omega (arith, e))
none_live (busy job ∷ ps) e = absurd (omega (arith, e))

waiting_pred : (s : Stage) (wg : ℕ) → waiting s wg ≡ 0 → waiting s (wg - 1) ≡ 0
waiting_pred (launching k) wg e = refl
waiting_pred preparing wg e = refl
waiting_pred failed wg e = refl
waiting_pred serving wg e = refl
waiting_pred stopping wg e = refl
waiting_pred returned wg e = omega (arith, e)

module _ {R : Phase → Phase → Type 0} where
  pub Moves-length : {ps bs : List Phase} → Moves R ps bs → length bs ≡ length ps
  Moves-length (here m) = refl
  Moves-length (there ms) = ground (arith, Moves-length ms)

Shutdown-count : {ps bs : List Phase} → Moves Shutdown ps bs → count ps ≡ suc (count bs)
Shutdown-count (here shut_down) = omega arith
Shutdown-count (there ms) = ground (arith, Shutdown-count ms)

live-claimed : (r : Result Job) → live (claimed r) ≡ 1
unfolding claimed
live-claimed (ok job) = refl
live-claimed (err e) = refl

module _ (answers : Bool → Result Job → Type 0) where
  Works-count :
      {done : Bool} {ps bs : List Phase} → Moves (Works answers done) ps bs → count bs ≡ count ps
  Works-count (here (tick r a)) = ground (arith, live-claimed r)
  Works-count (here process) = refl
  Works-count (there ms) = ground (arith, Works-count ms)

  pub step-IsCounted : {n : ℕ} {p q : Pool} → IsCounted n p → Step answers p q → IsCounted n q
  step-IsCounted c cancel = record {
    counted = c.counted;
    all_launched = c.all_launched;
    same_workers = c.same_workers;
    left_done = λ _. refl;
    returned_none = c.returned_none;
  }
  step-IsCounted c (prepared e) = record {
    counted = c.counted;
    all_launched = ground (arith, c.all_launched, c.same_workers, e);
    same_workers = c.same_workers;
    left_done = λ h. absurd cc;
    returned_none = refl;
  }
  step-IsCounted c (unprepared e) = record {
    counted = c.counted;
    all_launched = ground (arith, c.all_launched, e);
    same_workers = c.same_workers;
    left_done = λ h. absurd cc;
    returned_none = refl;
  }
  step-IsCounted c (launch e) = record {
    counted = ground (arith, c.counted);
    all_launched = ground (arith, c.all_launched, e);
    same_workers = c.same_workers;
    left_done = λ h. absurd cc;
    returned_none = refl;
  }
  step-IsCounted c (launched e) = record {
    counted = c.counted;
    all_launched = ground (arith, c.all_launched, e);
    same_workers = c.same_workers;
    left_done = λ h. absurd cc;
    returned_none = refl;
  }
  step-IsCounted c (work ms) = record {
    counted = ground (arith, c.counted, Works-count ms);
    all_launched = ground (arith, c.all_launched, Moves-length ms);
    same_workers = c.same_workers;
    left_done = c.left_done;
    returned_none = c.returned_none;
  }
  step-IsCounted c (leave d ms) = record {
    counted = ground (arith, c.counted, Shutdown-count ms);
    all_launched = ground (arith, c.all_launched, Moves-length ms);
    same_workers = c.same_workers;
    left_done = λ _. d;
    returned_none = waiting_pred _ _ c.returned_none;
  }
  step-IsCounted c (clean e) = c
  step-IsCounted c (stop e d) = record {
    counted = c.counted;
    all_launched = ground (arith, c.all_launched, e);
    same_workers = c.same_workers;
    left_done = λ _. d;
    returned_none = refl;
  }
  step-IsCounted c (waited e z) = record {
    counted = c.counted;
    all_launched = ground (arith, c.all_launched, e);
    same_workers = c.same_workers;
    left_done = λ h. c.left_done (rw e refl);
    returned_none = z;
  }

  start-IsCounted : (n : ℕ) → IsCounted n (new_worker_pool n)
  unfolding new_worker_pool
  start-IsCounted n = record {
    counted = refl;
    all_launched = omega arith;
    same_workers = refl;
    left_done = λ h. absurd cc;
    returned_none = refl;
  }

  pub reach-IsCounted : {n : ℕ} {p : Pool} → Reach answers n p → IsCounted n p
  reach-IsCounted {n} start = start-IsCounted n
  reach-IsCounted (later r s) = step-IsCounted (reach-IsCounted r) s

  -- Unless it could not make the directory of the plugin cache, `Daemon.Start` returns only once its
  -- context is done, all the workers of the pool were launched and each of them has returned: no job is
  -- being processed any more.
  pub returned-none_live :
      (n : ℕ) (p : Pool)
      → Reach answers n p
      → p.stage ≡ returned
      → (p.done ≡ true) × (length p.phases ≡ n) × All (λ phase. phase ≡ stopped) p.phases
  returned-none_live n p r e =
      let c = reach-IsCounted r in
      (
        c.left_done (rw e refl),
        ground (arith, c.all_launched, e),
        none_live p.phases (ground (arith, c.counted, c.returned_none, e)),
      )
