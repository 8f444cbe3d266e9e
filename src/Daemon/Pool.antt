-- ===== src/Daemon/Pool.antt =====
-- internal/daemon/worker.go and daemon.go: the goroutines of the daemon. `WorkerPool.Start` launches the
-- workers, each of which counts in the pool's WaitGroup until it returns; `Daemon.Start` serves until its
-- context is done, and its deferred `Stop` waits for the count to be zero.
pub mod Counting
pub mod Draining
use openenvx_cloud.Prelude.{ℕ, suc, ◌-◌, ◌≡◌, Bool, true, false, List, [], ◌∷◌}
use openenvx_cloud.Models.{Job}
use openenvx_cloud.World.{Result, ok, err}

-- Where a worker stands: in its `select`, in `processJob`, or returned.
pub data Phase : Type 0 where
  ready : Phase
  busy : Job → Phase
  stopped : Phase

-- Where `Daemon.Start` stands: before it makes the directory of the plugin cache, in the loop of
-- `WorkerPool.Start` with so many workers to launch, in its own loop, in the deferred `Stop`, returned,
-- or returned with the error of making the directory.
pub data Stage : Type 0 where
  preparing : Stage
  launching : ℕ → Stage
  serving : Stage
  stopping : Stage
  returned : Stage
  failed : Stage

pub record Pool : Type 0 where
  pub workers : ℕ
  pub wg : ℕ
  pub phases : List Phase  -- the workers launched so far, the last one first
  pub done : Bool  -- whether the context is done
  pub stage : Stage

unfoldable pub new_worker_pool : ℕ → Pool
new_worker_pool n = record { workers = n; wg = 0; phases = []; done = false; stage = preparing }

-- What a worker does with the answer of `ClaimNextJob`: whatever the error, it goes on.
unfoldable pub claimed : Result Job → Phase
claimed (err e) = ready
claimed (ok job) = busy job

-- One entry of a list moves.
pub data Moves (R : Phase → Phase → Type 0) : List Phase → List Phase → Type 0 where
  here : {a b : Phase} {ps : List Phase} → R a b → Moves R (a ∷ ps) (b ∷ ps)
  there : {a : Phase} {ps bs : List Phase} → Moves R ps bs → Moves R (a ∷ ps) (a ∷ bs)

-- `case <-ctx.Done(): return`
pub data Shutdown : Phase → Phase → Type 0 where
  shut_down : Shutdown ready stopped

-- `answers done r` says that `ClaimNextJob` can answer `r` while the context is done, or is not.
module _ (answers : Bool → Result Job → Type 0) where
  -- The ticker's case of the `select`, and the return of `processJob`.
  pub data Works (done : Bool) : Phase → Phase → Type 0 where
    tick : (r : Result Job) → answers done r → Works done ready (claimed r)
    process : {job : Job} → Works done (busy job) ready

  -- One step of a goroutine. The `select` takes either case when both can go on.
  pub data Step (p : Pool) : Pool → Type 0 where
    cancel : Step p (record p { done = true })
    prepared : p.stage ≡ preparing → Step p (record p { stage = launching p.workers })
    unprepared : p.stage ≡ preparing → Step p (record p { stage = failed })
    launch :
        {k : ℕ}
        → p.stage ≡ launching (suc k)
        → Step p (record p { wg = suc p.wg; phases = ready ∷ p.phases; stage = launching k })
    -- After the last worker the stale jobs are recovered.
    launched : p.stage ≡ launching 0 → Step p (record p { stage = serving })
    work : {bs : List Phase} → Moves (Works p.done) p.phases bs → Step p (record p { phases = bs })
    leave :
        {bs : List Phase}
        → p.done ≡ true
        → Moves Shutdown p.phases bs
        → Step p (record p { wg = p.wg - 1; phases = bs })
    clean : p.stage ≡ serving → Step p p
    stop : p.stage ≡ serving → p.done ≡ true → Step p (record p { stage = stopping })
    waited : p.stage ≡ stopping → p.wg ≡ 0 → Step p (record p { stage = returned })

  pub data Reach (n : ℕ) : Pool → Type 0 where
    start : Reach n (new_worker_pool n)
    later : {p q : Pool} → Reach n p → Step p q → Reach n q

  -- So many steps.
  pub data Steps : ℕ → Pool → Pool → Type 0 where
    stay : {p : Pool} → Steps 0 p p
    then : {k : ℕ} {p q r : Pool} → Step p q → Steps k q r → Steps (suc k) p r
