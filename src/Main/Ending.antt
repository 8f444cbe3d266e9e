-- ===== src/Main/Ending.antt =====
-- cmd/orchestrator/main.go: the goroutines of `main` from the start of the daemon on. One waits for a
-- signal, cancels the context and shuts the HTTP server down; one serves HTTP; `main` itself runs
-- `Daemon.Start` and returns after it, which ends the process with all its goroutines.
pub mod Laws
use openenvx_cloud.Prelude.{ℕ, suc, ◌≡◌, Bool, true, false, String, Option, none, some}
use openenvx_cloud.Models.{Job}
use openenvx_cloud.World.{Result}
use openenvx_cloud.Daemon.Pool
use openenvx_cloud.Daemon.Pool.{Pool, new_worker_pool}

-- Where the goroutine of the signal stands: at `<-sigChan`, before `Shutdown`, in it, or at its end.
pub data Watcher : Type 0 where
  waiting cancelled shutting_down ended : Watcher

-- Whether `ListenAndServe` accepts connections, or has returned `ErrServerClosed`.
pub data Listener : Type 0 where
  listening closed : Listener

-- How the process ends: with its last log line, or by `logger.Fatal`.
pub data Outcome : Type 0 where
  stopped : Outcome
  died : String → Outcome

pub record Program : Type 0 where
  pub daemon : Pool
  pub watcher : Watcher
  pub listener : Listener
  pub requests : ℕ  -- the requests that are being answered and hold no connection to the database
  pub querying : ℕ  -- those that hold one
  pub outcome : Option Outcome

unfoldable pub launched : ℕ → Program
launched n = record {
  daemon = new_worker_pool n;
  watcher = waiting;
  listener = listening;
  requests = 0;
  querying = 0;
  outcome = none;
}

-- `answers` is what `ClaimNextJob` can answer, as for the pool.
module _ (answers : Bool → Result Job → Type 0) where
  pub data Step (s : Program) : Program → Type 0 where
    -- A signal, and `cancel()`.
    signal :
        s.watcher ≡ waiting
        → Step s (record s { watcher = cancelled; daemon = record s.daemon { done = true } })
    -- `Shutdown` closes the listeners at once, and then waits until no request is being answered or
    -- its five seconds are over.
    shut_down :
        s.watcher ≡ cancelled → Step s (record s { watcher = shutting_down; listener = closed })
    idle :
        s.watcher ≡ shutting_down
        → s.requests ≡ 0
        → s.querying ≡ 0
        → Step s (record s { watcher = ended })
    timed_out : s.watcher ≡ shutting_down → Step s (record s { watcher = ended })
    accept : s.listener ≡ listening → Step s (record s { requests = suc s.requests })
    answer : {k : ℕ} → s.requests ≡ suc k → Step s (record s { requests = k })
    acquire :
        {k : ℕ} → s.requests ≡ suc k → Step s (record s { requests = k; querying = suc s.querying })
    release :
        {k : ℕ} → s.querying ≡ suc k → Step s (record s { requests = suc s.requests; querying = k })
    -- Any other error of `ListenAndServe`.
    unserved :
        s.listener ≡ listening → Step s (record s { outcome = some (died "HTTP server error") })
    -- A step inside `Daemon.Start`; only the signal ends its context.
    runs :
        {q : Pool}
        → Pool.Step answers s.daemon q
        → q.done ≡ s.daemon.done
        → Step s (record s { daemon = q })
    -- `Daemon.Start` has returned: the error of its context is no failure, another one is. The deferred
    -- `pool.Close` waits for the connections that are held; `Fatal` runs no deferred call.
    returns :
        s.daemon.stage ≡ Pool.returned
        → s.querying ≡ 0
        → Step s (record s { outcome = some stopped })
    fails :
        s.daemon.stage ≡ Pool.failed → Step s (record s { outcome = some (died "Daemon error") })

  -- The process takes steps until it ends.
  pub data Reach (n : ℕ) : Program → Type 0 where
    start : Reach n (launched n)
    later : {s t : Program} → Reach n s → s.outcome ≡ none → Step s t → Reach n t

  pub data Steps : ℕ → Program → Program → Type 0 where
    stay : {s : Program} → Steps 0 s s
    then : {k : ℕ} {s t u : Program} → s.outcome ≡ none → Step s t → Steps k t u → Steps (suc k) s u
