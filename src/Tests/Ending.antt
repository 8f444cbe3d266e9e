-- ===== src/Tests/Ending.antt =====
-- The theorems on the end of the process, with one worker and two requests.
use openenvx_cloud.Prelude.{
  ℕ, ◌+◌, ◌*◌, ◌≤◌, ◌≡◌, ◌≢◌, refl, Bool, true, [], ◌∷◌, none, some, All, length,
}
use openenvx_cloud.Models.{Job}
use openenvx_cloud.World.{Result}
use openenvx_cloud.Daemon.Pool
use openenvx_cloud.Daemon.Pool.{Pool, Phase, here, new_worker_pool}
use openenvx_cloud.Main.Ending.{
  waiting, cancelled, stopped, Program, launched, signal, accept, acquire, runs, returns, Reach,
  start, later, Steps,
}
use openenvx_cloud.Main.Ending.Laws.{stopped-none_live, ends-unanswered}

-- The claims answer anything.
abbrev Any : Bool → Result Job → Type 0
Any done r = Unit {0}

-- Two requests, of which one asks the database, when the signal comes.
abbrev signalled : Program
signalled = record (launched 1) {
  daemon = record (new_worker_pool 1) { done = true };
  watcher = cancelled;
  requests = 1;
  querying = 1;
}

signalled-Reach : Reach Any 1 signalled
unfolding launched new_worker_pool
signalled-Reach =
    later (later (later (later start refl (accept refl)) refl (accept refl)) refl (acquire refl))
      refl (signal refl)

ends-unanswered_example :
    (k : ℕ) × (t : Program) × Steps Any k signalled t
    × (t.outcome ≢ none)
    × (t.requests ≡ 1 + 1)
    × (t.watcher ≡ cancelled)
    × (k ≤ 2 * 1 + 5 + 1)
unfolding launched
ends-unanswered_example = ends-unanswered Any 1 signalled signalled-Reach refl refl

-- The worker returns, and a request is left.
abbrev over : Program
over = record (launched 1) {
  daemon = record (new_worker_pool 1) {
    phases = Pool.stopped ∷ [];
    done = true;
    stage = Pool.returned;
  };
  watcher = cancelled;
  requests = 1;
  outcome = some stopped;
}

over-Reach : Reach Any 1 over
unfolding launched new_worker_pool
over-Reach =
    let accepted = later start refl (accept refl) in
    let made = later accepted refl (runs (Pool.prepared refl) refl) in
    let begun = later made refl (runs (Pool.launch refl) refl) in
    let serving = later begun refl (runs (Pool.launched refl) refl) in
    let told = later serving refl (signal refl) in
    let left = later told refl (runs (Pool.leave refl (here Pool.shut_down)) refl) in
    let stopping = later left refl (runs (Pool.stop refl refl) refl) in
    let waited = later stopping refl (runs (Pool.waited refl refl) refl) in
    later waited refl (returns refl refl)

stopped-none_live_example :
    (over.watcher ≢ waiting)
    × (length over.daemon.phases ≡ 1)
    × All (λ phase. phase ≡ Pool.stopped) over.daemon.phases
unfolding launched
stopped-none_live_example = stopped-none_live Any 1 over over-Reach refl
