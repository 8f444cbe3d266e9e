-- ===== src/Main/Ending/Laws.antt =====
-- How the process ends, from how the daemon does.
use openenvx_cloud.Prelude.{
  ℕ, zero, suc, ◌+◌, ◌*◌, ◌≤◌, ◌≡◌, ◌≢◌, refl, sym, subst, ◌∙◌, ◌⊎◌, inl, inr, Bool, true, arith,
  none, some, length, All,
}
use openenvx_cloud.Models.{Job}
use openenvx_cloud.World.{Result}
use openenvx_cloud.Daemon.Pool
use openenvx_cloud.Daemon.Pool.{Pool, Phase, Stage, new_worker_pool}
use openenvx_cloud.Daemon.Pool.Counting.{returned-none_live}
use openenvx_cloud.Daemon.Pool.Draining.{has_returned, drain}
use openenvx_cloud.Main.Ending.{
  waiting, stopped, Program, launched, signal, shut_down, idle, timed_out, accept, answer, acquire,
  release, unserved, runs, returns, fails, Reach, start, later, Steps, stay, then,
}

module _ (answers : Bool → Result Job → Type 0) where
  -- The daemon inside the process takes the steps that the daemon alone takes.
  reach-daemon : {n : ℕ} {s : Program} → Reach answers n s → Pool.Reach answers n s.daemon
  unfolding launched
  reach-daemon start = Pool.start
  reach-daemon (later r _ (signal _)) = Pool.later (reach-daemon r) Pool.cancel
  reach-daemon (later r _ (shut_down _)) = reach-daemon r
  reach-daemon (later r _ (idle _ _ _)) = reach-daemon r
  reach-daemon (later r _ (timed_out _)) = reach-daemon r
  reach-daemon (later r _ (accept _)) = reach-daemon r
  reach-daemon (later r _ (answer _)) = reach-daemon r
  reach-daemon (later r _ (acquire _)) = reach-daemon r
  reach-daemon (later r _ (release _)) = reach-daemon r
  reach-daemon (later r _ (unserved _)) = reach-daemon r
  reach-daemon (later r _ (runs q _)) = Pool.later (reach-daemon r) q
  reach-daemon (later r _ (returns _ _)) = reach-daemon r
  reach-daemon (later r _ (fails _)) = reach-daemon r

  -- A context that is done was cancelled by the signal, and only a daemon that has returned lets the
  -- process stop.
  record IsOrderly (s : Program) : Type 0 where
    pub signalled : s.daemon.done ≡ true → s.watcher ≢ waiting
    pub returned : s.outcome ≡ some stopped → s.daemon.stage ≡ Pool.returned

  reach-IsOrderly : {n : ℕ} {s : Program} → Reach answers n s → IsOrderly s
  unfolding launched new_worker_pool
  reach-IsOrderly start = record { signalled = λ d w. cc; returned = λ e. cc }
  reach-IsOrderly (later r o (signal _)) = record { signalled = λ d w. cc; returned = λ e. cc }
  reach-IsOrderly (later r o (shut_down _)) = record { signalled = λ d w. cc; returned = λ e. cc }
  reach-IsOrderly (later r o (idle _ _ _)) = record { signalled = λ d w. cc; returned = λ e. cc }
  reach-IsOrderly (later r o (timed_out _)) = record { signalled = λ d w. cc; returned = λ e. cc }
  reach-IsOrderly (later r o (accept _)) = record {
    signalled = (reach-IsOrderly r).signalled;
    returned = λ e. cc;
  }
  reach-IsOrderly (later r o (answer _)) = record {
    signalled = (reach-IsOrderly r).signalled;
    returned = λ e. cc;
  }
  reach-IsOrderly (later r o (acquire _)) = record {
    signalled = (reach-IsOrderly r).signalled;
    returned = λ e. cc;
  }
  reach-IsOrderly (later r o (release _)) = record {
    signalled = (reach-IsOrderly r).signalled;
    returned = λ e. cc;
  }
  reach-IsOrderly (later r o (unserved _)) = record {
    signalled = (reach-IsOrderly r).signalled;
    returned = λ e. cc;
  }
  reach-IsOrderly (later r o (runs q same)) = record {
    signalled = λ d. (reach-IsOrderly r).signalled (sym same ∙ d);
    returned = λ e. cc;
  }
  reach-IsOrderly (later r o (returns e _)) = record {
    signalled = (reach-IsOrderly r).signalled;
    returned = λ _. e;
  }
  reach-IsOrderly (later r o (fails _)) = record {
    signalled = (reach-IsOrderly r).signalled;
    returned = λ e. cc;
  }

  -- The process ends as stopped only after a signal, and only once all the workers of the pool were
  -- launched and each of them has returned: no job is being processed any more.
  pub stopped-none_live :
      (n : ℕ) (s : Program)
      → Reach answers n s
      → s.outcome ≡ some stopped
      → (s.watcher ≢ waiting)
        × (length s.daemon.phases ≡ n)
        × All (λ phase. phase ≡ Pool.stopped) s.daemon.phases
  stopped-none_live n s r e =
      let orderly = reach-IsOrderly r in
      let (done, all, none_live) =
        returned-none_live answers n s.daemon (reach-daemon r) (orderly.returned e) in
      (orderly.signalled done, all, none_live)

-- A stage in which `Daemon.Start` has returned.
returned_cases :
    (stage : Stage) → has_returned stage ≡ true → (stage ≡ Pool.returned) ⊎ (stage ≡ Pool.failed)
returned_cases Pool.returned e = inl refl
returned_cases Pool.failed e = inr refl
returned_cases Pool.preparing e = absurd cc
returned_cases (Pool.launching k) e = absurd cc
returned_cases Pool.serving e = absurd cc
returned_cases Pool.stopping e = absurd cc

module _ (answers : Bool → Result Job → Type 0) where
  step-done : {p q : Pool} → Pool.Step answers p q → p.done ≡ true → q.done ≡ true
  step-done Pool.cancel d = refl
  step-done (Pool.prepared _) d = d
  step-done (Pool.unprepared _) d = d
  step-done (Pool.launch _) d = d
  step-done (Pool.launched _) d = d
  step-done (Pool.work _) d = d
  step-done (Pool.leave _ _) d = d
  step-done (Pool.clean _) d = d
  step-done (Pool.stop _ _) d = d
  step-done (Pool.waited _ _) d = d

  -- What the daemon can do alone, it can do inside the process.
  inside :
      {k : ℕ} {q : Pool} (s : Program)
      → s.outcome ≡ none
      → s.daemon.done ≡ true
      → Pool.Steps answers k s.daemon q
      → Steps answers k s (record s { daemon = q })
  inside s o d Pool.stay = stay
  inside s o d (Pool.then {q} p ps) =
      let d' = step-done p d in
      then o (runs p (d' ∙ sym d)) (inside (record s { daemon = q }) o d' ps)

  and_then :
      {j k : ℕ} {s t u : Program}
      → Steps answers j s t
      → Steps answers k t u
      → Steps answers (j + k) s u
  and_then {k} {s} {u} stay ts = subst (λ i. Steps answers i s u) (omega arith) ts
  and_then {k} {s} {u} (then {k = i} o p ss) ts =
      subst (λ i. Steps answers i s u) (omega arith) (then {k = i + k} o p (and_then ss ts))

  -- The same process, where every connection to the database is given back.
  record IsReleased (s t : Program) : Type 0 where
    pub daemon : t.daemon ≡ s.daemon
    pub watcher : t.watcher ≡ s.watcher
    pub outcome : t.outcome ≡ none
    pub requests : t.requests ≡ s.requests + s.querying
    pub querying : t.querying ≡ 0

  give_back :
      (j : ℕ) (s : Program)
      → s.outcome ≡ none
      → s.querying ≡ j
      → (t : Program) × Steps answers j s t × IsReleased s t
  give_back zero s o e = (
    s,
    stay,
    record {
      daemon = refl;
      watcher = refl;
      outcome = o;
      requests = omega (arith, e);
      querying = e;
    },
  )
  give_back (suc j) s o e =
      let (t, ss, r) = give_back j (record s { requests = suc s.requests; querying = j }) o refl in
      (
        t,
        then o (release e) ss,
        record {
          daemon = r.daemon;
          watcher = r.watcher;
          outcome = r.outcome;
          requests = omega (arith, r.requests, e);
          querying = r.querying;
        },
      )

  last_step :
      (s : Program)
      → s.outcome ≡ none
      → s.querying ≡ 0
      → has_returned s.daemon.stage ≡ true
      → (t : Program) × Steps answers 1 s t
        × (t.outcome ≢ none)
        × (t.requests ≡ s.requests)
        × (t.watcher ≡ s.watcher)
  last_step s o q e = elim (returned_cases s.daemon.stage e) [
    | inl r ↦ (_, then o (returns r q) stay, λ x. cc, refl, refl)
    | inr f ↦ (_, then o (fails f) stay, λ x. cc, refl, refl)
  ]

  -- From every state that the process reaches with n workers, once the signal has cancelled the context
  -- and unless it has ended: it can end in at most 2 n + 5 steps and one for each connection to the
  -- database that a request holds, with every request that was being answered still unanswered, and
  -- however far the shutdown of the HTTP server has got: it waits for the workers and for the
  -- connections, and not for the shutdown.
  pub ends-unanswered :
      (n : ℕ) (s : Program)
      → Reach answers n s
      → s.outcome ≡ none
      → s.daemon.done ≡ true
      → (k : ℕ) × (t : Program) × Steps answers k s t
        × (t.outcome ≢ none)
        × (t.requests ≡ s.requests + s.querying)
        × (t.watcher ≡ s.watcher)
        × (k ≤ 2 * n + 5 + s.querying)
  ends-unanswered n s r o d =
      let (k, q, ps, e, bound) = drain answers n s.daemon (reach-daemon answers r) d in
      let (t, ss, free) = give_back s.querying (record s { daemon = q }) o refl in
      let (u, last, over, kept, watched) =
        last_step t free.outcome free.querying (rw (free.daemon) e) in
      (
        (k + s.querying) + 1,
        u,
        and_then (and_then (inside s o d ps) ss) last,
        over,
        kept ∙ free.requests,
        watched ∙ free.watcher,
        omega (arith, bound),
      )
