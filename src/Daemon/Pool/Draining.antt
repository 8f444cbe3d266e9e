-- ===== src/Daemon/Pool/Draining.antt =====
-- How the daemon stops once its context is done: no worker takes a job, and few steps are left.
use openenvx_cloud.Prelude.{
  ℕ, zero, suc, ◌+◌, ◌-◌, ◌*◌, ◌≤◌, ◌<◌, sym, subst, ◌≡◌, refl, ◌⊎◌, inl, inr, Bool, true, false,
  List, [], ◌∷◌, arith, length,
}
use openenvx_cloud.Models.{Job}
use openenvx_cloud.World.{Result, ok, err}
use openenvx_cloud.Daemon.Pool.{
  Phase, ready, busy, stopped, Stage, preparing, launching, serving, stopping, returned, failed,
  Pool, claimed, Moves, here, there, Shutdown, shut_down, Works, tick, process, Step, cancel,
  prepared, unprepared, launch, launched, work, leave, clean, stop, waited, Reach, Steps, stay,
  then,
}
use openenvx_cloud.Daemon.Pool.Counting.{
  count, to_launch, IsCounted, reach-IsCounted, step-IsCounted,
}

-- The steps that a worker still makes once the context is done.
abbrev pub to_do : Phase → ℕ
to_do ready = 1
to_do (busy job) = 2
to_do stopped = 0

abbrev pub all_to_do : List Phase → ℕ
all_to_do [] = 0
all_to_do (p ∷ ps) = to_do p + all_to_do ps

-- A worker that is launched still has to return.
abbrev pub stages_left : ℕ → Stage → ℕ
stages_left n preparing = 4 + 2 * n
stages_left n (launching k) = 3 + 2 * k
stages_left n serving = 2
stages_left n stopping = 1
stages_left n returned = 0
stages_left n failed = 0

abbrev pub has_returned : Stage → Bool
has_returned returned = true
has_returned failed = true
has_returned _ = false

abbrev pub remaining : Pool → ℕ
remaining p = all_to_do p.phases + stages_left p.workers p.stage

Shutdown-to_do : {ps qs : List Phase} → Moves Shutdown ps qs → all_to_do ps ≡ suc (all_to_do qs)
Shutdown-to_do (here shut_down) = omega arith
Shutdown-to_do (there ms) = ground (arith, Shutdown-to_do ms)

-- While the context is done `ClaimNextJob` does not answer with a job.
module _ (answers : Bool → Result Job → Type 0)
    (refuses : (job : Job) → answers true (ok job) → ⊥) where
  Works-to_do :
      {ps qs : List Phase}
      → Moves (Works answers true) ps qs
      → (all_to_do ps ≡ suc (all_to_do qs)) ⊎ (qs ≡ ps)
  unfolding claimed
  Works-to_do (here (tick (ok job) a)) = absurd (refuses job a)
  Works-to_do (here (tick (err e) a)) = inr refl
  Works-to_do (here process) = inl (omega arith)
  Works-to_do (there {a} ms) = elim (Works-to_do ms) [
    | inl e ↦ inl (omega (arith, e))
    | inr e ↦ inr (rw e refl)
  ]

  work-remaining :
      (p : Pool) (d : Bool) {qs : List Phase}
      → d ≡ true
      → Moves (Works answers d) p.phases qs
      → (remaining p ≡ suc (remaining (record p { phases = qs }))) ⊎ (record p { phases = qs } ≡ p)
  work-remaining p false e ms = absurd cc
  work-remaining p true e ms = elim (Works-to_do ms) [
    | inl s ↦ inl (omega (arith, s))
    | inr s ↦ inr (rw s refl)
  ]

  cancelled_again : (p : Pool) → p.done ≡ true → record p { done = true } ≡ p
  cancelled_again p d = rw d refl

  -- Once the context is done, and as `ClaimNextJob` then answers with no job: every step of the worker
  -- pool and of the daemon lowers the number of remaining steps, or changes nothing. So no worker takes
  -- a job, and in no order can more steps than those change anything.
  pub step-remaining :
      (p q : Pool) → p.done ≡ true → Step answers p q → (remaining q < remaining p) ⊎ (q ≡ p)
  step-remaining p q d cancel = inr (cancelled_again p d)
  step-remaining p q d (launch e) = inl (ground (arith, e))
  step-remaining p q d (launched e) = inl (ground (arith, e))
  step-remaining p q d (prepared e) = inl (ground (arith, e))
  step-remaining p q d (unprepared e) = inl (ground (arith, e))
  step-remaining p q d (work ms) = elim (work-remaining p p.done d ms) [
    | inl s ↦ inl (omega (arith, s))
    | inr s ↦ inr s
  ]
  step-remaining p q d (leave _ ms) = inl (ground (arith, Shutdown-to_do ms))
  step-remaining p q d (clean e) = inr refl
  step-remaining p q d (stop e _) = inl (ground (arith, e))
  step-remaining p q d (waited e z) = inl (ground (arith, e))

-- A worker that has not returned can go on.
live-Moves :
    (answers : Bool → Result Job → Type 0) (d : Bool) (ps : List Phase)
    → ((k : ℕ) × (count ps ≡ suc k))
    → ((qs : List Phase) × Moves (Works answers d) ps qs × (all_to_do ps ≡ suc (all_to_do qs)))
      ⊎ ((qs : List Phase) × Moves Shutdown ps qs)
live-Moves answers d [] (k, e) = absurd (omega (arith, e))
live-Moves answers d (ready ∷ ps) e = inr (stopped ∷ ps, here shut_down)
live-Moves answers d (busy job ∷ ps) e = inl (ready ∷ ps, here process, omega arith)
live-Moves answers d (stopped ∷ ps) (k, e) = elim (live-Moves answers d ps (k, omega (arith, e))) [
  | inl (qs, ms, l) ↦ inl (stopped ∷ qs, there ms, omega (arith, l))
  | inr (qs, ms) ↦ inr (stopped ∷ qs, there ms)
]

to_do-count : (ps : List Phase) → count ps ≡ 0 → all_to_do ps ≡ 0
to_do-count [] e = refl
to_do-count (ready ∷ ps) e = absurd (omega (arith, e))
to_do-count (busy job ∷ ps) e = absurd (omega (arith, e))
to_do-count (stopped ∷ ps) e = omega (arith, to_do-count ps (omega (arith, e)))

to_do-length : (ps : List Phase) → all_to_do ps ≤ 2 * length ps
to_do-length [] = omega arith
to_do-length (ready ∷ ps) = omega (arith, to_do-length ps)
to_do-length (busy job ∷ ps) = omega (arith, to_do-length ps)
to_do-length (stopped ∷ ps) = omega (arith, to_do-length ps)

stages-to_launch : (n : ℕ) (s : Stage) → stages_left n s ≤ 4 + 2 * to_launch n s
stages-to_launch n preparing = omega arith
stages-to_launch n failed = omega arith
stages-to_launch n (launching k) = omega arith
stages-to_launch n serving = omega arith
stages-to_launch n stopping = omega arith
stages-to_launch n returned = omega arith

module _ (answers : Bool → Result Job → Type 0) where
  -- A step that lowers what remains.
  abbrev Progress : Pool → Type 0
  Progress p = (q : Pool) × Step answers p q × (remaining p ≡ suc (remaining q)) × (q.done ≡ true)

  wait_or_work :
      (p : Pool)
      → p.done ≡ true
      → p.wg ≡ count p.phases
      → p.stage ≡ stopping
      → (wg : ℕ) → p.wg ≡ wg
      → Progress p
  wait_or_work p d c e zero z = (record p { stage = returned }, waited e z, ground (arith, e), d)
  wait_or_work p d c e (suc k) z =
      elim (live-Moves answers p.done p.phases (k, omega (arith, c, z))) [
        | inl (qs, ms, l) ↦ (record p { phases = qs }, work ms, omega (arith, l), d)
        | inr (qs, ms) ↦ (
          record p { wg = p.wg - 1; phases = qs },
          leave d ms,
          omega (arith, Shutdown-to_do ms),
          d,
        )
      ]

  progress :
      {n : ℕ} (p : Pool)
      → IsCounted n p
      → p.done ≡ true
      → (s : Stage) → p.stage ≡ s
      → (remaining p ≡ 0) × (has_returned p.stage ≡ true) ⊎ Progress p
  progress p c d (launching zero) e =
      inr (record p { stage = serving }, launched e, ground (arith, e), d)
  progress p c d (launching (suc k)) e = inr (
    record p { wg = suc p.wg; phases = ready ∷ p.phases; stage = launching k },
    launch e,
    ground (arith, e),
    d,
  )
  progress p c d serving e = inr (record p { stage = stopping }, stop e d, ground (arith, e), d)
  progress p c d stopping e = inr (wait_or_work p d c.counted e p.wg refl)
  progress p c d returned e = inl (
    ground (arith, to_do-count p.phases (ground (arith, c.counted, c.returned_none, e)), e),
    rw e refl,
  )
  progress p c d preparing e =
      inr (record p { stage = launching p.workers }, prepared e, ground (arith, e), d)
  progress p c d failed e =
      inl (ground (arith, to_do-length p.phases, c.all_launched, e), rw e refl)

  drain_from :
      {n : ℕ} (k : ℕ) (p : Pool)
      → IsCounted n p
      → p.done ≡ true
      → remaining p ≡ k
      → (q : Pool) × Steps answers k p q × (has_returned q.stage ≡ true)
  drain_from zero p c d e = elim (progress p c d p.stage refl) [
    | inl (_, r) ↦ (p, stay, r)
    | inr (q, s, l, _) ↦ absurd (omega (arith, l, e))
  ]
  drain_from (suc k) p c d e = elim (progress p c d p.stage refl) [
    | inl (z, _) ↦ absurd (omega (arith, z, e))
    | inr (q, s, l, d') ↦
        let (last, ss, r) = drain_from k q (step-IsCounted answers c s) d' (omega (arith, l, e)) in
        (last, then s ss, r)
  ]

  -- From every state that `Daemon.Start` reaches with n workers, once the context is done, it can
  -- still return, and in at most 2 n + 4 steps of the daemon and its workers.
  pub drain :
      (n : ℕ) (p : Pool)
      → Reach answers n p
      → p.done ≡ true
      → (k : ℕ) × (q : Pool) × Steps answers k p q × (has_returned q.stage ≡ true) × (k ≤ 2 * n + 4)
  drain n p r d =
      let c = reach-IsCounted answers r in
      let (q, ss, e) = drain_from (remaining p) p c d refl in
      (
        remaining p,
        q,
        ss,
        e,
        omega (
          arith,
          to_do-length p.phases,
          subst (λ w. stages_left w p.stage ≤ 4 + 2 * to_launch n p.stage) (sym c.same_workers)
              (stages-to_launch n p.stage),
          c.all_launched,
        ),
      )
