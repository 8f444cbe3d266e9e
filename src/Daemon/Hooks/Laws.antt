-- ===== src/Daemon/Hooks/Laws.antt =====
-- internal/daemon/worker_handlers.go: where a sequence of hooks ends.
use openenvx_cloud.Prelude.{
  ◌≡◌, refl, ◌⊎◌, inl, inr, String, List, [], ◌∷◌, ◌++◌, none, some, suc, Option-cases, ap,
}
use openenvx_cloud.Models.{Bytes}
use openenvx_cloud.World.{
  Error, Result, ok, err, fault, wrap, World, Env, M, continue, ◌>>=◌, pure, host_call,
}
use openenvx_cloud.Terraform.{Host, HookRun, ScanEnd, clean, canceled, broken}
use openenvx_cloud.Daemon.Hooks.{
  run_hook, run_hooks, after_hook, hook_result, scan_result, hook_title, log_lines, under,
}

-- The command started, exited with 0, and its output was read to the end, or until the context was done.
abbrev pub IsClean : HookRun → Type 0
IsClean run =
    (run.unstarted ≡ none)
    × (run.failure ≡ none)
    × ((run.scan_end ≡ clean) ⊎ (run.scan_end ≡ canceled))

-- The command did not start, or it exited with an error, or its output could not be read.
pub data Fails (run : HookRun) (e : Error) : Type 0 where
  unstarted : (s : String) → run.unstarted ≡ some s → e ≡ wrap "hook: start" (fault s) → Fails run e
  exited :
      (s : String)
      → run.unstarted ≡ none
      → run.failure ≡ some s
      → e ≡ wrap "hook: failed" (fault s)
      → Fails run e
  unread :
      (s : String)
      → run.unstarted ≡ none
      → run.failure ≡ none
      → run.scan_end ≡ broken s
      → e ≡ wrap "hook: scan error" (fault s)
      → Fails run e

scan-cases : (x : ScanEnd) → ((x ≡ clean) ⊎ (x ≡ canceled)) ⊎ ((s : String) × (x ≡ broken s))
scan-cases clean = inl (inl refl)
scan-cases canceled = inl (inr refl)
scan-cases (broken s) = inr (s, refl)

run-cases : (run : HookRun) → IsClean run ⊎ ((e : Error) × Fails run e)
run-cases run = elim (Option-cases run.unstarted) [
  | inr (s, u) ↦ inr (_, unstarted s u refl)
  | inl u ↦ elim (Option-cases run.failure) [
    | inr (s, f) ↦ inr (_, exited s u f refl)
    | inl f ↦ elim (scan-cases run.scan_end) [
      | inl c ↦ inl (u, f, c)
      | inr (s, b) ↦ inr (_, unread s u f b refl)
    ]
  ]
]

module _ (env : Env) (host : Host) (job_id : String) where
  abbrev pub hook_run : Bytes → World → HookRun
  hook_run hook w = host.hook w.tick hook w.work_dir

  -- What a clean hook leaves: its title and its lines are published, and the lines are in the log.
  abbrev pub after : Bytes → World → World
  after hook w =
      let run = hook_run hook w in
      record w {
        published = w.published ++ under job_id (hook_title hook ∷ run.lines);
        log = w.log ++ log_lines run.lines;
        work_dir = run.left;
        tick = suc w.tick;
      }

  -- These hooks ran one after another, each cleanly, from the one world to the other.
  abbrev pub Passed : List Bytes → World → World → Type 0
  Passed [] w v = v ≡ w
  Passed (hook ∷ hooks) w v = IsClean (hook_run hook w) × Passed hooks (after hook w) v

  run_hook-IsClean :
      (hook : Bytes) (w : World)
      → IsClean (hook_run hook w)
      → run_hook env host job_id hook w ≡ (ok tt, after hook w)
  unfolding run_hook after_hook hook_result scan_result host_call
  run_hook-IsClean hook w (u, f, inl c) = rw (u, f, c) refl
  run_hook-IsClean hook w (u, f, inr c) = rw (u, f, c) refl

  -- One call was made, whose error is that of the run.
  abbrev Failed : Error → World → Result (Unit {0}) × World → Type 0
  Failed e w out = (out.0 ≡ err e) × (out.1.tick ≡ suc w.tick)

  run_hook-Fails :
      (hook : Bytes) (w : World) (e : Error)
      → Fails (hook_run hook w) e
      → Failed e w (run_hook env host job_id hook w)
  unfolding run_hook after_hook hook_result scan_result host_call
  run_hook-Fails hook w e (unstarted s u q) = rw (u, q) (refl, refl)
  run_hook-Fails hook w e (exited s u f q) = rw (u, f, q) (refl, refl)
  run_hook-Fails hook w e (unread s u f b q) = rw (u, f, b, q) (refl, refl)

  -- A failing hook with those that ran before it and those behind it.
  abbrev pub Stopped : List Bytes → World → Result (Unit {0}) × World → Type 0
  Stopped hooks w out =
      (pre : List Bytes) × (hook : Bytes) × (post : List Bytes) × (v : World) × (e : Error) × (hooks
        ≡ pre ++ hook ∷ post)
      × Passed pre w v
      × Fails (hook_run hook v) e
      × Failed e v out

  stop :
      (m : M (Unit {0})) (f : Unit {0} → M (Unit {0})) (w v : World) (e : Error)
      → Failed e v (m w)
      → Failed e v ((m >>= f) w)
  unfolding ◌>>=◌ continue
  stop m f w v e (q, t) = rw q (refl, t)

  -- `runHooks` either returns no error, and then all hooks have run, one after another, each in the
  -- directory that the one before it left, and each has started, exited with 0 and not failed to be read;
  -- or the hooks before some hook have, and that hook has not: then it returns the error of that hook,
  -- which says in which of the three ways it failed, and runs none behind it.
  pub run_hooks_lem :
      (hooks : List Bytes) (w : World)
      → let out = run_hooks env host job_id hooks w in
        ((out.0 ≡ ok tt) × Passed hooks w out.1) ⊎ Stopped hooks w out
  unfolding run_hooks pure ◌>>=◌ continue
  run_hooks_lem [] w = inl (refl, refl)
  run_hooks_lem (hook ∷ hooks) w = elim (run-cases (hook_run hook w)) [
    | inr (e, f) ↦ inr (
      [],
      hook,
      hooks,
      w,
      e,
      refl,
      refl,
      f,
      stop (run_hook env host job_id hook) (λ _. run_hooks env host job_id hooks) w w e
          (run_hook-Fails hook w e f),
    )
    | inl c ↦ rw (run_hook-IsClean hook w c) (elim (run_hooks_lem hooks (after hook w)) [
      | inl (q, p) ↦ inl (q, (c, p))
      | inr (pre, bad, post, v, e, s, p, f, d) ↦
          inr (hook ∷ pre, bad, post, v, e, ap (◌∷◌ hook) s, (c, p), f, d)
    ])
  ]
