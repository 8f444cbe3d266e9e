-- ===== src/Terraform/Retrying.antt =====
-- internal/terraform/runner_commands.go: the attempts of `Init`.
use openenvx_cloud.Prelude.{
  ℕ, zero, suc, ◌<◌, ◌≡◌, refl, sym, subst, inl, inr, String, Bool, true, false, arith, Option,
  none, some, Option-cases, Bool-cases,
}
use openenvx_cloud.World.{
  Result, ok, err, fault, wrap, World, ◌>>=◌, raise, pure, continue, host_call,
}
use openenvx_cloud.Terraform.{Host, run_tool, is_cancelled, init_retry, init_loop, init}

module _ (host : Host) where
  -- How the attempt fails that is made in this world, and the worlds after it, and after the context was
  -- looked at.
  abbrev pub failure : World → Option String
  failure w = (host.init w.tick w.work_dir).failure

  abbrev pub tried : World → World
  tried w = (run_tool host host.init w).1

  abbrev pub asked : World → World
  asked w = (is_cancelled host (tried w)).1

  abbrev pub is_done : World → Bool
  is_done w = host.cancelled (tried w).tick

  -- So many attempts fail, and the context is not done after any of them. From one error to the next.
  pub data Retries : ℕ → String → World → String → World → Type 0 where
    untried : {last : String} {w : World} → Retries 0 last w last w
    again :
        {i : ℕ} {last s final : String} {w v : World}
        → failure w ≡ some s
        → is_done w ≡ false
        → Retries i s (asked w) final v
        → Retries (suc i) last w final v

  -- How `Init` ends with so many attempts: one of them succeeds; the context is done after one that has
  -- failed; or all of them fail, and the last error is returned.
  pub data Ends (n : ℕ) (last : String) (w : World) : Result (Unit {0}) → World → Type 0 where
    succeeded :
        {i : ℕ} {s : String} {v : World}
        → i < n
        → Retries i last w s v
        → failure v ≡ none
        → Ends n last w (ok tt) (tried v)
    gave_up :
        {i : ℕ} {s x : String} {v : World}
        → i < n
        → Retries i last w s v
        → failure v ≡ some x
        → is_done v ≡ true
        → Ends n last w
            (err
              (wrap "context cancelled during terraform init retries" (fault "context canceled")))
            (asked v)
    exhausted :
        {s : String} {v : World}
        → Retries n last w s v
        → Ends n last w (err (wrap "terraform init failed after retries" (fault s))) v

  once_more :
      {n : ℕ} {last s : String} {w v : World} {r : Result (Unit {0})}
      → failure w ≡ some s
      → is_done w ≡ false
      → Ends n s (asked w) r v
      → Ends (suc n) last w r v
  once_more f d (succeeded l rs e) = succeeded (omega (arith, l)) (again f d rs) e
  once_more f d (gave_up l rs e c) = gave_up (omega (arith, l)) (again f d rs) e c
  once_more f d (exhausted rs) = exhausted (again f d rs)

  module _ (n : ℕ) (last : String) (w : World) where
    tried-none : failure w ≡ none → init_loop host (suc n) last w ≡ (ok tt, tried w)
    unfolding init_loop ◌>>=◌ run_tool host_call continue pure
    tried-none e = rw (e, init_retry) refl

    tried-done :
        (s : String)
        → failure w ≡ some s
        → is_done w ≡ true
        → init_loop host (suc n) last w ≡ (
          err (wrap "context cancelled during terraform init retries" (fault "context canceled")),
          asked w,
        )
    unfolding init_loop ◌>>=◌ run_tool host_call continue is_cancelled raise
    tried-done s e d = rw (e, init_retry) (rw d refl)

    tried-again :
        (s : String)
        → failure w ≡ some s
        → is_done w ≡ false
        → init_loop host (suc n) last w ≡ init_loop host n s (asked w)
    unfolding init_loop ◌>>=◌ run_tool host_call continue is_cancelled
    tried-again s e d = rw (e, init_retry) (rw d refl)

  abbrev Ended : ℕ → String → World → Result (Unit {0}) × World → Type 0
  Ended n last w out = Ends n last w out.0 out.1

  init_loop-Ends : (n : ℕ) (last : String) (w : World) → Ended n last w (init_loop host n last w)
  unfolding init_loop raise
  init_loop-Ends zero last w = exhausted untried
  init_loop-Ends (suc n) last w = elim (Option-cases (failure w)) [
    | inl e ↦
        subst (Ended (suc n) last w) (sym (tried-none n last w e))
          (succeeded (omega arith) untried e)
    | inr (s, e) ↦ elim (Bool-cases (is_done w)) [
      | inl d ↦
          subst (Ended (suc n) last w) (sym (tried-done n last w s e d))
            (gave_up (omega arith) untried e d)
      | inr d ↦
          subst (Ended (suc n) last w) (sym (tried-again n last w s e d))
            (once_more e d (init_loop-Ends n s (asked w)))
    ]
  ]

  -- `Init` makes at most three attempts, one after another as long as they fail and the context is not
  -- done; it returns no error exactly at the first that succeeds, the error of the context where it is
  -- done after one that fails, and the last error where all three fail. Each attempt is made in the
  -- world that the last one left.
  pub init_lem : (w : World) → Ends 3 "" w (init host w).0 (init host w).1
  unfolding init
  init_lem w = init_loop-Ends 3 "" w
