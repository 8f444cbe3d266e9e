-- ===== src/Terraform/Keeps.antt =====
-- internal/terraform: what the runs of the command keep of the tables and of the bucket.
use openenvx_cloud.Prelude.{ℕ, zero, suc, refl, inl, inr, Option-cases, String, Bool, List}
use openenvx_cloud.Models.{Bytes}
use openenvx_cloud.World.{File, WorkDir}
use openenvx_cloud.World.Keeps.{
  Claim, Keeps, Keeps-pure, Keeps-raise, Keeps-if, Keeps-host_call, ◌⊳◌, keeps_rules,
}
use openenvx_cloud.Terraform.{
  Host, ToolRun, write_file, new_runner, run_tool, is_cancelled, finished, shown, plan, apply, show,
  init_retry, init_loop, init,
}

module _ (host : Host) {P : Claim} where
  -- An operation on files that may fail.
  pub write_file-Keeps : (name : String) (f : File) → Keeps P (write_file host name f)
  unfolding write_file
  write_file-Keeps name f =
      Keeps-host_call _
        λ t w. elim (Option-cases (host.os t)) [ inl e ↦ rw e refl | inr (s, e) ↦ rw e refl ]

  pub new_runner-Keeps : (env : List (String × String)) → Keeps P (new_runner host env)
  unfolding new_runner
  new_runner-Keeps env = Keeps-host_call _ (λ t w. refl)

  run_tool-Keeps : (command : ℕ → WorkDir → ToolRun) → Keeps P (run_tool host command)
  unfolding run_tool
  run_tool-Keeps command = Keeps-host_call _ (λ t w. refl)

  is_cancelled-Keeps : Keeps P (is_cancelled host)
  unfolding is_cancelled
  is_cancelled-Keeps = Keeps-host_call _ (λ t w. refl)

  finished-Keeps : (label : String) (run : ToolRun) → Keeps P (finished host label run)
  unfolding finished
  finished-Keeps label run = elim (Option-cases run.failure) [
    | inl e ↦ rw (e, finished) (Keeps-pure run.stdout)
    | inr (s, e) ↦ rw (e, finished) (Keeps-raise _)
  ]

  shown-Keeps : (run : ToolRun) (out : Bytes) → Keeps P (shown host run out)
  unfolding shown
  shown-Keeps run out = elim (Option-cases run.failure) [
    | inl e ↦ rw (e, shown) (Keeps-pure _)
    | inr (s, e) ↦ rw (e, shown) (Keeps-raise _)
  ]

  pub plan-Keeps : (destroy : Bool) → Keeps P (plan host destroy)
  unfolding plan
  plan-Keeps destroy = search (keeps_rules, finished-Keeps, run_tool-Keeps)

  pub apply-Keeps : Keeps P (apply host)
  unfolding apply
  apply-Keeps = search (keeps_rules, finished-Keeps, run_tool-Keeps)

  pub show-Keeps : Keeps P (show host)
  unfolding show
  show-Keeps = Keeps-host_call _ (λ t w. refl) ⊳ λ (run, out). shown-Keeps run out

  init_loop-Keeps : (left : ℕ) (last : String) → Keeps P (init_loop host left last)
  unfolding init_loop
  init_loop-Keeps zero last = search keeps_rules
  init_loop-Keeps (suc left) last =
      run_tool-Keeps _ ⊳ λ run. after run (λ s. init_loop-Keeps left s)
    where
      after :
          (run : ToolRun)
          → ((s : String) → Keeps P (init_loop host left s))
          → Keeps P (init_retry host run.failure (init_loop host left))
      after run again = elim (Option-cases run.failure) [
        | inl e ↦ rw e (Keeps-pure tt)
        | inr (s, e) ↦
            rw e (is_cancelled-Keeps ⊳ λ done. Keeps-if done _ _ (Keeps-raise _) (again s))
      ]

  pub init-Keeps : Keeps P (init host)
  unfolding init
  init-Keeps = init_loop-Keeps 3 ""
