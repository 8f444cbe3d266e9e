-- ===== src/Daemon/Hooks.antt =====
-- internal/daemon/worker_handlers.go: the hooks, and the two wrappers around a job's command.
pub mod Laws
use openenvx_cloud.Prelude.{
  ℕ, String, List, [], ◌∷◌, ◌++◌, Option, none, some, codes, map, if◌then◌else◌,
}
use openenvx_cloud.Models.{Bytes, cancelled, status_eq}
use openenvx_cloud.World.{
  Result, ok, err, fault, wrap, World, Env, M, pure, rewrap, host_call, ◌>>=◌, ◌>>◌,
}
use openenvx_cloud.Daemon.Interfaces.{store_of}
use openenvx_cloud.Terraform.{Host, HookRun, ScanEnd, clean, canceled, broken}

abbrev newline : ℕ
newline = 10

-- What the scanner's goroutine writes to the log, and publishes, line by line.
unfoldable pub log_lines : List Bytes → Bytes
log_lines [] = []
log_lines (l ∷ ls) = l ++ (newline ∷ log_lines ls)

unfoldable pub hook_title : Bytes → Bytes
hook_title hook = codes ">>> Running hook: " ++ hook

-- A scanner stopped by the context is no error.
unfoldable pub scan_result : ScanEnd → Result (Unit {0})
scan_result clean = ok tt
scan_result canceled = ok tt
scan_result (broken s) = err (wrap "hook: scan error" (fault s))

unfoldable pub hook_result : Option String → ScanEnd → Result (Unit {0})
unfolding scan_result
hook_result (some s) e = err (wrap "hook: failed" (fault s))
hook_result none e = scan_result e

abbrev pub under : String → List Bytes → List (String × Bytes)
under job_id = map (λ l. (job_id, l))

-- One hook that has run: an error before it starts leaves only its title published.
unfoldable pub after_hook : String → Bytes → HookRun → World → Result (Unit {0}) × World
unfolding hook_result hook_title log_lines
after_hook job_id hook run w = elim run.unstarted [
  | some s ↦ (
    err (wrap "hook: start" (fault s)),
    record w { published = w.published ++ under job_id (hook_title hook ∷ []) },
  )
  | none ↦ (
    hook_result run.failure run.scan_end,
    record w {
      published = w.published ++ under job_id (hook_title hook ∷ run.lines);
      log = w.log ++ log_lines run.lines;
      work_dir = run.left;
    },
  )
]

module _ (env : Env) (host : Host) where
  unfoldable pub run_hook : String → Bytes → M (Unit {0})
  unfolding after_hook
  run_hook job_id hook = host_call λ t w. after_hook job_id hook (host.hook t hook w.work_dir) w

  unfoldable pub run_hooks : String → List Bytes → M (Unit {0})
  unfolding run_hook
  run_hooks job_id [] = pure tt
  run_hooks job_id (hook ∷ hooks) = run_hook job_id hook >> run_hooks job_id hooks

  unfoldable pub with_hooks : String → List Bytes → List Bytes → M (Unit {0}) → M (Unit {0})
  unfolding run_hooks
  with_hooks job_id pre post next = do run_hooks job_id pre; next; run_hooks job_id post

  -- Both branches on the status return no error.
  unfoldable pub with_cancellation_check : String → M (Unit {0}) → M (Unit {0})
  with_cancellation_check job_id next = do
    next
    current ← rewrap (wrap "failed to fetch job status") ((store_of env).get_job job_id)
    if status_eq current.status cancelled then pure tt else pure tt
