-- ===== src/Terraform.antt =====
-- internal/terraform: the runner of the Terraform command line (runner.go, runner_commands.go). What
-- the command does is no code of the repository: it is a field of `Host`, asked by the call's number.
pub mod Retrying
pub mod Keeps
use openenvx_cloud.Prelude.{
  ℕ, zero, suc, String, Bool, List, [], ◌∷◌, ◌++◌, Option, none, some, ◌==◌, ◌<>◌, ◌&&◌, nat_eq,
  not, length, if◌then◌else◌,
}
use openenvx_cloud.Models.{Bytes, Fields}
use openenvx_cloud.Infisical.{Secret}
use openenvx_cloud.World.{
  Result, ok, err, fault, wrap, File, text, binary, WorkDir, M, pure, raise, host_call, ◌>>=◌,
}

-- One run of the command: what it writes to both writers of the runner together, what it writes to
-- each, the plan file that it leaves, and how it fails, if it does.
pub record ToolRun : Type 0 where
  pub written : Bytes
  pub stdout : Bytes
  pub stderr : Bytes
  pub plan_file : Option Bytes
  pub failure : Option String

-- One run of a hook by `sh -c` in the working directory: how it fails to start, the lines that the
-- scanner reads, how the command and the scanner end, and what it leaves of the directory.
pub data ScanEnd : Type 0 where
  clean canceled : ScanEnd
  broken : String → ScanEnd

pub record HookRun : Type 0 where
  pub unstarted : Option String
  pub lines : List Bytes
  pub failure : Option String
  pub scan_end : ScanEnd
  pub left : WorkDir

pub record Host : Type 0 where
  pub os : ℕ → Option String  -- how an operation on files fails, if it does
  pub list_secrets : ℕ → String → String → String → Result (List Secret)
  pub marshal : Fields → Result String  -- json.Marshal
  pub setup : ℕ → List (String × String) → Option String  -- LookPath, NewTerraform, SetEnv
  pub init : ℕ → WorkDir → ToolRun
  pub plan : ℕ → Bool → WorkDir → ToolRun  -- the flag is tfexec.Destroy(true)
  pub apply : ℕ → WorkDir → ToolRun
  pub destroy : ℕ → WorkDir → ToolRun
  pub show : ℕ → WorkDir → ToolRun
  pub show_result : ℕ → WorkDir → Bytes  -- the text that ShowPlanFileRaw returns
  pub hook : ℕ → Bytes → WorkDir → HookRun
  pub removed : ℕ → WorkDir → WorkDir  -- what os.RemoveAll leaves, whose error is dropped
  pub cancelled : ℕ → Bool  -- whether the context is done
  pub reader : ℕ → Option String  -- how the goroutine that publishes the output fails, if it does

unfoldable pub write : String → File → List (String × File) → List (String × File)
write name f [] = (name, f) ∷ []
write name f ((n, g) ∷ fs) = if n == name then (name, f) ∷ fs else (n, g) ∷ write name f fs

unfoldable pub write_in : String → File → WorkDir → WorkDir
unfolding write
write_in name f none = none
write_in name f (some fs) = some (write name f fs)

unfoldable pub report : Option String → Result (Unit {0})
report none = ok tt
report (some s) = err (fault s)

module _ (host : Host) where
  unfoldable pub write_file : String → File → M (Unit {0})
  unfolding write_in report
  write_file name f = host_call λ t w. elim (host.os t) [
    | none ↦ (ok tt, record w { work_dir = write_in name f w.work_dir })
    | some s ↦ (err (fault s), w)
  ]

  unfoldable pub new_runner : List (String × String) → M (Unit {0})
  unfolding report
  new_runner env = host_call λ t w. (report (host.setup t env), w)

  -- A run's output goes to the log; the plan file is left in the working directory.
  unfoldable pub keep_plan : Option Bytes → WorkDir → WorkDir
  unfolding write_in
  keep_plan none dir = dir
  keep_plan (some b) dir = write_in "tfplan" (binary b) dir

  unfoldable pub run_tool : (ℕ → WorkDir → ToolRun) → M ToolRun
  unfolding keep_plan
  run_tool command = host_call λ t w.
      let run = command t w.work_dir in
      (
        ok run,
        record w { log = w.log ++ run.written; work_dir = keep_plan run.plan_file w.work_dir },
      )

  unfoldable pub is_cancelled : M Bool
  is_cancelled = host_call λ t w. (ok (host.cancelled t), w)

  -- The error of a run; the text of stderr that the source puts behind it is not kept.
  unfoldable pub finished : String → ToolRun → M Bytes
  finished label run = elim run.failure [
    | none ↦ pure run.stdout
    | some s ↦ raise (wrap label (fault s))
  ]

  unfoldable pub plan : Bool → M Bytes
  unfolding run_tool finished
  plan destroy = do
    run ← run_tool (λ t dir. host.plan t destroy dir)
    finished "terraform plan failed" run

  unfoldable pub apply : M Bytes
  unfolding run_tool finished
  apply = do run ← run_tool host.apply; finished "terraform apply failed" run

  -- Nothing calls it.
  unfoldable pub destroy : M Bytes
  unfolding run_tool finished
  destroy = do run ← run_tool host.destroy; finished "terraform destroy failed" run

  -- `Show` sets writers of its own, so nothing of it reaches the log.
  unfoldable pub shown : ToolRun → Bytes → M Bytes
  shown run out = elim run.failure [
    | some s ↦ raise (wrap "terraform show failed" (fault s))
    | none ↦
        pure
          (if nat_eq (length run.stdout) 0 && not (nat_eq (length out) 0) then out else run.stdout)
  ]

  unfoldable pub show : M Bytes
  unfolding shown
  show = do
    (run, out) ← host_call λ t w. (ok (host.show t w.work_dir, host.show_result t w.work_dir), w)
    shown run out

  -- After an attempt: success returns; otherwise the context is looked at, and `again` is the rest
  -- of the loop.
  unfoldable pub init_retry : Option String → (String → M (Unit {0})) → M (Unit {0})
  unfolding is_cancelled
  init_retry none again = pure tt
  init_retry (some s) again = do
    done ← is_cancelled
    if done
        then raise
            (wrap "context cancelled during terraform init retries" (fault "context canceled"))
        else again s

  -- The loop of `Init` over the attempts that are left; `last` is the error of the last one.
  unfoldable pub init_loop : ℕ → String → M (Unit {0})
  unfolding run_tool init_retry
  init_loop zero last = raise (wrap "terraform init failed after retries" (fault last))
  init_loop (suc left) last = do
    run ← run_tool host.init
    init_retry run.failure (λ s. init_loop left s)

  unfoldable pub init : M (Unit {0})
  unfolding init_loop
  init = init_loop 3 ""

pub record BackendConfig : Type 0 where
  pub url : String
  pub username : String
  pub password : String

unfoldable pub backend_tf : BackendConfig → String
backend_tf c =
    "\nterraform {\n  backend \"http\" {\n    address        = \""
    <> (c.url
        <> ("\"\n    update_method  = \"POST\"\n    lock_address   = \""
            <> (c.url
                <> ("\"\n    lock_method    = \"LOCK\"\n    unlock_address = \""
                    <> (c.url
                        <> ("\"\n    unlock_method  = \"UNLOCK\"\n    username       = \""
                            <> (c.username
                                <> ("\"\n    password       = \""
                                    <> (c.password <> "\"\n  }\n}\n")))))))))

module _ (host : Host) where
  unfoldable pub write_backend_config : BackendConfig → M (Unit {0})
  unfolding write_file backend_tf
  write_backend_config c = write_file host "backend.tf" (text (backend_tf c))
