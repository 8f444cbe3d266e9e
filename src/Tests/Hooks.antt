-- ===== src/Tests/Hooks.antt =====
-- The theorem on hooks: the second of three exits with an error.
use openenvx_cloud.Prelude.{◌≡◌, ◌⊎◌, List, [], ◌∷◌, some, none, nat_eq, length, if◌then◌else◌}
use openenvx_cloud.Models.{Bytes}
use openenvx_cloud.World.{ok}
use openenvx_cloud.Terraform.{Host, clean}
use openenvx_cloud.Daemon.Hooks.{run_hooks}
use openenvx_cloud.Daemon.Hooks.Laws.{Passed, Stopped, run_hooks_lem}
use openenvx_cloud.Tests.{quiet, tools, start}

-- A hook of two bytes fails.
abbrev strict : Host
strict = record tools {
  hook = λ t l dir. record {
    unstarted = none;
    lines = l ∷ [];
    failure = if nat_eq (length l) 2 then some "exit status 1" else none;
    scan_end = clean;
    left = dir;
  };
}

abbrev good : Bytes
good = 97 ∷ []

abbrev bad : Bytes
bad = 97 ∷ 98 ∷ []

abbrev hooks : List Bytes
hooks = good ∷ bad ∷ good ∷ []

run_hooks_lem_example :
    let out = run_hooks quiet strict "job-3" hooks start in
    ((out.0 ≡ ok tt) × Passed quiet strict "job-3" hooks start out.1)
    ⊎ Stopped quiet strict "job-3" hooks start out
run_hooks_lem_example = run_hooks_lem quiet strict "job-3" hooks start
