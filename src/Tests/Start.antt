-- ===== src/Tests/Start.antt =====
-- The theorems on the start of the program, with the variables set.
use openenvx_cloud.Prelude.{◌≡◌, ◌↔◌, ◌≢◌, String, false, none, some, All, ◌<>◌}
use openenvx_cloud.World.{ok}
use openenvx_cloud.Main.{running, Orchestrator, Services, setup}
use openenvx_cloud.Main.Laws.{required, IsAccepted, setup_lem}

abbrev variables : String → String
variables key = key <> "-value"

abbrev services : Services
services = record {
  new_pool = λ _. ok tt;
  login = λ _ _ _. ok tt;
  parse_bool = λ _. some false;
  parse_duration = λ _. none;
}

setup_lem_example :
    ((o : Orchestrator) × (setup services variables ≡ running o))
    ↔ (All (λ k. variables k ≢ "") required × IsAccepted services variables)
setup_lem_example = setup_lem services variables
