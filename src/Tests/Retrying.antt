-- ===== src/Tests/Retrying.antt =====
-- The theorem on the attempts of `terraform init`, the first of which fails.
use openenvx_cloud.Prelude.{some, none, nat_eq, if◌then◌else◌}
use openenvx_cloud.Terraform.{Host, init}
use openenvx_cloud.Terraform.Retrying.{Ends, init_lem}
use openenvx_cloud.Tests.{tools, start}

-- The first call of all is the first attempt.
abbrev flaky : Host
flaky = record tools {
  init =
      λ t d. record (tools.init t d) { failure = if nat_eq t 0 then some "no network" else none };
}

init_lem_example : Ends flaky 3 "" start (init flaky start).0 (init flaky start).1
init_lem_example = init_lem flaky start
