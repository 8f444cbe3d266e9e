-- ===== src/Tests/Logs.antt =====
-- The theorems on the broker, with one subscriber of one job.
use openenvx_cloud.Prelude.{◌≡◌, List, [], ◌∷◌, some}
use openenvx_cloud.Models.{Bytes}
use openenvx_cloud.Broker.{
  Broker, Step, subscribes, publishes, unsubscribes, receives, new_broker, steps,
}
use openenvx_cloud.Broker.Sound.{IsSound, new_broker-IsSound}
use openenvx_cloud.Broker.Laws.{steps-IsSound}

abbrev line : Bytes
line = 104 ∷ 105 ∷ []

abbrev session : List Step
session =
    subscribes "job-1"
    ∷ publishes "job-1" line
    ∷ receives 0
    ∷ unsubscribes "job-1" 0
    ∷ unsubscribes "job-1" 0
    ∷ publishes "job-1" line
    ∷ []

steps-IsSound_example : (b : Broker) × (steps session new_broker ≡ some b) × IsSound b
steps-IsSound_example = steps-IsSound session new_broker new_broker-IsSound
