-- ===== src/Tests/Stream.antt =====
-- The theorem on the stream of log lines, with a client that leaves after one line.
use openenvx_cloud.Prelude.{◌≡◌, true, List, [], ◌∷◌, some}
use openenvx_cloud.Broker.{new_broker, subscribes, publishes}
use openenvx_cloud.Broker.Sound.{new_broker-IsSound}
use openenvx_cloud.Api.Stream.{Event, elsewhere, gone, chosen, Stream, handle_stream_job_logs}
use openenvx_cloud.Api.Stream.Delivery.{Delivered, lines_of, stream_lem}

abbrev visit : List Event
visit =
    elsewhere (subscribes "job-2")
    ∷ elsewhere (publishes "job-1" (104 ∷ 105 ∷ []))
    ∷ elsewhere (publishes "job-2" (104 ∷ []))
    ∷ chosen true
    ∷ elsewhere (publishes "job-1" (106 ∷ []))
    ∷ gone
    ∷ []

stream_lem_example :
    (s : Stream) × (handle_stream_job_logs "job-1" visit new_broker ≡ some s)
    × Delivered "job-1" 0 (lines_of "job-1" visit) s
stream_lem_example =
    stream_lem "job-1" visit new_broker new_broker-IsSound (tt, (tt, (tt, (tt, tt))))
