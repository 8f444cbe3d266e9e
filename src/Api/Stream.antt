-- ===== src/Api/Stream.antt =====
-- internal/api/handlers_jobs.go: the stream of a job's log lines to a client, from its subscription to
-- its return. The other goroutines use the broker in between; their steps are part of the input.
-- The response is a 200 with the headers of an event stream, whatever follows.
pub mod Lines
pub mod Watching
pub mod Delivery
use openenvx_cloud.Prelude.{
  ℕ, String, Bool, true, false, List, [], ◌∷◌, ◌++◌, Option, none, some, if◌then◌else◌, codes,
}
use openenvx_cloud.Models.{Bytes}
use openenvx_cloud.Broker.{Broker, Step, subscribe, unsubscribe, receive, step}

-- "data: %s\n\n"
unfoldable pub frame : Bytes → Bytes
frame line = codes "data: " ++ line ++ 10 ∷ 10 ∷ []

-- What happens next: somebody else uses the broker, the `select` takes the request's context, or it
-- takes the channel, and then the client can be written to or cannot.
pub data Event : Type 0 where
  elsewhere : Step → Event
  gone : Event
  chosen : Bool → Event

-- The frames written, whether the handler is still in its loop, and whether it returned the error of a
-- write.
pub record Stream : Type 0 where
  pub sent : List Bytes
  pub broker : Broker
  pub serving : Bool
  pub failed : Bool

module _ (id : String) (c : ℕ) where
  -- The deferred `Unsubscribe`; `none` is a panic.
  unfoldable pub leave : Bool → List Bytes → Broker → Option Stream
  leave failed sent b = elim (unsubscribe id c b) [
    | none ↦ none
    | some b' ↦ some (record { sent = sent; broker = b'; serving = false; failed = failed })
  ]

  -- The loop. The channel cannot be chosen while it is open and holds no line.
  unfoldable pub stream_from : List Event → List Bytes → Broker → Option Stream
  unfolding leave
  stream_from [] sent b = some (record { sent = sent; broker = b; serving = true; failed = false })
  stream_from (elsewhere s ∷ es) sent b = elim (step s b) [
    | none ↦ none
    | some b' ↦ stream_from es sent b'
  ]
  stream_from (gone ∷ es) sent b = leave false sent b
  stream_from (chosen writes ∷ es) sent b = elim (b.channels c).buffer [
    | [] ↦ elim (b.channels c).closed [ true ↦ leave false sent b | false ↦ stream_from es sent b ]
    | line ∷ rest ↦ elim writes [
      | true ↦ stream_from es (sent ++ frame line ∷ []) (receive c b)
      | false ↦ leave true sent (receive c b)
    ]
  ]

unfoldable pub handle_stream_job_logs : String → List Event → Broker → Option Stream
unfolding stream_from
handle_stream_job_logs id es b = let (c, b') = subscribe id b in stream_from id c es [] b'
