-- ===== src/Client/Events.antt =====
-- The timeouts, the event stream and the `shutdown` of `CaptureClient` of rust/openmso/src/client.rs,
-- over the handles that `launch` gave, and `EventStream`.
pub mod Outliving
use openmso_api.Prelude.{ℕ, Option, Str, ◌⊎◌}
use openmso_api.Proto.Stream.{Event}
use openmso_api.Proto.Control.{Request}
use openmso_api.Failure.{NngError, Outcome}
use openmso_api.World.{World, System, Io, close, clone}
use openmso_api.Transport.Sockets.{recv, set_recv_timeout}
use openmso_api.Client.{CaptureClient, Exchange, Called}
use openmso_api.Client
use openmso_api.Client.Launch.{Handles, ignored, wait_child}

-- `EventStream`
pub record EventStream : Type 0 where
  pub socket : ℕ

-- `CaptureClient::event_stream`, and the drop of the stream.
unfoldable pub event_stream : Handles → World → World × EventStream
event_stream h w = (clone h.events w, record { socket = h.events })

unfoldable pub drop_stream : EventStream → World → World
drop_stream stream w = close stream.socket w

module _ (sys : System) where
  -- `CaptureClient::set_request_timeout` and `set_event_timeout`, and `EventStream::set_timeout`.
  unfoldable pub set_request_timeout : Handles → Option ℕ → Io (Unit {0})
  set_request_timeout h timeout = set_recv_timeout sys h.control timeout

  unfoldable pub set_event_timeout : Handles → Option ℕ → Io (Unit {0})
  set_event_timeout h timeout = set_recv_timeout sys h.events timeout

  unfoldable pub set_timeout : EventStream → Option ℕ → Io (Unit {0})
  set_timeout stream timeout = set_recv_timeout sys stream.socket timeout

  -- `CaptureClient::shutdown`, with the child waited for whatever the plugin answers.
  unfoldable pub shutdown_and_wait :
      {W : Type 0}
      → (Request → W → W × Exchange)
      → Handles
      → CaptureClient W
      → World
      → World × Called W (Unit {0})
  shutdown_and_wait exchange h c w =
      let called = Client.shutdown exchange c in (ignored (wait_child sys h.child w), called)

-- `receive` is `Socket::recv` of a socket, and `decoder` the decoding of an event.
module _ {N : Type 0} (receive : ℕ → N → N × (NngError ⊎ Str)) (decoder : Str → Str ⊎ Event) where
  -- `EventStream::next_event`
  unfoldable pub stream_event : EventStream → N → N × Outcome Event
  stream_event stream n = let (n', got) = receive stream.socket n in (n', recv decoder got)

  -- `CaptureClient::next_event`
  unfoldable pub next_event : Handles → N → N × Outcome Event
  next_event h n = let (n', got) = receive h.events n in (n', recv decoder got)
