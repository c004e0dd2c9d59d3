-- ===== src/Client/Launch.antt =====
-- `CaptureClient::launch` of rust/openmso/src/client.rs, the handles of a client, and its drop.
pub mod Worlds
pub mod Trace
pub mod Cleanup
pub mod Meeting
use openmso_api.Prelude.{ℕ, ◌+◌, Option, none, some, List, [], ◌∷◌, ◌++◌, Str, codes}
use openmso_api.Failure.{Outcome, ok, err, protocol, empty_argv}
use openmso_api.World.{
  req0, pull0, Call, spawn, kill, wait, World, System, Io, pure, ◌>>=◌, ◌>>◌, or_drop, remove_one,
  close, clone, io_call,
}
use openmso_api.Transport.Endpoints.{Endpoints, new_endpoints, drop_endpoints}
use openmso_api.Transport.Sockets.{socket, listen, set_recv_timeout}
use openmso_api.Client.{CaptureClient}

-- `REQUEST_TIMEOUT`, in milliseconds.
abbrev pub request_timeout : ℕ
request_timeout = 60000

-- `args(rest).args(["--device", device]).args(["--control", …]).args(["--events", …])`
abbrev pub plugin_args : List Str → Str → Endpoints → List Str
plugin_args rest device endpoints =
    rest
    ++ codes "--device"
      ∷ device
      ∷ codes "--control"
      ∷ endpoints.control
      ∷ codes "--events"
      ∷ endpoints.events
      ∷ []

-- The fields of `CaptureClient` that own a part of the world.
pub record Handles : Type 0 where
  pub child : ℕ
  pub control : ℕ
  pub events : ℕ
  pub endpoints : Endpoints

-- The drop of `Endpoints`.
abbrev pub remove_dir : Endpoints → World → World
remove_dir e w = record w { dirs = drop_endpoints e w.dirs }

-- `kill().ok()` and `wait().ok()`: a child that was waited for is gone.
abbrev pub ignored : World × Outcome (Unit {0}) → World
ignored (w, _) = w

module _ (sys : System) where
  -- `Endpoints::new`
  unfoldable pub make_endpoints : Io Endpoints
  make_endpoints w =
      let (dirs, made) = new_endpoints sys.refused sys.base sys.prepared sys.entropy w.dirs in
      (record w { dirs = dirs }, made)

  -- `Command::spawn`
  unfoldable pub start_child : Str → List Str → Io ℕ
  start_child program args w =
      (io_call sys (spawn w.next program args) >> λ u.
      (record u { next = w.next + 1; children = w.next ∷ u.children }, ok w.next))
        w

  -- What follows the control socket, and what follows the event socket.
  unfoldable pub launch_child : Str → List Str → Str → Endpoints → ℕ → ℕ → Io Handles
  launch_child program rest device e control events = do
    _ ← listen sys events e.events
    child ← start_child program (plugin_args rest device e)
    pure (record { child = child; control = control; events = events; endpoints = e })

  unfoldable pub launch_events : Str → List Str → Str → Endpoints → ℕ → Io Handles
  unfolding launch_child
  launch_events program rest device e control = do
    _ ← listen sys control e.control
    set_recv_timeout sys control (some request_timeout)
    events ← socket sys pull0
    or_drop (close events) (launch_child program rest device e control events)

  unfoldable pub launch_sockets : Str → List Str → Str → Endpoints → Io Handles
  unfolding launch_events
  launch_sockets program rest device e = do
    control ← socket sys req0
    or_drop (close control) (launch_events program rest device e control)

  -- The handles that `launch` returns a client with.
  unfoldable pub launch_handles : List Str → Str → Io Handles
  unfolding launch_sockets
  launch_handles [] device w = (w, err (protocol empty_argv))
  launch_handles (program ∷ rest) device w =
      (make_endpoints >>= λ e. or_drop (remove_dir e) (launch_sockets program rest device e)) w

  -- `peer` is what the control socket leads to.
  unfoldable pub launch :
      {W : Type 0} → (Handles → W) → List Str → Str → Io (CaptureClient W × Handles)
  unfolding launch_handles
  launch peer argv device = do
    h ← launch_handles argv device
    pure (record { seq = 0; capture_id = 0; world = peer h }, h)

  -- `Child::wait`: it takes the child's process away.
  unfoldable pub wait_child : ℕ → Io (Unit {0})
  wait_child child w =
      (io_call sys (wait child) >> λ u.
      (record u { children = remove_one child u.children }, ok tt))
        w

  -- `CaptureClient::drop`, and then the drops of the fields in their order.
  unfoldable pub drop_client : Handles → World → World
  unfolding wait_child
  drop_client h w =
      let killed = ignored (io_call sys (kill h.child) w) in
      let waited = ignored (wait_child h.child killed) in
      remove_dir h.endpoints (close h.events (close h.control waited))
