-- ===== src/Cpp/Launch.antt =====
-- `CaptureClient::launch` of cpp/src/client.cpp and the destructor of `Endpoints` of
-- cpp/src/transport.cpp, over the world that the Rust crate calls. `runtime` and `tmp` are the variables
-- XDG_RUNTIME_DIR and TMPDIR, `mkdir_base` and `chmod_base` are
-- what the system answers about the base directory, and `failed` says which call of `spawnPlugin` an
-- `errno` is of.
pub mod Agreement
use openmso_api.Prelude.{ℕ, ◌+◌, Option, none, some, List, [], ◌∷◌, ◌++◌, Str, codes}
use openmso_api.Failure.{NngError, IoError}
use openmso_api.World.{req0, pull0, spawn, World, System}
use openmso_api.Transport.Endpoints.{Endpoints}
use openmso_api.Client.Launch.{Handles}
use openmso_api.Cpp.Errors.{io_error, protocol_error, Result, returned, thrown, stuck}
use openmso_api.Cpp.Endpoints.{rmdir, new_endpoints}
use openmso_api.Cpp.Sockets.{
  Io, pure, ◌>>=◌, ◌>>◌, or_destroy, close, new_socket_of, listen, set_recv_timeout,
}

-- `REQUEST_TIMEOUT`, in milliseconds.
abbrev pub request_timeout : ℕ
request_timeout = 60000

-- `full`
abbrev pub full_argv : List Str → Str → Endpoints → List Str
full_argv argv device endpoints =
    argv
    ++ codes "--device"
      ∷ device
      ∷ codes "--control"
      ∷ endpoints.control
      ∷ codes "--events"
      ∷ endpoints.events
      ∷ []

-- The destructor of `Endpoints`, whose directory holds its two sockets at most.
unfoldable pub remove_dir : Endpoints → World → World
unfolding rmdir
remove_dir e w = record w { dirs = rmdir e.dir w.dirs }

module _ (sys : System) (nng_number : NngError → ℕ) (errno_number : IoError → ℕ)
    (strerror : ℕ → Str) (runtime tmp : Option Str) (mkdir_base chmod_base : Option IoError)
    (failed : IoError → Str) where
  -- `make_unique<Endpoints>()`
  unfoldable pub make_endpoints : Io Endpoints
  make_endpoints w =
      let (dirs, made) =
        new_endpoints errno_number strerror sys.refused runtime tmp mkdir_base chmod_base
          sys.entropy w.dirs in
      (record w { dirs = dirs }, made)

  -- `spawnPlugin`, as one call.
  unfoldable pub start_child : List Str → Io ℕ
  start_child [] w = (w, stuck)
  start_child (program ∷ args) w = elim (sys.io_error (spawn w.next program args) w.calls) [
    | some e ↦ (w, thrown (io_error strerror (errno_number e) (failed e)))
    | none ↦ (
      record w {
        calls = spawn w.next program args ∷ w.calls;
        next = w.next + 1;
        children = w.next ∷ w.children;
      },
      returned w.next,
    )
  ]

  -- What follows the two sockets, and what follows the first one.
  unfoldable pub launch_child : List Str → Str → Endpoints → ℕ → ℕ → Io Handles
  unfolding start_child
  launch_child argv device e control events = do
    listen sys nng_number strerror events e.events
    child ← start_child (full_argv argv device e)
    pure (record { child = child; control = control; events = events; endpoints = e })

  unfoldable pub launch_events : List Str → Str → Endpoints → ℕ → Io Handles
  unfolding launch_child
  launch_events argv device e control = do
    listen sys nng_number strerror control e.control
    set_recv_timeout sys nng_number strerror control (some request_timeout)
    events ← new_socket_of sys nng_number strerror pull0
    or_destroy (close events) (launch_child argv device e control events)

  unfoldable pub launch_sockets : List Str → Str → Endpoints → Io Handles
  unfolding launch_events
  launch_sockets argv device e = do
    control ← new_socket_of sys nng_number strerror req0
    or_destroy (close control) (launch_events argv device e control)

  -- `CaptureClient::launch`, and what a client that is left by a `throw` destroys.
  unfoldable pub launch : List Str → Str → Io Handles
  unfolding make_endpoints launch_sockets remove_dir
  launch [] device w = (w, thrown (protocol_error (codes "plugin has an empty argv")))
  launch (program ∷ rest) device w =
      (make_endpoints >>= λ e. or_destroy (remove_dir e) (launch_sockets (program ∷ rest) device e))
        w
