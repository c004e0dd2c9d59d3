-- ===== src/Client/Launch/Worlds.antt =====
-- The calls of a launch, and the worlds that it goes through.
use openmso_api.Prelude.{ℕ, ◌+◌, some, List, [], ◌∷◌, ◌++◌, ◌≡◌, refl, arith, Str}
use openmso_api.World.{
  req0, pull0, Listener, Call, recv_timeout, new_listener, permissions, start, spawn, World,
}
use openmso_api.Transport.Endpoints.{Endpoints}
use openmso_api.Transport.Sockets.Effects.{
  socket_calls, listen_calls, listener_in, with_socket, with_listener,
}
use openmso_api.Client.Launch.{Handles}

-- The listeners of the two sockets.
abbrev pub control_listener : Handles → Listener
control_listener h = record { id = h.control + 1; socket = h.control; url = h.endpoints.control }

abbrev pub event_listener : Handles → Listener
event_listener h = record { id = h.events + 1; socket = h.events; url = h.endpoints.events }

-- The calls of a `listen` that restricts its listener.
abbrev pub private_listen : Listener → List Call
private_listen l = start l ∷ permissions l 384 ∷ new_listener l ∷ []

-- The calls of a launch, newest first.
abbrev pub launch_calls : Str → List Str → Handles → List Call
launch_calls program args h =
    spawn h.child program args ∷ listen_calls (event_listener h)
    ++ socket_calls pull0 h.events
    ++ recv_timeout h.control (some 60000) ∷ listen_calls (control_listener h)
    ++ socket_calls req0 h.control

-- What `launch` returns where the next number is `n`.
abbrev pub handles_in : ℕ → Endpoints → Handles
handles_in n e = record { child = n + 4; control = n; events = n + 2; endpoints = e }

-- The world once the two sockets listen and the child runs.
unfoldable pub launched : Str → List Str → Handles → World → World
launched program args h w = record {
  calls = launch_calls program args h ++ w.calls;
  next = h.child + 1;
  sockets = h.events ∷ h.control ∷ w.sockets;
  dirs = w.dirs;
  children = h.child ∷ w.children;
}

unfoldable pub with_child : Str → List Str → World → World
with_child program args w = record w {
  calls = spawn w.next program args ∷ w.calls;
  next = w.next + 1;
  children = w.next ∷ w.children;
}

unfoldable pub with_timeout : ℕ → World → World
with_timeout s w = record w { calls = recv_timeout s (some 60000) ∷ w.calls }

pub launched_dirs :
    (program : Str) (args : List Str) (h : Handles) (w : World)
    → (launched program args h w).dirs ≡ w.dirs
unfolding launched
launched_dirs program args h w = refl

-- The worlds of the calls, one after the other.
pub launched_in_steps :
    (program : Str) (args : List Str) (e : Endpoints) (w : World)
    → let t : World = with_socket req0 w in
      let u : World = with_timeout w.next (with_listener (listener_in t w.next e.control) t) in
      let v : World = with_socket pull0 u in
      let x : World = with_listener (listener_in v u.next e.events) v in
      (record { child = x.next; control = w.next; events = u.next; endpoints = e }
        ≡ handles_in w.next e)
      × (with_child program args x ≡ launched program args (handles_in w.next e) w)
unfolding launched with_child with_listener with_socket with_timeout
launched_in_steps program args e w =
    let two : w.next + 1 + 1 ≡ w.next + 2 = omega arith in
    let four : w.next + 2 + 1 + 1 ≡ w.next + 4 = omega arith in
    (rw (two, four) refl, rw (two, four) (ground arith))
