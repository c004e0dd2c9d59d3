-- ===== src/Client/Launch/Trace.antt =====
-- The calls that a successful `launch` has made, and what it holds then.
use openmso_api.Prelude.Paths.{private_dir}
use openmso_api.Prelude.{ℕ, some, true, List, ◌∷◌, ◌++◌, ◌≡◌, refl, arith, sym, ap, ◌∙◌, Str}
use openmso_api.Failure.{ok}
use openmso_api.World.{req0, pull0, recv_timeout, spawn, World, System, close}
use openmso_api.World.Calls.{held, >>=-eq-ok, or_drop-eq-ok, pure-eq-ok}
use openmso_api.Transport.Endpoints.{Endpoints, new_endpoints}
use openmso_api.Transport.Endpoints.Creation.{Private, new_endpoints-Private}
use openmso_api.Transport.Sockets.{is_ipc, socket, listen, set_recv_timeout}
use openmso_api.Transport.Sockets.Effects.{
  socket_calls, listener_in, with_socket, with_listener, socket-eq-ok, listen-eq-ok,
  set_recv_timeout-eq-ok,
}
use openmso_api.Client.{CaptureClient}
use openmso_api.Client.Launch.{
  Handles, plugin_args, make_endpoints, start_child, launch_child, launch_events, launch_sockets,
  launch_handles, launch, remove_dir,
}
use openmso_api.Client.Launch.Worlds.{
  control_listener, event_listener, private_listen, handles_in, launched, with_child, with_timeout,
  launched_dirs, launched_in_steps,
}

module _ (sys : System) where
  start_child-eq-ok :
      (program : Str) (args : List Str) (w : World) {w' : World} {child : ℕ}
      → start_child sys program args w ≡ (w', ok child)
      → (child ≡ w.next) × (w' ≡ with_child program args w)
  unfolding start_child with_child
  start_child-eq-ok program args w h = ground arith

  launch_child-eq-ok :
      (program : Str) (rest : List Str) (device : Str) (e : Endpoints) (control events : ℕ)
      (w : World) {w' : World} {h : Handles}
      → launch_child sys program rest device e control events w ≡ (w', ok h)
      → let u : World = with_listener (listener_in w events e.events) w in
        (h ≡ record { child = u.next; control = control; events = events; endpoints = e })
        × (w' ≡ with_child program (plugin_args rest device e) u)
  unfolding launch_child
  launch_child-eq-ok program rest device e control events w h =
      let (_, u, listening, more) = >>=-eq-ok (listen sys events e.events) _ w h in
      let (child, v, starting, last) =
        >>=-eq-ok (start_child sys program (plugin_args rest device e)) _ u more in
      let (_, listened) = listen-eq-ok sys events e.events w listening in
      let (number, started) = start_child-eq-ok program (plugin_args rest device e) u starting in
      let (same, end) = pure-eq-ok _ v last in
      (
        same ∙ rw (number, listened) refl,
        end ∙ started ∙ ap (with_child program (plugin_args rest device e)) listened,
      )

  launch_events-eq-ok :
      (program : Str) (rest : List Str) (device : Str) (e : Endpoints) (control : ℕ) (w : World)
      {w' : World} {h : Handles}
      → launch_events sys program rest device e control w ≡ (w', ok h)
      → let u : World = with_timeout control (with_listener (listener_in w control e.control) w) in
        let v : World = with_socket pull0 u in
        let x : World = with_listener (listener_in v u.next e.events) v in
        (h ≡ record { child = x.next; control = control; events = u.next; endpoints = e })
        × (w' ≡ with_child program (plugin_args rest device e) x)
  unfolding launch_events with_timeout
  launch_events-eq-ok program rest device e control w h =
      let (_, u, listening, more) = >>=-eq-ok (listen sys control e.control) _ w h in
      let (_, u', timing, more) = >>=-eq-ok (set_recv_timeout sys control (some 60000)) _ u more in
      let (events, v, opening, more) = >>=-eq-ok (socket sys pull0) _ u' more in
      let (_, listened) = listen-eq-ok sys control e.control w listening in
      let timed = set_recv_timeout-eq-ok sys control (some 60000) u timing in
      let (number, opened) = socket-eq-ok sys pull0 u' opening in
      let (same, end) = launch_child-eq-ok program rest device e control events v (
        or_drop-eq-ok (close events) (launch_child sys program rest device e control events) v
          more) in
      (
        same ∙ rw (number, opened, timed, listened) refl,
        end ∙ rw (number, opened, timed, listened) refl,
      )

  launch_sockets-eq-ok :
      (program : Str) (rest : List Str) (device : Str) (e : Endpoints) (w : World) {w' : World}
      {h : Handles}
      → launch_sockets sys program rest device e w ≡ (w', ok h)
      → (h ≡ handles_in w.next e) × (w' ≡ launched program (plugin_args rest device e) h w)
  unfolding launch_sockets
  launch_sockets-eq-ok program rest device e w {w'} {h} went =
      let (control, u, opening, more) = >>=-eq-ok (socket sys req0) _ w went in
      let (number, opened) = socket-eq-ok sys req0 w opening in
      let (same, end) =
        launch_events-eq-ok program rest device e control u (
          or_drop-eq-ok (close control) (launch_events sys program rest device e control) u more) in
      let (numbers, world) = launched_in_steps program (plugin_args rest device e) e w in
      let at : h ≡ handles_in w.next e = same ∙ rw (number, opened) numbers in
      (at, end ∙ rw (at, number, opened) world)

  pub make_endpoints-Private :
      (w : World) {u : World} {e : Endpoints}
      → make_endpoints sys w ≡ (u, ok e)
      → Private w.dirs u.dirs e × (u ≡ record w { dirs = u.dirs })
  unfolding make_endpoints
  make_endpoints-Private w {u} {e} h =
      let made : new_endpoints sys.refused sys.base sys.prepared sys.entropy w.dirs
          ≡ (u.dirs, ok e) =
        ap (λ r. (r.0.dirs, r.1)) h in
      (
        new_endpoints-Private sys.refused sys.base sys.prepared sys.entropy w.dirs u.dirs made,
        ground arith,
      )

  launch_handles-eq-ok :
      (program : Str) (rest : List Str) (device : Str) (w : World) {w' : World} {h : Handles}
      → launch_handles sys (program ∷ rest) device w ≡ (w', ok h)
      → let e : Endpoints = h.endpoints in
        Private w.dirs w'.dirs e
        × (h ≡ handles_in w.next e)
        × (w' ≡ launched program (plugin_args rest device e) h (record w { dirs = w'.dirs }))
  unfolding launch_handles
  launch_handles-eq-ok program rest device w {w'} {h} went =
      let (e, u, making, more) = >>=-eq-ok (make_endpoints sys) _ w went in
      let (made, placed) = make_endpoints-Private w making in
      let (same, end) =
        launch_sockets-eq-ok program rest device e u
          (or_drop-eq-ok (remove_dir e) (launch_sockets sys program rest device e) u more) in
      let at : h.endpoints ≡ e = ap (λ x. x.endpoints) same in
      let kept : w'.dirs ≡ u.dirs =
        ap (λ x. x.dirs) end ∙ launched_dirs program (plugin_args rest device e) h u in
      (
        rw (kept, at) made,
        same ∙ rw at (ap (λ x. handles_in x.next e) placed),
        end
            ∙ ap (launched program (plugin_args rest device e) h)
                (placed ∙ ap (λ dirs. record w { dirs = dirs }) (sym kept))
            ∙ ap (λ x. launched program (plugin_args rest device x) h (record w { dirs = w'.dirs }))
                (sym at),
      )

  pub launch-eq-ok :
      {W : Type 0} (peer : Handles → W) (argv : List Str) (device : Str) (w : World) {w' : World}
      {c : CaptureClient W} {h : Handles}
      → launch sys peer argv device w ≡ (w', ok (c, h))
      → (launch_handles sys argv device w ≡ (w', ok h))
        × (c ≡ record { seq = 0; capture_id = 0; world = peer h })
  unfolding launch
  launch-eq-ok peer argv device w {w'} {c} {h} went =
      let (x, u, handles, last) = >>=-eq-ok (launch_handles sys argv device) _ w went in
      let (same, end) = pure-eq-ok _ u last in
      let at : h ≡ x = ap (λ p. p.1) same in
      (
        handles ∙ ap (λ v. (v, ok x)) (sym end) ∙ ap (λ y. (w', ok y)) (sym at),
        ap (λ p. p.0) same ∙ ap (λ y. record { seq = 0; capture_id = 0; world = peer y }) (sym at),
      )

  -- What `launch` promises when it succeeds. The directory of the endpoints is new and has the mode
  -- 0o700, their URLs are `ipc://` and what the paths of the two sockets in it print as, and the path of
  -- the control socket is at most 103 bytes long. The calls are those that set the options of the two
  -- sockets, restrict each listener to the user before it starts, and start the child at the end, when
  -- both sockets listen. The new client holds the two sockets, the directory and the child, and begins
  -- with request number and capture id 0.
  pub launch_trace :
      {W : Type 0} (peer : Handles → W) (program : Str) (rest : List Str) (device : Str) (w : World)
      {w' : World} {c : CaptureClient W} {h : Handles}
      → launch sys peer (program ∷ rest) device w ≡ (w', ok (c, h))
      → Private w.dirs w'.dirs h.endpoints
        × (h ≡ handles_in w.next h.endpoints)
        × (c ≡ record { seq = 0; capture_id = 0; world = peer h })
        × (w'.calls ≡ (
            spawn h.child program (plugin_args rest device h.endpoints)
              ∷ private_listen (event_listener h)
            ++ socket_calls pull0 h.events
            ++ recv_timeout h.control (some 60000) ∷ private_listen (control_listener h)
            ++ socket_calls req0 h.control
            ++ w.calls))
        × (held w' ≡ record {
          sockets = h.events ∷ h.control ∷ w.sockets;
          dirs = private_dir h.endpoints.dir ∷ w.dirs;
          children = h.child ∷ w.children;
        })
  unfolding launched
  launch_trace peer program rest device w {w'} {c} {h} went =
      let (handles, new) = launch-eq-ok peer (program ∷ rest) device w went in
      let (made, numbers, world) = launch_handles-eq-ok program rest device w handles in
      let control : is_ipc h.endpoints.control ≡ true = ap is_ipc made.control in
      let events : is_ipc h.endpoints.events ≡ true = ap is_ipc made.events in
      (
        made,
        numbers,
        new,
        ap (λ x. x.calls) world ∙ rw (control, events) refl,
        ap held world
            ∙ ap
                (λ dirs. record {
                  sockets = h.events ∷ h.control ∷ w.sockets;
                  dirs = dirs;
                  children = h.child ∷ w.children;
                })
                made.made,
      )
