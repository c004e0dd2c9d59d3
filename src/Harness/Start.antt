-- ===== src/Harness/Start.antt =====
-- `Harness::start` of rust/openmso/tests/control_loop.rs: how the sockets of the tests are set up.
use openmso_api.Prelude.{ℕ, false, some, ◌≡◌, arith, ap, ◌∙◌, sym}
use openmso_api.Failure.{Outcome, ok}
use openmso_api.World.{req0, pull0, World, System, Io, pure, ◌>>=◌, ◌>>◌, or_drop, followed, close}
use openmso_api.World.Calls.{held, is_ok, Tidy, Tidy->>, Tidy->>=, Tidy-or_drop, dropped_fails}
use openmso_api.Transport.Endpoints.{Endpoints}
use openmso_api.Transport.Sockets.{socket, listen, set_recv_timeout}
use openmso_api.Transport.Sockets.Effects.{
  socket-Tidy, socket-close, listen-Neutral, set_recv_timeout-Neutral,
}
use openmso_api.Client.Launch.{make_endpoints, remove_dir}
use openmso_api.Client.Launch.Cleanup.{held-remove_dir}
use openmso_api.Harness.{unwrap}

-- A call that is unwrapped.
abbrev pub must : {A : Type 0} → Io A → Io A
must m w = let (w', o) = m w in (w', unwrap o)

-- The fields of the harness that own a part of the world.
pub record Owned : Type 0 where
  pub control : ℕ
  pub events : ℕ
  pub endpoints : Endpoints

module _ (sys : System) where
  -- What follows the event socket, what follows the control socket and what follows the endpoints;
  -- a panic drops what there is.
  unfoldable pub start_events : Endpoints → ℕ → ℕ → Io Owned
  start_events e control events = do
    _ ← must (listen sys events e.events)
    must (set_recv_timeout sys events (some 10000))
    pure (record { control = control; events = events; endpoints = e })

  unfoldable pub start_control : Endpoints → ℕ → Io Owned
  unfolding start_events
  start_control e control = do
    _ ← must (listen sys control e.control)
    must (set_recv_timeout sys control (some 10000))
    events ← must (socket sys pull0)
    or_drop (close events) (start_events e control events)

  unfoldable pub start_sockets : Endpoints → Io Owned
  unfolding start_control
  start_sockets e = do
    control ← must (socket sys req0)
    or_drop (close control) (start_control e control)

  -- `Harness::start`, up to the thread of the server.
  unfoldable pub start : Io Owned
  unfolding start_sockets
  start = do e ← must (make_endpoints sys); or_drop (remove_dir e) (start_sockets e)

is_ok-unwrap : {A : Type 0} (o : Outcome A) → is_ok (unwrap o) ≡ is_ok o
is_ok-unwrap o = ground arith

Tidy-must : {A : Type 0} (m : Io A) → Tidy m → Tidy (must m)
Tidy-must m h w fails = h w (sym (is_ok-unwrap (m w).1) ∙ fails)

must-eq-ok :
    {A : Type 0} (m : Io A) (w : World) {w' : World} {a : A}
    → must m w ≡ (w', ok a)
    → m w ≡ (w', ok a)
must-eq-ok m w h = ground arith

module _ (sys : System) where
  start_events-Tidy :
      (e : Endpoints) (control events : ℕ) → Tidy (start_events sys e control events)
  unfolding start_events
  start_events-Tidy e control events =
      Tidy->>= (must (listen sys events e.events)) _ (listen-Neutral sys events e.events) λ l.
        Tidy->> (must (set_recv_timeout sys events (some 10000))) _
          (set_recv_timeout-Neutral sys events (some 10000)) (λ w fails. ground arith)

  start_control-Tidy : (e : Endpoints) (control : ℕ) → Tidy (start_control sys e control)
  unfolding start_control
  start_control-Tidy e control =
      Tidy->>= (must (listen sys control e.control)) _ (listen-Neutral sys control e.control) λ l.
        Tidy->> (must (set_recv_timeout sys control (some 10000))) _
          (set_recv_timeout-Neutral sys control (some 10000))
          (Tidy-or_drop (must (socket sys pull0)) close (start_events sys e control)
            (Tidy-must (socket sys pull0) (socket-Tidy sys pull0))
            (λ s w w' u h. socket-close sys pull0 s w w' u (must-eq-ok (socket sys pull0) w h))
            (start_events-Tidy e control))

  start_sockets-Tidy : (e : Endpoints) → Tidy (start_sockets sys e)
  unfolding start_sockets
  start_sockets-Tidy e =
      Tidy-or_drop (must (socket sys req0)) close (start_control sys e)
        (Tidy-must (socket sys req0) (socket-Tidy sys req0))
        (λ s w w' u h. socket-close sys req0 s w w' u (must-eq-ok (socket sys req0) w h))
        (start_control-Tidy e)

  -- A start that panics behind the making of its endpoints has given everything back.
  start_cleans :
      (w : World) {u : World} {e : Endpoints}
      → make_endpoints sys w ≡ (u, ok e)
      → is_ok (start sys w).1 ≡ false
      → held (start sys w).0 ≡ held w
  unfolding start
  start_cleans w {u} {e} making fails =
      let next : Endpoints → Io Owned = λ e. or_drop (remove_dir e) (start_sockets sys e) in
      let step = ap (λ r. followed (r.0, unwrap r.1) next) making in
      let (same, failed) =
        dropped_fails (remove_dir e) (start_sockets sys e u)
          (sym (ap (λ r. is_ok r.1) step) ∙ fails) in
      ap (λ r. held r.0) step
      ∙ ap held same
      ∙ held-remove_dir sys e w u (start_sockets sys e u).0 making (start_sockets-Tidy e u failed)
