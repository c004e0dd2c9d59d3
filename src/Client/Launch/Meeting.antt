-- ===== src/Client/Launch/Meeting.antt =====
-- What the plugin is started with, and that it dials where the frontend listens.
use openmso_api.Prelude.{ℕ, ◌+◌, some, List, ◌∷◌, ◌++◌, ◌≡◌, refl, sym, ap, ◌∙◌, Str}
use openmso_api.Failure.{ok}
use openmso_api.World.{rep0, push0, pull0, req0, Call, dial, spawn, recv_timeout, World, System}
use openmso_api.Transport.Endpoints.{Endpoints}
use openmso_api.Transport.Sockets.Effects.{socket_calls}
use openmso_api.Server.Args.{Args, parse, from_env}
use openmso_api.Server.Args.Launch.{Setting, spell_all, parse_last}
use openmso_api.Server.Start.{dial_both}
use openmso_api.Server.Start.Dialling.{dial_both_calls}
use openmso_api.Client.{CaptureClient}
use openmso_api.Client.Launch.{Handles, plugin_args, launch}
use openmso_api.Client.Launch.Worlds.{control_listener, event_listener, private_listen}
use openmso_api.Client.Launch.Trace.{launch_trace}

-- The arguments that the plugin is to find.
abbrev pub plugin_view : Str → Endpoints → Args
plugin_view device e = record { device = device; control = e.control; events = e.events }

module _ (sys : System) {W : Type 0} (peer : Handles → W) where
  -- A launch that succeeds has, as its last call, started the first word of the argv with arguments
  -- in which `Args::from_env` of the plugin finds the given device and the two URLs of the
  -- endpoints, where the other words of the argv are settings of such arguments or none.
  pub launch-parse :
      (program device : Str) (xs : List Setting) (w : World) {w' : World} {c : CaptureClient W}
      {h : Handles}
      → launch sys peer (program ∷ spell_all xs) device w ≡ (w', ok (c, h))
      → (args : List Str) × (earlier : List Call) × (w'.calls
          ≡ spawn h.child program args ∷ earlier)
        × (from_env (program ∷ args) ≡ ok (plugin_view device h.endpoints))
  unfolding from_env
  launch-parse program device xs w {w'} {c} {h} went =
      let (_, _, _, calls, _) = launch_trace sys peer program (spell_all xs) device w went in
      (
        plugin_args (spell_all xs) device h.endpoints,
        _,
        calls,
        parse_last xs device h.endpoints.control h.endpoints.events,
      )

  -- A plugin that was started by a launch whose argv is a program and any settings of `--device`,
  -- `--control` and `--events`, each as one word or two and none being usual, and whose `serve` gets its
  -- sockets, has dialled with its control socket the URL at which the client's control socket listens, and with its event socket
  -- the URL at which the client's event socket listens. The last call of the launch started it, and
  -- before that both listeners had started.
  pub launch-dial_both :
      (program device : Str) (xs : List Setting) (w v : World) {w' v' : World} {c : CaptureClient W}
      {h : Handles} {args : List Str} {earlier : List Call} {a : Args} {control stream : ℕ}
      → launch sys peer (program ∷ spell_all xs) device w ≡ (w', ok (c, h))
      → w'.calls ≡ spawn h.child program args ∷ earlier
      → from_env (program ∷ args) ≡ ok a
      → dial_both sys a v ≡ (v', ok (control, stream))
      → (v'.calls ≡ (
          dial stream (event_listener h).url ∷ socket_calls push0 stream
          ++ dial control (control_listener h).url ∷ socket_calls rep0 control
          ++ v.calls))
        × (earlier ≡ (
            private_listen (event_listener h)
            ++ socket_calls pull0 h.events
            ++ recv_timeout h.control (some 60000) ∷ private_listen (control_listener h)
            ++ socket_calls req0 h.control
            ++ w.calls))
  unfolding from_env
  launch-dial_both program device xs w v {w'} {v'} {c} {h} {args} {earlier} {a} {control} {stream}
        went last read dialled =
      let (_, _, _, calls, _) = launch_trace sys peer program (spell_all xs) device w went in
      let same = sym last ∙ calls in
      let (number, next, world) = dial_both_calls sys a v dialled in
      let given : args ≡ plugin_args (spell_all xs) device h.endpoints = cc same in
      let read' : ok a ≡ ok (plugin_view device h.endpoints) =
        sym read ∙ ap parse given ∙ parse_last xs device h.endpoints.control h.endpoints.events in
      let view : a ≡ plugin_view device h.endpoints = cc read' in
      let at : ◌≡◌ {A = ℕ × ℕ × Args} (control, stream, plugin_view device h.endpoints)
          (v.next, v.next + 1, a) =
        rw (number, next, view) refl in
      (
        ap (λ x. x.calls) world
            ∙ sym (
                ap {A = ℕ × ℕ × Args}
                  (λ q.
                    dial q.1 q.2.events ∷ socket_calls push0 q.1
                    ++ dial q.0 q.2.control ∷ socket_calls rep0 q.0
                    ++ v.calls)
                  at),
        cc same,
      )
