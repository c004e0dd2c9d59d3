-- ===== src/Server/Start/Dialling.antt =====
-- How `serve` gets its sockets and gives them back.
use openmso_api.Prelude.{
  ℕ, ◌+◌, Bool, false, Option, some, List, [], ◌∷◌, ◌++◌, ◌≡◌, refl, arith, sym, ap, ◌∙◌,
}
use openmso_api.Failure.{NngError, Outcome, ok, err, panic, stuck}
use openmso_api.World.{
  rep0, push0, Call, dial, World, System, pure, ◌>>◌, remove_one, close, nng_call,
}
use openmso_api.World.Calls.{
  held, is_ok, Tidy, Tidy->>, Tidy-or_drop, >>=-eq-ok, or_drop-eq-ok, pure-eq-ok, nng_call-Neutral,
  nng_call-eq-ok,
}
use openmso_api.Transport.Sockets.{socket}
use openmso_api.Transport.Sockets.Effects.{
  socket_calls, with_socket, socket-eq-ok, socket-Tidy, socket-close,
}
use openmso_api.Server.Args.{Args}
use openmso_api.Server.Plugin.{CaptureServer}
use openmso_api.Server.Serve.{Turn, Served, serve_loop}
use openmso_api.Server.Start.{dial_events, dial_both, new_session, leave, serve_sockets, serve}

-- The calls of `serve` before its loop, newest first.
abbrev pub dial_calls : Args → ℕ → List Call
dial_calls args control =
    dial (control + 1) args.events ∷ socket_calls push0 (control + 1)
    ++ dial control args.control ∷ socket_calls rep0 control

remove_both : (n : ℕ) (ms : List ℕ) → remove_one n (remove_one (n + 1) ((n + 1) ∷ n ∷ ms)) ≡ ms
remove_both n ms = ground arith

module _ (sys : System) where
  dial_events-eq-ok :
      (args : Args) (control : ℕ) (w : World) {w' : World} {p : ℕ × ℕ}
      → dial_events sys args control w ≡ (w', ok p)
      → (p ≡ (control, w.next))
        × (w' ≡ record (with_socket push0 w) {
          calls = dial w.next args.events ∷ (with_socket push0 w).calls;
        })
  unfolding dial_events
  dial_events-eq-ok args control w {w'} {p} h =
      let (s, u, opening, more) = >>=-eq-ok (socket sys push0) _ w h in
      let (number, opened) = socket-eq-ok sys push0 w opening in
      let (_, v, dialling, last) =
        >>=-eq-ok (nng_call sys (dial s args.events)) _ u (
          or_drop-eq-ok (close s) (nng_call sys (dial s args.events) >> pure (control, s)) u
            more) in
      let (same, end) = pure-eq-ok _ v last in
      let dialled = nng_call-eq-ok sys (dial s args.events) u dialling in
      (
        same ∙ ap (λ n. (control, n)) number,
        end
            ∙ dialled
            ∙ ap (λ q. record q.1 { calls = dial q.0 args.events ∷ q.1.calls })
                (let e : ◌≡◌ {A = ℕ × World} (s, u) (w.next, with_socket push0 w) =
                    rw (number, opened) refl in
                  e),
      )

  -- When `serve` gets both sockets, the control socket has dialled the control URL of the arguments
  -- and the event socket their event URL, in this order, after their options were set.
  pub dial_both_calls :
      (args : Args) (w : World) {w' : World} {control stream : ℕ}
      → dial_both sys args w ≡ (w', ok (control, stream))
      → (control ≡ w.next)
        × (stream ≡ w.next + 1)
        × (w' ≡ record w {
          calls = dial_calls args w.next ++ w.calls;
          next = w.next + 1 + 1;
          sockets = (w.next + 1) ∷ w.next ∷ w.sockets;
        })
  unfolding dial_both dial_events with_socket
  dial_both_calls args w {w'} h =
      let (s, u, opening, more) = >>=-eq-ok (socket sys rep0) _ w h in
      let (number, opened) = socket-eq-ok sys rep0 w opening in
      let (_, v, dialling, rest) = >>=-eq-ok (nng_call sys (dial s args.control)) _ u (
        or_drop-eq-ok (close s) (nng_call sys (dial s args.control) >> dial_events sys args s) u
          more) in
      let dialled = nng_call-eq-ok sys (dial s args.control) u dialling in
      let (same, end) = dial_events-eq-ok args s v rest in
      let dialled_control : ℕ × World → World =
        λ q. record q.1 { calls = dial q.0 args.control ∷ q.1.calls } in
      let there : v ≡ dialled_control (w.next, with_socket rep0 w) =
        dialled
        ∙ ap dialled_control (
            let e : ◌≡◌ {A = ℕ × World} (s, u) (w.next, with_socket rep0 w) =
              rw (number, opened) refl in
            e) in
      (
        ap (λ p. p.0) same ∙ number,
        ap (λ p. p.1) same ∙ ap (λ x. x.next) there,
        end
            ∙ ap
                (λ x. record (with_socket push0 x) {
                  calls = dial x.next args.events ∷ (with_socket push0 x).calls;
                })
                there,
      )

  dial_events-Tidy : (args : Args) (control : ℕ) → Tidy (dial_events sys args control)
  unfolding dial_events
  dial_events-Tidy args control =
      Tidy-or_drop (socket sys push0) close
        (λ s. nng_call sys (dial s args.events) >> pure (control, s)) (socket-Tidy sys push0)
        (socket-close sys push0)
        (λ s.
          Tidy->> (nng_call sys (dial s args.events)) (pure (control, s))
            (nng_call-Neutral sys (dial s args.events)) (λ w h. refl))

  dial_both-Tidy : (args : Args) → Tidy (dial_both sys args)
  unfolding dial_both
  dial_both-Tidy args =
      Tidy-or_drop (socket sys rep0) close
        (λ s. nng_call sys (dial s args.control) >> dial_events sys args s) (socket-Tidy sys rep0)
        (socket-close sys rep0)
        (λ s.
          Tidy->> (nng_call sys (dial s args.control)) (dial_events sys args s)
            (nng_call-Neutral sys (dial s args.control)) (dial_events-Tidy args s))

module _ (sys : System) (net : ℕ → Option NngError) (P : CaptureServer) where
  open P use {State}

  held-leave :
      (keeps : State → Bool) (args : Args) (served : Served State) (w w' : World) (p : ℕ × ℕ)
      {o : Outcome (Unit {0})}
      → dial_both sys args w ≡ (w', ok p)
      → served.result ≡ some o
      → keeps served.session.plugin ≡ false
      → held (leave sys net P keeps p.0 p.1 served w') ≡ held w
  unfolding leave
  held-leave keeps args served w w' p dialled done free =
      let (number, next, world) = dial_both_calls sys args w dialled in
      let at : ◌≡◌ {A = ℕ × ℕ × World} (p.0, p.1, w')
          (
            w.next,
            w.next + 1,
            record w {
              calls = dial_calls args w.next ++ w.calls;
              next = w.next + 1 + 1;
              sockets = (w.next + 1) ∷ w.next ∷ w.sockets;
            },
          ) =
        rw (number, next, world) refl in
      rw (done, free)
        (ap (λ q. held (close q.0 (close q.1 q.2))) at
          ∙ ap (λ sockets. record (held w) { sockets = sockets }) (remove_both w.next w.sockets))

  unopened :
      (args : Args) (w w' : World) {o : Outcome (ℕ × ℕ)}
      → dial_both sys args w ≡ (w', o)
      → is_ok o ≡ false
      → held w' ≡ held w
  unopened args w w' dialled failed =
      ap (λ r. held r.0) (sym dialled)
      ∙ dial_both-Tidy sys args w (ap (λ r. is_ok r.1) dialled ∙ failed)

  sockets_held :
      (keeps : State → Bool) (args : Args) (turns : List Turn) (plugin : State) (w : World)
      (r : World × Outcome (ℕ × ℕ)) {o : Outcome (Unit {0})}
      → dial_both sys args w ≡ r
      → (serve_sockets sys net P keeps turns plugin r).1.result ≡ some o
      → keeps (serve_sockets sys net P keeps turns plugin r).1.session.plugin ≡ false
      → held (serve_sockets sys net P keeps turns plugin r).0 ≡ held w
  unfolding serve_sockets
  sockets_held keeps args turns plugin w (w', ok p) e done free =
      held-leave keeps args (serve_loop net P turns (new_session plugin) []) w w' p e done free
  sockets_held keeps args turns plugin w (w', err x) e done free = unopened args w w' e refl
  sockets_held keeps args turns plugin w (w', panic) e done free = unopened args w w' e refl
  sockets_held keeps args turns plugin w (w', stuck) e done free = unopened args w w' e refl

  -- When `serve` has returned, for whatever reason, and the plugin holds no events any more, both of
  -- its sockets are closed, and nothing else has changed of what is held.
  pub serve_releases :
      (keeps : State → Bool) (args : Args) (turns : List Turn) (plugin : State) (w : World)
      {o : Outcome (Unit {0})}
      → (serve sys net P keeps args turns plugin w).1.result ≡ some o
      → keeps (serve sys net P keeps args turns plugin w).1.session.plugin ≡ false
      → held (serve sys net P keeps args turns plugin w).0 ≡ held w
  unfolding serve
  serve_releases keeps args turns plugin w done free =
      sockets_held keeps args turns plugin w (dial_both sys args w) refl done free
