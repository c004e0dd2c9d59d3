-- ===== src/Client/Launch/Cleanup.antt =====
-- What a launch that fails leaves behind, and what the drop of a client does.
use openmso_api.Prelude.{
  ℕ, true, false, none, some, List, ◌∷◌, ◌≡◌, refl, arith, sym, ap, ◌∙◌, Str, inl, inr,
  if◌then◌else◌,
}
use openmso_api.Failure.{ok}
use openmso_api.World.{
  req0, pull0, Call, kill, wait, io_call, World, System, Io, or_drop, followed, remove_one, close,
}
use openmso_api.World.Calls.{
  Held, held, same_held, is_ok, Tidy, Tidy->>, Tidy->>=, Tidy-or_drop, dropped_fails,
  followed_fails, outcome-cases, io_call-Neutral,
}
use openmso_api.Transport.Endpoints.{Endpoints, drop_endpoints}
use openmso_api.Transport.Endpoints.Creation.{drop_made}
use openmso_api.Transport.Sockets.{socket, listen, set_recv_timeout}
use openmso_api.Transport.Sockets.Effects.{
  socket-Tidy, socket-close, listen-Neutral, set_recv_timeout-Neutral,
}
use openmso_api.Client.{CaptureClient}
use openmso_api.Client.Launch.{
  Handles, make_endpoints, start_child, launch_child, launch_events, launch_sockets, launch_handles,
  launch, remove_dir, wait_child, drop_client,
}
use openmso_api.Client.Launch.Trace.{make_endpoints-Private, launch_trace}

pub remove_first : (n : ℕ) (ms : List ℕ) → remove_one n (n ∷ ms) ≡ ms
remove_first n ms = ground arith

remove_two : (a b : ℕ) (ms : List ℕ) → remove_one a (remove_one b (a ∷ b ∷ ms)) ≡ ms
remove_two a b ms = ground arith

module _ (sys : System) where
  launch_child-Tidy :
      (program : Str) (rest : List Str) (device : Str) (e : Endpoints) (control events : ℕ)
      → Tidy (launch_child sys program rest device e control events)
  unfolding launch_child start_child
  launch_child-Tidy program rest device e control events =
      Tidy->>= (listen sys events e.events) _ (listen-Neutral sys events e.events)
        λ l w h. ground arith

  launch_events-Tidy :
      (program : Str) (rest : List Str) (device : Str) (e : Endpoints) (control : ℕ)
      → Tidy (launch_events sys program rest device e control)
  unfolding launch_events
  launch_events-Tidy program rest device e control =
      let child = launch_child sys program rest device e control in
      Tidy->>= (listen sys control e.control) _ (listen-Neutral sys control e.control) λ l.
        Tidy->> (set_recv_timeout sys control (some 60000)) _
          (set_recv_timeout-Neutral sys control (some 60000))
          (Tidy-or_drop (socket sys pull0) close child (socket-Tidy sys pull0)
            (socket-close sys pull0) (launch_child-Tidy program rest device e control))

  launch_sockets-Tidy :
      (program : Str) (rest : List Str) (device : Str) (e : Endpoints)
      → Tidy (launch_sockets sys program rest device e)
  unfolding launch_sockets
  launch_sockets-Tidy program rest device e =
      Tidy-or_drop (socket sys req0) close (launch_events sys program rest device e)
        (socket-Tidy sys req0) (socket-close sys req0) (launch_events-Tidy program rest device e)

  pub held-remove_dir :
      (e : Endpoints) (w u v : World)
      → make_endpoints sys w ≡ (u, ok e)
      → held v ≡ held u
      → held (remove_dir e v) ≡ held w
  held-remove_dir e w u v h same =
      let (made, placed) = make_endpoints-Private sys w h in
      let without : Held → Held = λ x. record x { dirs = drop_endpoints e x.dirs } in
      ap without same
      ∙ ap (λ x. without (held x)) placed
      ∙ ap (λ dirs. record (held w) { dirs = dirs })
          (ap (drop_endpoints e) made.made ∙ drop_made e w.dirs made.fresh)

  launched_fails :
      (program : Str) (rest : List Str) (device : Str) (w : World) {u : World} {e : Endpoints}
      → make_endpoints sys w ≡ (u, ok e)
      → is_ok (launch_handles sys (program ∷ rest) device w).1 ≡ false
      → held (launch_handles sys (program ∷ rest) device w).0 ≡ held w
  unfolding launch_handles
  launched_fails program rest device w {u} {e} making fails =
      let next : Endpoints → Io Handles =
        λ e. or_drop (remove_dir e) (launch_sockets sys program rest device e) in
      let step = ap (λ r. followed r next) making in
      let (same, failed) =
        dropped_fails (remove_dir e) (launch_sockets sys program rest device e u)
          (sym (ap (λ r. is_ok r.1) step) ∙ fails) in
      ap (λ r. held r.0) step
      ∙ ap held same
      ∙ held-remove_dir e w u (launch_sockets sys program rest device e u).0 making
          (launch_sockets-Tidy program rest device e u failed)

  handles_held :
      (program : Str) (rest : List Str) (device : Str) (w : World)
      → is_ok (launch_handles sys (program ∷ rest) device w).1 ≡ false
      → held (launch_handles sys (program ∷ rest) device w).0
        ≡ (if is_ok (make_endpoints sys w).1 then held w else held (make_endpoints sys w).0)
  unfolding launch_handles
  handles_held program rest device w fails =
      let next : Endpoints → Io Handles =
        λ e. or_drop (remove_dir e) (launch_sockets sys program rest device e) in
      elim (outcome-cases (make_endpoints sys w).1) [
        | inl (e, made) ↦
            launched_fails program rest device w (ap (λ o. ((make_endpoints sys w).0, o)) made)
              fails
            ∙ (let sound : is_ok (make_endpoints sys w).1 ≡ true = ap is_ok made in rw sound refl)
        | inr failed ↦ rw failed (ap held (followed_fails (make_endpoints sys w) next failed))
      ]

  launch_as_handles :
      {W : Type 0} (peer : Handles → W) (argv : List Str) (device : Str) (w : World)
      → ((launch sys peer argv device w).0 ≡ (launch_handles sys argv device w).0)
        × (is_ok (launch_handles sys argv device w).1 ≡ is_ok (launch sys peer argv device w).1)
  unfolding launch
  launch_as_handles peer argv device w = (ground arith, ground arith)

  -- A launch that fails, wherever it does, leaves the sockets, the directories and the children as
  -- they were, where the endpoints were made, and the removal of their directory does not fail; where
  -- they were not, it leaves what `Endpoints::new` left.
  pub launch_cleans :
      {W : Type 0} (peer : Handles → W) (program : Str) (rest : List Str) (device : Str) (w : World)
      → is_ok (launch sys peer (program ∷ rest) device w).1 ≡ false
      → held (launch sys peer (program ∷ rest) device w).0
        ≡ (if is_ok (make_endpoints sys w).1 then held w else held (make_endpoints sys w).0)
  launch_cleans peer program rest device w fails =
      let (same, both) = launch_as_handles peer (program ∷ rest) device w in
      ap held same ∙ handles_held program rest device w (both ∙ fails)

  -- What is held once a client with these handles is dropped.
  abbrev pub released : Handles → Held → Held
  released h x = record {
    sockets = remove_one h.events (remove_one h.control x.sockets);
    dirs = drop_endpoints h.endpoints x.dirs;
    children = remove_one h.child x.children;
  }

  held-wait_child :
      (child : ℕ) (w : World)
      → sys.io_error (wait child) w.calls ≡ none
      → held (wait_child sys child w).0 ≡ record (held w) { children = remove_one child w.children }
  unfolding wait_child
  held-wait_child child w h = ground arith

  pub held-drop_client :
      (h : Handles) (u : World)
      → ((calls : List Call) → sys.io_error (wait h.child) calls ≡ none)
      → held (drop_client sys h u) ≡ released h (held u)
  unfolding drop_client
  held-drop_client h u waits =
      let killed : World = (io_call sys (kill h.child) u).0 in
      ap
        (λ x. record {
          sockets = remove_one h.events (remove_one h.control x.sockets);
          dirs = drop_endpoints h.endpoints x.dirs;
          children = x.children;
        })
        (held-wait_child h.child killed (waits killed.calls))
      ∙ ap (released h) (io_call-Neutral sys (kill h.child) u)

  -- The drop of a client that a launch gave, at any time at which the same things are held as after
  -- the launch: the child is waited for, the sockets are closed and the directory is removed, so that
  -- what is held is what was held before the launch, if the system lets the child be waited for and the
  -- directory be removed.
  pub drop_client-launch :
      {W : Type 0} (peer : Handles → W) (program : Str) (rest : List Str) (device : Str) (w : World)
      {w' : World} (u : World) {c : CaptureClient W} {h : Handles}
      → launch sys peer (program ∷ rest) device w ≡ (w', ok (c, h))
      → held u ≡ held w'
      → ((calls : List Call) → sys.io_error (wait h.child) calls ≡ none)
      → held (drop_client sys h u) ≡ held w
  drop_client-launch peer program rest device w {w'} u {c} {h} went same waits =
      let (made, _, _, _, holds) = launch_trace sys peer program rest device w went in
      held-drop_client h u waits
      ∙ ap (released h) (same ∙ holds)
      ∙ same_held (remove_two h.events h.control w.sockets)
          (drop_made h.endpoints w.dirs made.fresh) (remove_first h.child w.children)
