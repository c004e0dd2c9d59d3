-- ===== src/Client/Events/Outliving.antt =====
-- An `EventStream` outlives the client that it came from.
use openmso_api.Prelude.{ℕ, ◌+◌, none, List, ◌∷◌, ◌≡◌, refl, arith, sym, ap, ◌∙◌, Str}
use openmso_api.Failure.{ok}
use openmso_api.World.{wait, Call, World, System, remove_one}
use openmso_api.World.Calls.{Held, held, same_held}
use openmso_api.Transport.Endpoints.Creation.{drop_made}
use openmso_api.Client.{CaptureClient}
use openmso_api.Client.Launch.{Handles, launch, drop_client}
use openmso_api.Client.Launch.Trace.{launch_trace}
use openmso_api.Client.Launch.Cleanup.{released, held-drop_client, remove_first}
use openmso_api.Client.Events.{event_stream, drop_stream}

-- Two handles of the event socket and one of the control socket, which has another number.
remove_other :
    (a b : ℕ) (ms : List ℕ) → b ≡ a + 2 → remove_one b (remove_one a (b ∷ b ∷ a ∷ ms)) ≡ b ∷ ms
remove_other a b ms h = ground arith

module _ (sys : System) {W : Type 0} (peer : Handles → W) where
  -- An event stream that was taken from a client keeps the event socket open when the client is
  -- dropped: the drop gives back the child, the directory and the control socket, and the drop of
  -- the stream gives back the rest, if the system lets the child be waited for.
  pub event_stream_outlives :
      (program : Str) (rest : List Str) (device : Str) (w : World) {w' : World}
      {c : CaptureClient W} {h : Handles}
      → launch sys peer (program ∷ rest) device w ≡ (w', ok (c, h))
      → ((calls : List Call) → sys.io_error (wait h.child) calls ≡ none)
      → (held (drop_client sys h (event_stream h w').0)
          ≡ record (held w) { sockets = h.events ∷ w.sockets })
        × (held (drop_stream (event_stream h w').1 (drop_client sys h (event_stream h w').0))
            ≡ held w)
  unfolding event_stream drop_stream
  event_stream_outlives program rest device w {w'} {c} {h} went waits =
      let (made, numbers, _, _, holds) = launch_trace sys peer program rest device w went in
      let cloned : Held → Held = λ x. record x { sockets = h.events ∷ x.sockets } in
      let without : Held → Held = λ x. record x { sockets = remove_one h.events x.sockets } in
      let left : held (drop_client sys h (event_stream h w').0)
          ≡ record (held w) { sockets = h.events ∷ w.sockets } =
        held-drop_client sys h (event_stream h w').0 waits
        ∙ ap (λ x. released sys h (cloned x)) holds
        ∙ same_held
            (remove_other h.control h.events w.sockets
              (ap (λ x. x.events) numbers ∙ ap (λ x. x.control + 2) (sym numbers)))
            (drop_made h.endpoints w.dirs made.fresh) (remove_first h.child w.children) in
      (left, ap without left ∙ same_held (remove_first h.events w.sockets) refl refl)
