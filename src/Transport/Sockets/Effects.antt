-- ===== src/Transport/Sockets/Effects.antt =====
-- What `socket`, `listen` and `set_recv_timeout` leave behind, whether they succeed or fail.
use openmso_api.Prelude.{
  ℕ, ◌+◌, Option, some, List, [], ◌∷◌, ◌++◌, ◌≡◌, refl, arith, ap, ◌∙◌, if◌then◌else◌, Str,
}
use openmso_api.Failure.{ok}
use openmso_api.World.{
  Protocol, Listener, Call, new_socket, recv_max_size, send_timeout, resend_time, recv_timeout,
  new_listener, permissions, start, World, System, pure, ◌>>◌, close,
}
use openmso_api.World.Calls.{held, Neutral, Tidy, Tidy->>, Tidy-or_drop}
use openmso_api.Transport.Sockets.{
  is_ipc, is_req0, fresh_socket, set_options, socket, restrict, listen, set_recv_timeout,
}

-- The calls of `socket` and of `listen`, newest first.
abbrev pub socket_calls : Protocol → ℕ → List Call
socket_calls protocol s =
    (if is_req0 protocol then resend_time s (some 0) ∷ [] else [])
    ++ send_timeout s (some 30000) ∷ recv_max_size s 8388608 ∷ new_socket protocol s ∷ []

abbrev pub listen_calls : Listener → List Call
listen_calls l =
    start l ∷ (if is_ipc l.url then permissions l 384 ∷ [] else []) ++ new_listener l ∷ []

-- The listener that `listen` makes in a world.
abbrev pub listener_in : World → ℕ → Str → Listener
listener_in w s url = record { id = w.next; socket = s; url = url }

-- The world once `socket` and `listen` succeeded.
unfoldable pub with_socket : Protocol → World → World
with_socket protocol w = record w {
  calls = socket_calls protocol w.next ++ w.calls;
  next = w.next + 1;
  sockets = w.next ∷ w.sockets;
}

unfoldable pub with_listener : Listener → World → World
with_listener l w = record w { calls = listen_calls l ++ w.calls; next = w.next + 1 }

module _ (sys : System) where
  set_options-Neutral : (protocol : Protocol) (s : ℕ) → Neutral (set_options sys protocol s)
  unfolding set_options
  set_options-Neutral protocol s w = ground arith

  pub socket-eq-ok :
      (protocol : Protocol) (w : World) {w' : World} {s : ℕ}
      → socket sys protocol w ≡ (w', ok s)
      → (s ≡ w.next) × (w' ≡ with_socket protocol w)
  unfolding socket fresh_socket set_options with_socket
  socket-eq-ok protocol w h = ground arith

  fresh_socket-Tidy : (protocol : Protocol) → Tidy (fresh_socket sys protocol)
  unfolding fresh_socket
  fresh_socket-Tidy protocol w h = ground arith

  fresh_socket-held :
      (protocol : Protocol) (s : ℕ) (w w' u : World)
      → fresh_socket sys protocol w ≡ (w', ok s)
      → held u ≡ held w'
      → held (close s u) ≡ held w
  unfolding fresh_socket
  fresh_socket-held protocol s w w' u h e = ground arith

  pub socket-Tidy : (protocol : Protocol) → Tidy (socket sys protocol)
  unfolding socket
  socket-Tidy protocol =
      Tidy-or_drop (fresh_socket sys protocol) close (λ s. set_options sys protocol s >> pure s)
        (fresh_socket-Tidy protocol) (fresh_socket-held protocol)
        (λ s.
          Tidy->> (set_options sys protocol s) (pure s) (set_options-Neutral protocol s)
            (λ w h. refl))

  pub socket-close :
      (protocol : Protocol) (s : ℕ) (w w' u : World)
      → socket sys protocol w ≡ (w', ok s)
      → held u ≡ held w'
      → held (close s u) ≡ held w
  unfolding with_socket
  socket-close protocol s w w' u h e =
      let (number, opened) = socket-eq-ok protocol w h in
      let same : held u ≡ held (with_socket protocol w) = e ∙ ap held opened in ground arith

  pub listen-eq-ok :
      (s : ℕ) (url : Str) (w : World) {w' : World} {l : Listener}
      → listen sys s url w ≡ (w', ok l)
      → (l ≡ listener_in w s url) × (w' ≡ with_listener (listener_in w s url) w)
  unfolding listen restrict with_listener
  listen-eq-ok s url w h = ground arith

  pub listen-Neutral : (s : ℕ) (url : Str) → Neutral (listen sys s url)
  unfolding listen restrict
  listen-Neutral s url w = ground arith

  pub set_recv_timeout-Neutral : (s : ℕ) (t : Option ℕ) → Neutral (set_recv_timeout sys s t)
  unfolding set_recv_timeout
  set_recv_timeout-Neutral s t w = ground arith

  pub set_recv_timeout-eq-ok :
      (s : ℕ) (t : Option ℕ) (w : World) {w' : World}
      → set_recv_timeout sys s t w ≡ (w', ok tt)
      → w' ≡ record w { calls = recv_timeout s t ∷ w.calls }
  unfolding set_recv_timeout
  set_recv_timeout-eq-ok s t w h = ground arith
