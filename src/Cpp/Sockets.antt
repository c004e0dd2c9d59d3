-- ===== src/Cpp/Sockets.antt =====
-- The class `Socket` of cpp/src/transport.cpp, over the world that the Rust crate calls: `sys` says
-- what nng answers, `nng_number` is the number of its error and `strerror` its text.
pub mod Agreement
use openmso_api.Prelude.{
  ℕ, ◌+◌, Bool, true, false, Option, none, some, List, ◌∷◌, ◌++◌, ◌*◌, ◌^◌, if◌then◌else◌, Str,
  codes,
}
use openmso_api.Failure.{NngError}
use openmso_api.World.{
  Protocol, Listener, Call, new_socket, recv_max_size, send_timeout, resend_time, recv_timeout,
  new_listener, permissions, start, dial, World, System, remove_one,
}
use openmso_api.Transport.Sockets.{is_ipc, is_req0}
use openmso_api.Cpp.Errors.{nng_error, Result, returned, thrown, escaped, stuck}

-- Code that calls the system.
abbrev pub Io : Type 0 → Type 0
Io A = World → World × Result A

abbrev pub pure : {A : Type 0} → A → Io A
pure a w = (w, returned a)

-- What follows a call.
abbrev pub followed : {A B : Type 0} → World × Result A → (A → Io B) → World × Result B
followed (w, returned a) f = f a w
followed (w, thrown x) f = (w, thrown x)
followed (w, escaped) f = (w, escaped)
followed (w, stuck) f = (w, stuck)

infixl 5 ◌>>=◌ ◌>>◌
abbrev pub ◌>>=◌ : {A B : Type 0} → Io A → (A → Io B) → Io B
◌>>=◌ m f w = followed (m w) f

abbrev pub ◌>>◌ : {B : Type 0} → Io (Unit {0}) → Io B → Io B
m >> k = m >>= λ _. k

-- A scope that is left by a `throw` destroys what it owns.
abbrev pub destroyed : {A : Type 0} → (World → World) → World × Result A → World × Result A
destroyed destroy (w, returned a) = (w, returned a)
destroyed destroy (w, thrown x) = (destroy w, thrown x)
destroyed destroy (w, escaped) = (destroy w, escaped)
destroyed destroy (w, stuck) = (destroy w, stuck)

abbrev pub or_destroy : {A : Type 0} → (World → World) → Io A → Io A
or_destroy destroy m w = destroyed destroy (m w)

-- `RECV_MAX_SIZE`
abbrev pub max_message : ℕ
max_message = 8 * 2 ^ 20

-- `Socket::close` of a socket that is open.
abbrev pub close : ℕ → World → World
close s w = record w { sockets = remove_one s w.sockets }

module _ (sys : System) (nng_number : NngError → ℕ) (strerror : ℕ → Str) where
  -- `check` of a call of nng.
  abbrev pub check : Call → Str → Io (Unit {0})
  check c context w = elim (sys.nng_error c w.calls) [
    | none ↦ (record w { calls = c ∷ w.calls }, returned tt)
    | some e ↦ (w, thrown (nng_error strerror (nng_number e) context))
  ]

  -- `openSocket`
  unfoldable pub open_socket : Protocol → Io ℕ
  open_socket protocol w =
      (check (new_socket protocol w.next) (codes "open") >> λ u.
      (record u { next = w.next + 1; sockets = w.next ∷ u.sockets }, returned w.next))
        w

  -- The options of the constructor.
  unfoldable pub set_options : Protocol → ℕ → Io (Unit {0})
  set_options protocol s = do
    check (recv_max_size s max_message) (codes "set recv-size-max")
    check (send_timeout s (some 30000)) (codes "set send-timeout")
    if is_req0 protocol
        then check (resend_time s (some 0)) (codes "set req:resend-time")
        else pure tt

  -- The constructor.
  unfoldable pub new_socket_of : Protocol → Io ℕ
  unfolding open_socket set_options
  new_socket_of protocol = do
    s ← open_socket protocol
    or_destroy (close s) (set_options protocol s >> pure s)

  -- The permissions of a listener that has not started.
  unfoldable pub restrict : Listener → Io (Unit {0})
  restrict l =
      if is_ipc l.url then check (permissions l 0o600) (codes "set ipc:permissions") else pure tt

  unfoldable pub start_listener : Listener → Io (Unit {0})
  unfolding restrict
  start_listener l = do
    check (new_listener l) (codes "listener create")
    restrict l
    check (start l) (codes "listen on " ++ l.url)

  -- `Socket::listen`; a listener that fails is closed, which the world does not hold.
  unfoldable pub listen : ℕ → Str → Io (Unit {0})
  unfolding start_listener
  listen s url w =
      start_listener (record { id = w.next; socket = s; url = url })
        (record w { next = w.next + 1 })

  unfoldable pub dial_url : ℕ → Str → Io (Unit {0})
  dial_url s url = check (dial s url) (codes "dial " ++ url)

  -- `Socket::setRecvTimeout`; no time is for ever.
  unfoldable pub set_recv_timeout : ℕ → Option ℕ → Io (Unit {0})
  set_recv_timeout s timeout = check (recv_timeout s timeout) (codes "set recv-timeout")
