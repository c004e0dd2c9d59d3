-- ===== src/Transport/Sockets.antt =====
-- `socket`, `listen`, `set_recv_timeout` and `recv` of rust/openmso/src/transport.rs.
pub mod Effects
use openmso_api.Prelude.{
  ℕ, ◌+◌, Bool, true, false, Option, none, some, List, [], ◌∷◌, ◌&&◌, ◌==◌, if◌then◌else◌, Str,
  codes, ◌⊎◌, inl, inr, bytes_eq,
}
use openmso_api.Failure.{NngError, Outcome, ok, err, nng, decode}
use openmso_api.World.{
  Protocol, req0, rep0, push0, pull0, Listener, Call, new_socket, recv_max_size, send_timeout,
  resend_time, recv_timeout, new_listener, permissions, start, World, System, Io, pure, ◌>>=◌, ◌>>◌,
  or_drop, close, take_number, nng_call,
}
use openmso_api.Transport

-- `url.starts_with("ipc://")`
abbrev pub starts_with : Str → Str → Bool
starts_with [] url = true
starts_with (c ∷ cs) [] = false
starts_with (c ∷ cs) (b ∷ bs) = c == b && starts_with cs bs

abbrev pub is_ipc : Str → Bool
is_ipc url = starts_with (codes "ipc://") url

-- `protocol == Protocol::Req0`
abbrev pub is_req0 : Protocol → Bool
is_req0 req0 = true
is_req0 _ = false

-- `transport::recv`, of what `Socket::recv` gave and of the message's decoder.
unfoldable pub recv : {M : Type 0} → (Str → Str ⊎ M) → NngError ⊎ Str → Outcome M
recv decoder (inl e) = err (nng e)
recv decoder (inr bytes) = elim (decoder bytes) [ inl text ↦ err (decode text) | inr m ↦ ok m ]

module _ (sys : System) where
  -- `Socket::new`
  unfoldable pub fresh_socket : Protocol → Io ℕ
  fresh_socket protocol w =
      (nng_call sys (new_socket protocol w.next) >> λ u.
      (record u { next = w.next + 1; sockets = w.next ∷ u.sockets }, ok w.next))
        w

  -- The options that every endpoint needs.
  unfoldable pub set_options : Protocol → ℕ → Io (Unit {0})
  set_options protocol s = do
    nng_call sys (recv_max_size s Transport.recv_max_size)
    nng_call sys (send_timeout s (some 30000))
    if is_req0 protocol then nng_call sys (resend_time s (some 0)) else pure tt

  -- `transport::socket`
  unfoldable pub socket : Protocol → Io ℕ
  unfolding fresh_socket set_options
  socket protocol = do
    s ← fresh_socket protocol
    or_drop (close s) (set_options protocol s >> pure s)

  -- The permissions of a listener that has not started.
  unfoldable pub restrict : Listener → Io (Unit {0})
  restrict l = if is_ipc l.url then nng_call sys (permissions l 0o600) else pure tt

  -- `transport::listen`; the listener stays with its socket.
  unfoldable pub listen : ℕ → Str → Io Listener
  unfolding restrict
  listen s url = do
    id ← take_number
    let l : Listener = record { id = id; socket = s; url = url }
    nng_call sys (new_listener l)
    restrict l
    nng_call sys (start l)
    pure l

  -- `transport::set_recv_timeout`
  unfoldable pub set_recv_timeout : ℕ → Option ℕ → Io (Unit {0})
  set_recv_timeout s timeout = nng_call sys (recv_timeout s timeout)
