-- ===== src/Server/Events.antt =====
-- `Events` of rust/openmso/src/server/events.rs: the flag that says whether a capture is running, and
-- the pushes on the event stream. `net n` is what nng answers to the push number `n`.
pub mod Flag
use openmso_api.Prelude.{ℕ, suc, Bool, true, false, Option, none, some, List, [], ◌∷◌, ◌++◌, Str}
use openmso_api.Prelude.{if◌then◌else◌}
use openmso_api.Proto.Enums.{LogLevel, State, level_number, state_number}
use openmso_api.Proto.Stream.{Event, capture_end, device_lost, status, log}
use openmso_api.Failure.{NngError, Outcome}
use openmso_api.Transport.{send_result}

-- The socket is what it has taken, in order, and how many pushes were tried.
pub record Events : Type 0 where
  pub running : Bool
  pub sent : List Event
  pub tries : ℕ

-- `Events::new`
abbrev pub new_events : Events
new_events = record { running = false; sent = []; tries = 0 }

-- `Events::set_running`
abbrev pub set_running : Bool → Events → Events
set_running b e = record e { running = b }

-- The events that end a capture.
abbrev pub ends_capture : Event → Bool
ends_capture (capture_end _) = true
ends_capture (device_lost _) = true
ends_capture _ = false

-- `Socket::send` of an event.
unfoldable pub push_socket : Option NngError → Event → Events → Events
push_socket none event e = record e { sent = e.sent ++ event ∷ []; tries = suc e.tries }
push_socket (some _) event e = record e { tries = suc e.tries }

module _ (net : ℕ → Option NngError) where
  -- `Events::send`
  unfoldable pub send : Event → Events → Events × Outcome (Unit {0})
  unfolding push_socket
  send event e =
      let answer = net e.tries in
      let e' = if ends_capture event then set_running false e else e in
      (push_socket answer event e', send_result answer)

  -- `Events::log` and `Events::status`
  unfoldable pub send_log : LogLevel → Str → Events → Events × Outcome (Unit {0})
  unfolding send
  send_log level message e = send (log (record { level = level_number level; message = message })) e

  unfoldable pub send_status : State → Str → Events → Events × Outcome (Unit {0})
  unfolding send
  send_status state detail e =
      send (status (record { state = state_number state; detail = detail })) e

  -- The pushes of any threads, one after the other.
  unfoldable pub push_all : List Event → Events → Events
  unfolding send
  push_all [] e = e
  push_all (event ∷ events) e = push_all events (send event e).0
