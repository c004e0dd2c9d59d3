-- ===== src/Server/Events/Flag.antt =====
-- How pushes move the running flag.
use openmso_api.Prelude.{ℕ, Bool, false, not, ◌&&◌, ◌||◌, Option, List, [], ◌∷◌, ◌≡◌}
use openmso_api.Prelude.{arith, ◌∙◌}
use openmso_api.Proto.Stream.{Event}
use openmso_api.Failure.{NngError}
use openmso_api.Server.Events.{Events, ends_capture, send, push_all}

-- One of the events ends a capture.
abbrev pub any_end : List Event → Bool
any_end [] = false
any_end (e ∷ es) = ends_capture e || any_end es

module _ (net : ℕ → Option NngError) where
  send_running :
      (event : Event) (e : Events)
      → (send net event e).0.running ≡ (e.running && not (ends_capture event))
  unfolding send
  send_running event e = ground arith

  -- After any pushes the flag stands if it stood and none of them ended a capture, whether nng took
  -- them or not.
  pub push_all_running :
      (events : List Event) (e : Events)
      → (push_all net events e).running ≡ (e.running && not (any_end events))
  unfolding push_all
  push_all_running [] e = ground arith
  push_all_running (event ∷ events) e =
      push_all_running events (send net event e).0 ∙ ground (arith, send_running event e)
