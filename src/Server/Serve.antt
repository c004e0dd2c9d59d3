-- ===== src/Server/Serve.antt =====
-- The loop of `serve` of rust/openmso/src/server/mod.rs, and `hello_result`.
pub mod Answers
pub mod Ending
pub mod Protocol
use openmso_api.Prelude.{
  ℕ, Bool, true, false, not, ◌&&◌, Option, none, some, List, [], ◌∷◌, ◌++◌, map,
}
use openmso_api.Prelude.{Str, codes, if◌then◌else◌}
use openmso_api.Proto.Device.{ProtoError}
use openmso_api.Proto.Stream.{Event}
use openmso_api.Proto.Control.{
  Hello, HelloResult, PluginInfo, Capabilities, DeviceInfo, RequestArm, Request, ResponseArm,
  Response,
}
use openmso_api.Failure.{NngError, closed, connection_reset, connection_aborted, other_nng}
use openmso_api.Failure.{Reply, accept, refuse, invalid, protocol_version, Outcome, ok, err, nng}
use openmso_api.Encoding.Negotiate.{negotiate_encodings, negotiate_codecs, encodings, codecs}
use openmso_api.Server.Events.{Events, push_all}
use openmso_api.Server.Plugin.{CaptureServer}
use openmso_api.Server.Dispatch.{Session, Answered, dispatch}

-- `is_closed`
abbrev pub is_closed : NngError → Bool
is_closed closed = true
is_closed connection_reset = true
is_closed connection_aborted = true
is_closed (other_nng _) = false

-- What `transport::recv` on the control socket gave.
pub data Incoming : Type 0 where
  received : Request → Incoming
  malformed : Str → Incoming
  broken : NngError → Incoming

-- One round of the loop, as the world sees it: what acquisition threads pushed since the last
-- request, what came in, and what nng answers to the sending of the response.
pub record Turn : Type 0 where
  pub pushed : List Event
  pub incoming : Incoming
  pub answer : Option NngError

abbrev pub is_shutdown : Option RequestArm → Bool
is_shutdown (some RequestArm.shutdown) = true
is_shutdown _ = false

-- The `Response` of a dispatched request.
abbrev pub response_of : ℕ → Reply ResponseArm → Response
response_of seq (accept arm) = record { seq = seq; error = none; response = some arm }
response_of seq (refuse e) = record { seq = seq; error = some e; response = none }

-- The response to a request that does not decode.
abbrev pub undecodable : Str → Response
undecodable text = record {
  seq = 0;
  error = some (invalid (codes "undecodable request: " ++ text));
  response = none;
}

abbrev pub is_accepted {ℓ} : {A : Type ℓ} → Reply A → Bool
is_accepted (accept _) = true
is_accepted (refuse _) = false

-- Where the loop stands: the responses that nng took, and `serve`'s result once it has returned.
pub record Served (S : Type 0) : Type 0 where
  pub session : Session S
  pub responses : List Response
  pub result : Option (Outcome (Unit {0}))

module _ (net : ℕ → Option NngError) (P : CaptureServer) where
  open P use {State}

  -- The session at a return, or a new round.
  pub data Round : Type 0 where
    again : Session State → List Response → Round
    returned : Session State → List Response → Outcome (Unit {0}) → Round

  -- `plugin.shutdown(); return Ok(())`
  shut_down : Session State → List Response → Round
  shut_down s sent =
      let (p, pushed) = P.shutdown s.plugin in
      returned (record s { plugin = p; events = push_all net pushed s.events }) sent (ok tt)

  -- A dispatched request, its response and the end of the loop body.
  finish : Bool → ℕ → Option NngError → Answered State ResponseArm → Round
  unfolding shut_down
  finish shutting_down seq (some e) (s, reply) = returned s [] (err (nng e))
  finish shutting_down seq none (s, reply) =
      let sent = response_of seq reply ∷ [] in
      if shutting_down && is_accepted reply then shut_down s sent else again s sent

  round_on : Incoming → Option NngError → Session State → Round
  unfolding finish
  round_on (broken e) answer s =
      if is_closed e then returned s [] (ok tt) else returned s [] (err (nng e))
  round_on (malformed text) (some e) s = returned s [] (err (nng e))
  round_on (malformed text) none s = again s (undecodable text ∷ [])
  round_on (received request) answer s =
      finish (is_shutdown request.request) request.seq answer (dispatch net P request s)

  -- The body of the loop.
  unfoldable pub round : Turn → Session State → Round
  unfolding round_on
  round turn s =
      round_on turn.incoming turn.answer (record s { events = push_all net turn.pushed s.events })

  -- The loop over the rounds to come; with no more of them it waits in `recv`.
  unfoldable pub serve_loop : List Turn → Session State → List Response → Served State
  unfolding round
  serve_loop [] s sent = record { session = s; responses = sent; result = none }
  serve_loop (turn ∷ turns) s sent = elim (round turn s) [
    | again s' more ↦ serve_loop turns s' (sent ++ more)
    | returned s' more result ↦ record {
      session = s';
      responses = sent ++ more;
      result = some result;
    }
  ]

-- `hello_result`, for a plugin that supports every encoding that the crate implements.
unfoldable pub hello_result : Hello → PluginInfo → Capabilities → DeviceInfo → HelloResult
hello_result req plugin capabilities device = record {
  protocol = protocol_version;
  plugin = some plugin;
  capabilities = some capabilities;
  device = some device;
  encodings = negotiate_encodings req.accept_encodings encodings;
  codecs = negotiate_codecs req.accept_codecs codecs;
}
