-- ===== src/Transport.antt =====
-- rust/openmso/src/transport.rs: limits, and the sending of one message.
pub mod Base
pub mod Endpoints
pub mod Sockets
use openmso_api.Prelude.{ℕ, Option, none, some}
use openmso_api.Failure.{NngError, Outcome, ok, err, nng}

-- `1 << 20` and `8 << 20`.
abbrev pub max_payload : ℕ
max_payload = 1048576

abbrev pub recv_max_size : ℕ
recv_max_size = 8388608

-- `transport::send`, given what `Socket::send` answered: encoding into a `Vec` does not fail.
abbrev pub send_result : Option NngError → Outcome (Unit {0})
send_result none = ok tt
send_result (some e) = err (nng e)
