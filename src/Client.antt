-- ===== src/Client.antt =====
-- rust/openmso/src/client.rs: the frontend's side of the protocol. `exchange` is what happens to one
-- request on the control socket; `W` is the state of the world behind it.
pub mod Replies
pub mod Session
pub mod Lifecycle
pub mod Launch
pub mod Events
use openmso_api.Prelude.{
  ℕ, ◌+◌, ◌%◌, ◌^◌, Bool, Option, none, some, List, map, ltb, ◌==◌, if◌then◌else◌,
}
use openmso_api.Prelude.{Str, codes}
use openmso_api.Proto.Enums.{AcquireMode, mode_number, encoding_number, codec_number}
use openmso_api.Proto.Device.{ProtoError, Description, Config}
use openmso_api.Proto.Control.{Hello, HelloResult, RequestArm, Request, ResponseArm, Response}
use openmso_api.Failure.{
  NngError, Outcome, ok, err, panic, ◌>>=◌, nng, decode, protocol, remote, out_of_step, empty_reply,
  unexpected_arm, protocol_version,
}
use openmso_api.Encoding.Negotiate.{encodings, codecs}

-- What `transport::send` and `transport::recv` did with one request.
pub data Exchange : Type 0 where
  not_sent : NngError → Exchange
  not_received : NngError → Exchange
  garbled : Str → Exchange
  replied : Response → Exchange

-- `CaptureClient`, less its handles; `world` is what the control socket leads to.
pub record CaptureClient (W : Type 0) : Type 0 where
  pub seq : ℕ
  pub capture_id : ℕ
  pub world : W

-- `wrapping_add(1)` on a `u32`.
abbrev pub next_seq : ℕ → ℕ
next_seq seq = (seq + 1) % 2 ^ 32

-- `next_capture_id`, in a build with overflow checks or without.
unfoldable pub next_capture_id : {W : Type 0} → Bool → CaptureClient W → CaptureClient W × Outcome ℕ
next_capture_id checks c =
    if ltb (c.capture_id + 1) (2 ^ 64)
    then (record c { capture_id = c.capture_id + 1 }, ok (c.capture_id + 1))
    else if checks
    then (c, panic)
    else (record c { capture_id = 0 }, ok 0)

-- The `match` on the two options of a reply.
abbrev pub result_of : Option ProtoError → Option ResponseArm → Outcome ResponseArm
result_of (some e) _ = err (remote e)
result_of none (some r) = ok r
result_of none none = err (protocol empty_reply)

-- What follows the sending of request `seq`.
unfoldable pub receive : ℕ → Exchange → Outcome ResponseArm
receive seq (not_sent e) = err (nng e)
receive seq (not_received e) = err (nng e)
receive seq (garbled text) = err (decode text)
receive seq (replied r) =
    if r.seq == seq then result_of r.error r.response else err (protocol (out_of_step seq r.seq))

-- The arm's name, and `unexpected`.
abbrev pub arm_name : ResponseArm → Str
arm_name (ResponseArm.hello _) = codes "Hello"
arm_name (ResponseArm.describe _) = codes "Describe"
arm_name (ResponseArm.get_config _) = codes "GetConfig"
arm_name (ResponseArm.set_config _) = codes "SetConfig"
arm_name ResponseArm.acquire_start = codes "AcquireStart"
arm_name ResponseArm.acquire_stop = codes "AcquireStop"
arm_name ResponseArm.reset = codes "Reset"
arm_name ResponseArm.shutdown = codes "Shutdown"

abbrev pub unexpected {ℓ} : {A : Type ℓ} → Str → ResponseArm → Outcome A
unexpected request got = err (protocol (unexpected_arm request (arm_name got)))

-- The `match` of each operation on the arm.
abbrev pub expect_hello : ResponseArm → Outcome HelloResult
expect_hello (ResponseArm.hello r) = ok r
expect_hello other = unexpected (codes "Hello") other

abbrev pub expect_describe : ResponseArm → Outcome Description
expect_describe (ResponseArm.describe r) = ok r
expect_describe other = unexpected (codes "Describe") other

abbrev pub expect_get_config : ResponseArm → Outcome Config
expect_get_config (ResponseArm.get_config r) = ok r
expect_get_config other = unexpected (codes "GetConfig") other

abbrev pub expect_set_config : ResponseArm → Outcome Config
expect_set_config (ResponseArm.set_config r) = ok r
expect_set_config other = unexpected (codes "SetConfig") other

abbrev pub expect_acquire_start : ResponseArm → Outcome (Unit {0})
expect_acquire_start ResponseArm.acquire_start = ok tt
expect_acquire_start other = unexpected (codes "AcquireStart") other

abbrev pub expect_acquire_stop : ResponseArm → Outcome (Unit {0})
expect_acquire_stop ResponseArm.acquire_stop = ok tt
expect_acquire_stop other = unexpected (codes "AcquireStop") other

abbrev pub expect_reset : ResponseArm → Outcome (Unit {0})
expect_reset ResponseArm.reset = ok tt
expect_reset other = unexpected (codes "Reset") other

abbrev pub expect_shutdown : ResponseArm → Outcome (Unit {0})
expect_shutdown ResponseArm.shutdown = ok tt
expect_shutdown other = unexpected (codes "Shutdown") other

-- The `Hello` of this crate's client.
abbrev pub own_hello : Str → Str → Hello
own_hello name version = record {
  protocol = protocol_version;
  client_name = name;
  client_version = version;
  accept_encodings = map encoding_number encodings;
  accept_codecs = map codec_number codecs;
}

-- A client and what an operation returned.
abbrev pub Called : Type 0 → Type 0 → Type 0
Called W A = CaptureClient W × Outcome A

-- `match self.request(…)? { … }`
abbrev pub expecting : {W A B : Type 0} → (A → Outcome B) → Called W A → Called W B
expecting f (c, o) = (c, o >>= f)

module _ {W : Type 0} (exchange : Request → W → W × Exchange) where
  -- `CaptureClient::request`
  unfoldable pub request : RequestArm → CaptureClient W → Called W ResponseArm
  unfolding receive
  request arm c =
      let seq = next_seq c.seq in
      let (world, x) = exchange (record { seq = seq; request = some arm }) c.world in
      (record c { seq = seq; world = world }, receive seq x)

  unfoldable pub hello : Str → Str → CaptureClient W → Called W HelloResult
  unfolding request
  hello name version c =
      expecting expect_hello (request (RequestArm.hello (own_hello name version)) c)

  unfoldable pub describe : CaptureClient W → Called W Description
  unfolding request
  describe c = expecting expect_describe (request RequestArm.describe c)

  unfoldable pub get_config : CaptureClient W → Called W Config
  unfolding request
  get_config c = expecting expect_get_config (request RequestArm.get_config c)

  unfoldable pub set_config : Config → CaptureClient W → Called W Config
  unfolding request
  set_config config c =
      expecting expect_set_config
        (request (RequestArm.set_config (record { config = some config })) c)

  unfoldable pub acquire_start : ℕ → AcquireMode → CaptureClient W → Called W (Unit {0})
  unfolding request
  acquire_start capture_id mode c = expecting expect_acquire_start (
      request
        (RequestArm.acquire_start (record { capture_id = capture_id; mode = mode_number mode })) c)

  unfoldable pub acquire_stop : ℕ → CaptureClient W → Called W (Unit {0})
  unfolding request
  acquire_stop capture_id c =
      expecting expect_acquire_stop
        (request (RequestArm.acquire_stop (record { capture_id = capture_id })) c)

  unfoldable pub reset : CaptureClient W → Called W (Unit {0})
  unfolding request
  reset c = expecting expect_reset (request RequestArm.reset c)

  -- What waiting for the child gives is ignored.
  unfoldable pub shutdown : CaptureClient W → Called W (Unit {0})
  unfolding request
  shutdown c = expecting expect_shutdown (request RequestArm.shutdown c)
