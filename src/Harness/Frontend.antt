-- ===== src/Harness/Frontend.antt =====
-- The plugin and the frontend of rust/openmso/tests/control_loop.rs: `Stub`, and `Harness` with what it
-- does on its two sockets. The server's loop answers each request by `dispatch`.
use openmso_api.Prelude.{
  ℕ, ◌+◌, ◌%◌, ◌^◌, Bool, true, false, Option, none, some, List, [], ltb, codes, if◌then◌else◌,
}
use openmso_api.Proto.Enums.{ErrorCode}
use openmso_api.Proto.Device.{ProtoError, Description, default_config}
use openmso_api.Proto.Stream.{Event}
use openmso_api.Proto.Control.{
  Hello, PluginInfo, Capabilities, DeviceInfo, RequestArm, ResponseArm, Response,
}
use openmso_api.Failure.{NngError, accept, Outcome, ok, err, panic, stuck, protocol_version}
use openmso_api.Failure.Text.{error_code_of_number}
use openmso_api.Server.Events.{Events, new_events, push_all}
use openmso_api.Server.Plugin.{CaptureServer, default_reset, default_shutdown}
use openmso_api.Server.Dispatch.{Session, dispatch}
use openmso_api.Server.Serve.{hello_result, response_of}
use openmso_api.Harness.{Pushed, assert_eq, drain_capture}

-- The messages of prost's `Default`.
abbrev pub default_description : Description
default_description = record {
  channels = [];
  limits = none;
  analog = none;
  logic = none;
  vendor_options = [];
}

abbrev pub default_plugin : PluginInfo
default_plugin = record { name = []; version = []; vendor = []; description = [] }

abbrev pub default_capabilities : Capabilities
default_capabilities = record { modes = []; trigger_kinds = [] }

abbrev pub default_device : DeviceInfo
default_device = record { vendor = []; model = []; serial = []; firmware_version = [] }

abbrev pub default_hello : Hello
default_hello = record {
  protocol = 0;
  client_name = [];
  client_version = [];
  accept_encodings = [];
  accept_codecs = [];
}

-- `Stub`: its state is the stop flag that it shares with the thread of its last capture. The events of
-- that thread are not its handlers'.
abbrev pub stub : CaptureServer
stub = record {
  State = Bool;
  hello = λ req stop.
      (stop, [], accept (hello_result req default_plugin default_capabilities default_device));
  describe = λ stop. (stop, [], accept default_description);
  get_config = λ stop. (stop, [], accept default_config);
  set_config = λ config stop. (stop, [], accept config);
  acquire_start = λ req stop. (false, [], accept tt);
  acquire_stop = λ req stop. (true, [], accept tt);
  reset = default_reset;
  shutdown = default_shutdown;
}

-- `Harness`: the server at the other end of its sockets, and `seq`.
pub record Harness : Type 0 where
  pub session : Session Bool
  pub seq : ℕ

-- What `Harness::start` returns, once its sockets are set up.
abbrev pub started : Harness
started = record {
  session = record { plugin = false; events = new_events; greeted = false };
  seq = 0;
}

-- A step of a test.
abbrev pub Step : Type 0 → Type 0
Step A = Harness → Harness × Outcome A

abbrev pub followed : {A B : Type 0} → Harness × Outcome A → (A → Step B) → Harness × Outcome B
followed (h, ok a) next = next a h
followed (h, err e) next = (h, err e)
followed (h, panic) next = (h, panic)
followed (h, stuck) next = (h, stuck)

infixl 5 ◌>>=◌ ◌>>◌
abbrev pub ◌>>=◌ : {A B : Type 0} → Step A → (A → Step B) → Step B
◌>>=◌ step next h = followed (step h) next

abbrev pub ◌>>◌ : {A B : Type 0} → Step A → Step B → Step B
first >> second = first >>= λ _. second

-- What has no effect on the harness.
abbrev pub lift : {A : Type 0} → Outcome A → Step A
lift o h = (h, o)

-- `assert_eq!(error, None)` and `expect`; `assert!(response.is_none())`, `expect` and `unwrap`.
abbrev pub accepted : Option ProtoError → Option ResponseArm → Outcome ResponseArm
accepted none (some arm) = ok arm
accepted _ _ = panic

abbrev pub code_of : Option ProtoError → Outcome ErrorCode
code_of none = panic
code_of (some e) = elim (error_code_of_number e.code) [ some code ↦ ok code | none ↦ panic ]

abbrev pub refusal : Option ProtoError → Option ResponseArm → Outcome ErrorCode
refusal error none = code_of error
refusal error (some _) = panic

module _ (net : ℕ → Option NngError) (checks : Bool) where
  -- `self.seq += 1` on a `u32`.
  abbrev pub next_seq : ℕ → Outcome ℕ
  next_seq seq =
      if ltb (seq + 1) (2 ^ 32)
      then ok (seq + 1)
      else if checks
      then panic
      else ok ((seq + 1) % 2 ^ 32)

  -- What goes out under `seq`, and what comes back.
  abbrev pub exchanged : ℕ → Option RequestArm → Step Response
  exchanged seq arm h =
      let (s, reply) = dispatch net stub (record { seq = seq; request = arm }) h.session in
      (record { session = s; seq = seq }, ok (response_of seq reply))

  -- `Harness::send_raw_empty`
  unfoldable pub send_raw_empty : Step Response
  send_raw_empty h = followed (h, next_seq h.seq) λ seq. exchanged seq none

  -- `Harness::send`
  unfoldable pub send : RequestArm → Step Response
  send arm h =
      followed (h, next_seq h.seq)
        λ seq. exchanged seq (some arm) >>= λ response.
          lift (assert_eq response.seq seq) >> lift (ok response)

  -- `Harness::ok` and `Harness::refused`
  unfoldable pub granted : RequestArm → Step ResponseArm
  unfolding send
  granted arm = do response ← send arm; lift (accepted response.error response.response)

  unfoldable pub refused : RequestArm → Step ErrorCode
  unfolding send
  refused arm = do response ← send arm; lift (refusal response.error response.response)

  -- `Harness::hello`
  unfoldable pub greeted : Step ResponseArm
  unfolding granted
  greeted = granted (
      RequestArm.hello
        (record default_hello { protocol = protocol_version; client_name = codes "test" }))

-- A thread of the plugin runs; a panic there ends that thread only.
abbrev pub thread : (Events → Pushed) → Step (Unit {0})
thread body h =
    (record h { session = record h.session { events = (body h.session.events).0 } }, ok tt)

-- A thread of the plugin pushes events.
abbrev pub arrive : (ℕ → Option NngError) → List Event → Step (Unit {0})
arrive net events = thread λ e. (push_all net events e, ok tt)

-- `Harness::drain_capture`, of the first capture of a harness: a wait for an event that does not come
-- times out, which is unwrapped.
abbrev pub drained : Option (Outcome (List ℕ)) → Outcome (List ℕ)
drained none = panic
drained (some o) = o

unfoldable pub drain : Bool → Step (List ℕ)
drain checks h = (h, drained (drain_capture checks h.session.events.sent))
