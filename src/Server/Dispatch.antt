-- ===== src/Server/Dispatch.antt =====
-- `dispatch` of rust/openmso/src/server/mod.rs: one request on the control loop. The running flag is
-- read once in a request, before the plugin is called, so what other threads push meanwhile is the
-- list that the handler leaves.
pub mod Phases
pub mod Replies
use openmso_api.Prelude.{ℕ, Bool, true, false, not, ◌&&◌, Option, none, some, codes, if◌then◌else◌}
use openmso_api.Proto.Device.{ProtoError, Config, default_config}
use openmso_api.Proto.Control.{HelloResult, RequestArm, Request, ResponseArm}
use openmso_api.Failure.{NngError, Reply, accept, refuse, invalid, busy}
use openmso_api.Server.Events.{Events, set_running, push_all}
use openmso_api.Server.Plugin.{Handled, CaptureServer}

-- `Option::unwrap_or_default` at a configuration.
abbrev pub config_or_default : Option Config → Config
config_or_default none = default_config
config_or_default (some c) = c

abbrev pub is_hello : RequestArm → Bool
is_hello (RequestArm.hello _) = true
is_hello _ = false

-- What the code refuses by itself.
abbrev pub no_payload : ProtoError
no_payload = invalid (codes "request carries no payload")

abbrev pub hello_first : ProtoError
hello_first = invalid (codes "Hello must be the first request")

abbrev pub hello_again : ProtoError
hello_again = invalid (codes "Hello has already been answered")

abbrev pub in_progress : ProtoError
in_progress = busy (codes "acquisition in progress")

-- The variables of `serve`: the plugin, the event stream and `greeted`.
pub record Session (S : Type 0) : Type 0 where
  pub plugin : S
  pub events : Events
  pub greeted : Bool

-- A session, and what a request was answered with.
abbrev pub Answered : Type 0 → Type 0 → Type 0
Answered S A = Session S × Reply A

-- `Ok(arm(reply?))`
abbrev pub answer : {S A : Type 0} → (A → ResponseArm) → Answered S A → Answered S ResponseArm
answer arm (s, accept a) = (s, accept (arm a))
answer arm (s, refuse e) = (s, refuse e)

-- `*greeted = true`, behind the plugin's answer.
abbrev pub greet : {S : Type 0} → Answered S HelloResult → Answered S ResponseArm
greet (s, accept r) = (record s { greeted = true }, accept (ResponseArm.hello r))
greet (s, refuse e) = (s, refuse e)

abbrev pub stop_running : {S : Type 0} → Session S → Session S
stop_running s = record s { events = set_running false s.events }

-- A start that the plugin refused leaves the flag cleared.
abbrev pub started : {S : Type 0} → Answered S (Unit {0}) → Answered S ResponseArm
started (s, accept _) = (s, accept ResponseArm.acquire_start)
started (s, refuse e) = (stop_running s, refuse e)

abbrev pub was_reset : {S : Type 0} → Answered S (Unit {0}) → Answered S ResponseArm
was_reset (s, accept _) = (stop_running s, accept ResponseArm.reset)
was_reset (s, refuse e) = (s, refuse e)

module _ (net : ℕ → Option NngError) (P : CaptureServer) where
  open P use {State}

  -- A handler's state and pushes become the session's.
  unfoldable pub run : {A : Type 0} → Handled State A → Session State → Answered State A
  run (p, pushed, reply) s = (record s { plugin = p; events = push_all net pushed s.events }, reply)

  -- The `match` on the request's arm.
  handle : RequestArm → Session State → Answered State ResponseArm
  unfolding run
  handle (RequestArm.hello req) s =
      if s.greeted then (s, refuse hello_again) else greet (run (P.hello req s.plugin) s)
  handle RequestArm.describe s =
      if s.events.running
      then (s, refuse in_progress)
      else answer ResponseArm.describe (run (P.describe s.plugin) s)
  handle RequestArm.get_config s =
      if s.events.running
      then (s, refuse in_progress)
      else answer ResponseArm.get_config (run (P.get_config s.plugin) s)
  handle (RequestArm.set_config req) s =
      if s.events.running
      then (s, refuse in_progress)
      else answer ResponseArm.set_config
          (run (P.set_config (config_or_default req.config) s.plugin) s)
  handle (RequestArm.acquire_start req) s =
      if s.events.running
      then (s, refuse in_progress)
      else started
          (run (P.acquire_start req s.plugin) (record s { events = set_running true s.events }))
  handle (RequestArm.acquire_stop req) s =
      if s.events.running
      then answer (λ _. ResponseArm.acquire_stop) (run (P.acquire_stop req s.plugin) s)
      else (s, accept ResponseArm.acquire_stop)
  handle RequestArm.reset s = was_reset (run (P.reset s.plugin) s)
  handle RequestArm.shutdown s = (s, accept ResponseArm.shutdown)

  -- `Hello` is the only thing that is answered before it has been answered once.
  pub handle_greeted : RequestArm → Session State → Answered State ResponseArm
  unfolding handle
  handle_greeted arm s =
      if not s.greeted && not (is_hello arm) then (s, refuse hello_first) else handle arm s

  unfoldable pub dispatch_arm : Option RequestArm → Session State → Answered State ResponseArm
  unfolding handle_greeted
  dispatch_arm none s = (s, refuse no_payload)
  dispatch_arm (some arm) s = handle_greeted arm s

  unfoldable pub dispatch : Request → Session State → Answered State ResponseArm
  unfolding dispatch_arm
  dispatch request s = dispatch_arm request.request s
