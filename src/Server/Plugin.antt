-- ===== src/Server/Plugin.antt =====
-- The trait `CaptureServer` of rust/openmso/src/server/mod.rs: what a plugin implements.
use openmso_api.Prelude.{List, []}
use openmso_api.Proto.Device.{Description, Config}
use openmso_api.Proto.Stream.{Event}
use openmso_api.Proto.Control.{Hello, HelloResult, AcquireStart, AcquireStop}
use openmso_api.Failure.{Reply, accept}

-- What a handler leaves: the plugin's state, the events that it or its acquisition threads pushed
-- while it ran, in order, and the reply. `Events::set_running` is not open to a plugin, so these
-- pushes are all that it can do to the event stream.
abbrev pub Handled : Type 0 → Type 0 → Type 0
Handled S A = S × List Event × Reply A

pub record CaptureServer : Type 1 where
  pub State : Type 0
  pub hello : Hello → State → Handled State HelloResult
  pub describe : State → Handled State Description
  pub get_config : State → Handled State Config
  pub set_config : Config → State → Handled State Config
  pub acquire_start : AcquireStart → State → Handled State (Unit {0})
  pub acquire_stop : AcquireStop → State → Handled State (Unit {0})
  pub reset : State → Handled State (Unit {0})
  pub shutdown : State → State × List Event

-- The trait's own `reset` and `shutdown`.
abbrev pub default_reset : {S : Type 0} → S → Handled S (Unit {0})
default_reset s = (s, [], accept tt)

abbrev pub default_shutdown : {S : Type 0} → S → S × List Event
default_shutdown s = (s, [])
