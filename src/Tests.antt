-- ===== src/Tests.antt =====
-- Concrete data, on which the children run the properties of the library.
pub mod Codecs
pub mod Stream
pub mod Sessions
pub mod Serving
pub mod Frontend
pub mod Runtime
pub mod Launching
pub mod Captures
pub mod Races
pub mod Cpp
pub mod CppLaunching
use openmso_api.Prelude.{
  ℕ, zero, suc, Bool, true, false, Option, none, some, List, [], ◌∷◌, Str, codes, All, IsByte,
  arith,
}
use openmso_api.Proto.Enums.{SampleEncoding}
use openmso_api.Proto.Device.{Config, Description, default_config}
use openmso_api.Proto.Stream.{CaptureData, CaptureEnd, Event, capture_end}
use openmso_api.Proto.Control.{Hello, PluginInfo, Capabilities, DeviceInfo}
use openmso_api.Failure.{
  NngError, IoError, already_exists, other_io, closed, accept, refuse, unsupported,
}
use openmso_api.Server.Events.{Events, new_events}
use openmso_api.Server.Sender.{StreamSender}
use openmso_api.Server.Plugin.{CaptureServer, default_reset, default_shutdown}
use openmso_api.Server.Dispatch.{Session}
use openmso_api.Server.Serve.{hello_result}
use openmso_api.Client.{CaptureClient}

-- nng takes every push; nng takes the first and refuses the others.
abbrev pub quiet : ℕ → Option NngError
quiet n = none

abbrev pub failing : ℕ → Option NngError
failing zero = none
failing (suc n) = some closed

-- Three samples of one byte.
abbrev pub samples : List ℕ
samples = 7 ∷ 7 ∷ 9 ∷ []

pub bytes_samples : All IsByte samples
bytes_samples = ground arith

abbrev pub sender : StreamSender
sender = record {
  capture_id = 1;
  acquisition = 0;
  stream = 0;
  unitsize = 1;
  encoding = SampleEncoding.transition;
  seq = 4;
  first_sample = 100;
}

abbrev pub chunk : CaptureData
chunk = record {
  capture_id = 1;
  acquisition = 0;
  stream = 0;
  seq = 4;
  first_sample = 100;
  sample_count = 3;
  encoding = 2;
  codec = 9;
  decoded_len = 4;
  payload = 2 ∷ 7 ∷ 1 ∷ 9 ∷ [];
}

abbrev pub plugin_info : PluginInfo
plugin_info = record { name = codes "demo"; version = codes "1"; vendor = []; description = [] }

abbrev pub capabilities : Capabilities
capabilities = record { modes = 1 ∷ []; trigger_kinds = [] }

abbrev pub device_info : DeviceInfo
device_info = record { vendor = []; model = codes "demo"; serial = []; firmware_version = [] }

abbrev pub description : Description
description = record {
  channels = [];
  limits = none;
  analog = none;
  logic = none;
  vendor_options = [];
}

abbrev pub an_end : CaptureEnd
an_end = record { capture_id = 1; error = none }

-- A plugin that counts its configurations, and that ends a capture when it is stopped.
abbrev pub demo : CaptureServer
demo = record {
  State = ℕ;
  hello =
      λ (req : Hello) n. (n, [], accept (hello_result req plugin_info capabilities device_info));
  describe = λ n. (n, [], accept description);
  get_config = λ n. (n, [], accept default_config);
  set_config = λ c n. (suc n, [], accept c);
  acquire_start = λ req n. (n, [], accept tt);
  acquire_stop = λ req n. (n, capture_end an_end ∷ [], accept tt);
  reset = default_reset;
  shutdown = default_shutdown;
}

abbrev pub fresh_session : Session ℕ
fresh_session = record { plugin = 0; events = new_events; greeted = false }

abbrev pub ready_session : Session ℕ
ready_session = record { plugin = 0; events = new_events; greeted = true }

abbrev pub running_session : Session ℕ
running_session = record {
  plugin = 0;
  events = record { running = true; sent = []; tries = 0 };
  greeted = true;
}

abbrev pub client_of : Session ℕ → CaptureClient (Session ℕ)
client_of s = record { seq = 4294967295; capture_id = 0; world = s }

-- How the errors of nng and of the system are printed.
abbrev pub nng_text : NngError → Str
nng_text e = codes "nng"

abbrev pub io_text : IoError → Str
io_text e = codes "io"

abbrev pub debug : Str → Str
debug text = text

abbrev pub nng_number : NngError → ℕ
nng_number e = 7

abbrev pub errno_number : IoError → ℕ
errno_number already_exists = 17
errno_number (other_io n) = n

abbrev pub strerror : ℕ → Str
strerror n = codes "failed"
