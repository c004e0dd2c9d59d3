-- ===== src/Tests/CppLaunching.antt =====
-- The properties of what the C++ frontend makes and starts, at concrete inputs.
use openmso_api.Prelude.Paths.{join}
use openmso_api.Prelude.{true, Option, none, some, ◌≡◌, inl, inr, refl, [], ◌∷◌, Str, codes}
use openmso_api.Failure.{IoError, already_exists, other_io, ok}
use openmso_api.Transport.Endpoints
use openmso_api.Transport.Base as RustBase
use openmso_api.Prelude.Utf8.{is_utf8}
use openmso_api.Cpp.Endpoints as CppEndpoints
use openmso_api.Cpp.Endpoints.Agreement.{seen, tidied, new_endpoints-tidied}
use openmso_api.Cpp.Spawn.{Process, kept}
use openmso_api.Cpp.Launch as CppLaunch
use openmso_api.Cpp.Launch.Agreement.{SameOrNothing, launch_same}
use openmso_api.Client.Launch.{launch_handles, make_endpoints}
use openmso_api.World.{System, World}
use openmso_api.Tests.{nng_text, io_text, debug, nng_number, errno_number, strerror}

-- A system that refuses no directory.
abbrev willing : Str → Option IoError
willing path = none

new_endpoints-tidied_example :
    seen nng_text io_text debug (
      CppEndpoints.new_endpoints errno_number strerror willing
        (some (codes "/run"))
        none
        (some already_exists)
        none
        7
        [])
    ≡ tidied nng_text io_text debug [] (
        Endpoints.new_endpoints willing
          (RustBase.base_dir (some (codes "/run")) (codes "/tmp"))
          (ok tt)
          7
          [])
unfolding is_utf8 RustBase.base_dir join
new_endpoints-tidied_example =
    new_endpoints-tidied nng_text io_text debug errno_number strerror willing (some (codes "/run"))
      none (codes "/tmp") (some already_exists) 7 [] (inr refl) refl refl

-- A frontend that holds its three standard descriptors, the pipe of a plugin that runs, and a file that
-- is closed on `execvp`.
abbrev frontend_process : Process
frontend_process = record {
  held = record { fd = 9; cloexec = true } ∷ kept 4 ∷ kept 2 ∷ kept 1 ∷ kept 0 ∷ [];
  children = 40 ∷ [];
  plugins = (40, 0 ∷ 1 ∷ 2 ∷ []) ∷ [];
}

-- A system in which the plugin cannot be started.
abbrev without_plugin : System
without_plugin = record {
  nng_error = λ c calls. none;
  io_error = λ c calls. some (other_io 2);
  refused = willing;
  base = codes "/run/openmso";
  prepared = ok tt;
  entropy = 7;
}

abbrev empty_world : World
empty_world = record { calls = []; next = 0; sockets = []; dirs = []; children = [] }

launch_same_example :
    SameOrNothing nng_text io_text debug without_plugin nng_number errno_number strerror
      (some (codes "/run"))
      none
      none
      none
      io_text
      empty_world
      (make_endpoints without_plugin empty_world)
      (CppLaunch.launch without_plugin nng_number errno_number strerror
        (some (codes "/run"))
        none
        none
        none
        io_text
        (codes "plugin" ∷ [])
        (codes "demo://")
        empty_world)
      (launch_handles without_plugin (codes "plugin" ∷ []) (codes "demo://") empty_world)
unfolding is_utf8 RustBase.base_dir join
launch_same_example =
    launch_same nng_text io_text debug without_plugin nng_number errno_number strerror
      (some (codes "/run")) none none none io_text (codes "/tmp") (codes "plugin" ∷ [])
      (codes "demo://") empty_world refl refl refl refl (inl refl) refl
