-- ===== src/Tests/Frontend.antt =====
-- The properties of the client, connected to a demo plugin.
use openmso_api.Prelude.{ℕ, false, ◌≡◌, []}
use openmso_api.Proto.Enums.{AcquireMode}
use openmso_api.Proto.Device.{default_config}
use openmso_api.Server.Dispatch.{Session}
use openmso_api.Client.{CaptureClient, replied, request}
use openmso_api.Client
use openmso_api.Client.Session.{connected, is_fault, calls_conform}
use openmso_api.Tests.{quiet, demo, client_of, running_session}

calls_conform_example :
    let c : CaptureClient (Session ℕ) = client_of running_session in
    (is_fault (Client.hello (connected quiet demo) [] [] c).1 ≡ false)
    × (is_fault (Client.describe (connected quiet demo) c).1 ≡ false)
    × (is_fault (Client.get_config (connected quiet demo) c).1 ≡ false)
    × (is_fault (Client.set_config (connected quiet demo) default_config c).1 ≡ false)
    × (is_fault (Client.acquire_start (connected quiet demo) 1 AcquireMode.single c).1 ≡ false)
    × (is_fault (Client.acquire_stop (connected quiet demo) 1 c).1 ≡ false)
    × (is_fault (Client.reset (connected quiet demo) c).1 ≡ false)
    × (is_fault (Client.shutdown (connected quiet demo) c).1 ≡ false)
calls_conform_example =
    calls_conform quiet demo (client_of running_session) [] [] default_config 1 AcquireMode.single
