-- ===== src/Tests/Launching.antt =====
-- The properties of launching, dropping and dialling, in a world where nothing is held yet.
use openmso_api.Prelude.Utf8.{lossy}
use openmso_api.Prelude.{
  ℕ, false, Option, none, some, ◌≡◌, refl, List, [], ◌∷◌, ◌++◌, Str, codes, if◌then◌else◌,
}
use openmso_api.Prelude.Paths.{private_dir, join}
use openmso_api.Failure.{NngError, closed, ok}
use openmso_api.World.{
  req0, rep0, push0, pull0, Call, World, System, dial, spawn, recv_timeout, start,
}
use openmso_api.World.Calls.{held, is_ok}
use openmso_api.Transport.Endpoints.{Endpoints, new_endpoints, create_loop, create, hex4}
use openmso_api.Transport.Endpoints.Creation.{Private}
use openmso_api.Transport.Sockets.{socket, listen, set_recv_timeout}
use openmso_api.Transport.Sockets.Effects.{socket_calls}
use openmso_api.Server.Args.{Args, from_env, parse_loop, Slot}
use openmso_api.Server.Args.Launch.{Setting, spell_all}
use openmso_api.Client.{CaptureClient}
use openmso_api.Client.Launch.{
  Handles, plugin_args, make_endpoints, start_child, launch_sockets, launch, drop_client,
}
use openmso_api.Client.Launch.Worlds.{
  control_listener, event_listener, private_listen, launch_calls, handles_in,
}
use openmso_api.Client.Launch.Trace.{launch_trace}
use openmso_api.Client.Launch.Cleanup.{launch_cleans, drop_client-launch}
use openmso_api.Client.Launch.Meeting.{plugin_view, launch-dial_both}
use openmso_api.Server.Start.{dial_both, serve}
use openmso_api.Server.Start.Dialling.{dial_calls, serve_releases}
use openmso_api.Server.Serve.{Turn, received, broken, serve_loop}
use openmso_api.Server.Dispatch.{dispatch}
use openmso_api.Proto.Control.{RequestArm}
use openmso_api.Tests.{quiet, demo}

-- A system that does what it is asked, and one that starts no listener.
abbrev calm : System
calm = record {
  nng_error = λ _ _. none;
  io_error = λ _ _. none;
  refused = λ _. none;
  base = codes "/run/user/1000/openmso";
  prepared = ok tt;
  entropy = 0x17f3a;
}

abbrev refuse_start : Call → Option NngError
refuse_start (start _) = some closed
refuse_start _ = none

abbrev deaf : System
deaf = record calm { nng_error = λ c _. refuse_start c }

abbrev bare : World
bare = record { calls = []; next = 0; sockets = []; dirs = []; children = [] }

abbrev endpoints : Endpoints
endpoints = record {
  control = codes "ipc:///run/user/1000/openmso/7f3a/ctl";
  events = codes "ipc:///run/user/1000/openmso/7f3a/evt";
  dir = codes "/run/user/1000/openmso/7f3a";
}

abbrev handles : Handles
handles = record { child = 4; control = 0; events = 2; endpoints = endpoints }

-- A word of the argv that the launch's own arguments override.
abbrev settings : List Setting
settings = Setting.inline Slot.device (codes "demo://9") ∷ []

abbrev args : List Str
args = plugin_args (spell_all settings) (codes "demo://0") endpoints

abbrev started : World
started = record {
  calls = launch_calls (codes "./demo") args handles;
  next = 5;
  sockets = 2 ∷ 0 ∷ [];
  dirs = private_dir endpoints.dir ∷ [];
  children = 4 ∷ [];
}

abbrev child_of : Handles → ℕ
child_of h = h.child

abbrev client : CaptureClient ℕ
client = record { seq = 0; capture_id = 0; world = 4 }

launches :
    launch calm child_of (codes "./demo" ∷ spell_all settings) (codes "demo://0") bare
    ≡ (started, ok (client, handles))
unfolding launch make_endpoints new_endpoints launch_sockets socket listen set_recv_timeout
    start_child create_loop create join hex4 lossy
launches = refl

launch_trace_example :
    Private [] (private_dir endpoints.dir ∷ []) endpoints
    × (handles ≡ handles_in 0 endpoints)
    × (client ≡ record { seq = 0; capture_id = 0; world = 4 })
    × (started.calls ≡ (
        spawn 4 (codes "./demo") args ∷ private_listen (event_listener handles)
        ++ socket_calls pull0 2
        ++ recv_timeout 0 (some 60000) ∷ private_listen (control_listener handles)
        ++ socket_calls req0 0
        ++ []))
    × (held started
        ≡ record { sockets = 2 ∷ 0 ∷ []; dirs = private_dir endpoints.dir ∷ []; children = 4 ∷ [] })
launch_trace_example =
    launch_trace calm child_of (codes "./demo") (spell_all settings) (codes "demo://0") bare
      launches

fails : is_ok (launch deaf child_of (codes "./demo" ∷ []) (codes "demo://0") bare).1 ≡ false
unfolding launch make_endpoints new_endpoints launch_sockets socket listen set_recv_timeout
    start_child create_loop create join hex4
fails = refl

launch_cleans_example :
    held (launch deaf child_of (codes "./demo" ∷ []) (codes "demo://0") bare).0
    ≡ (if is_ok (make_endpoints deaf bare).1 then held bare else held (make_endpoints deaf bare).0)
launch_cleans_example =
    launch_cleans deaf child_of (codes "./demo") [] (codes "demo://0") bare fails

drop_client-launch_example : held (drop_client calm handles started) ≡ held bare
drop_client-launch_example =
    drop_client-launch calm child_of (codes "./demo") (spell_all settings) (codes "demo://0") bare
      started launches refl (λ _. refl)

abbrev view : Args
view = plugin_view (codes "demo://0") endpoints

-- The plugin's own world once it has dialled.
abbrev dialled : World
dialled = record bare { calls = dial_calls view 0; next = 2; sockets = 1 ∷ 0 ∷ [] }

-- The calls of the launch before its last.
abbrev before : List Call
before =
    private_listen (event_listener handles)
    ++ socket_calls pull0 2
    ++ recv_timeout 0 (some 60000) ∷ private_listen (control_listener handles)
    ++ socket_calls req0 0

reads_args : from_env (codes "./demo" ∷ args) ≡ ok view
unfolding from_env parse_loop
reads_args = refl

dials : dial_both calm view bare ≡ (dialled, ok (0, 1))
unfolding dial_both socket
dials = refl

launch-dial_both_example :
    (dialled.calls ≡ (
      dial 1 (event_listener handles).url ∷ socket_calls push0 1
      ++ dial 0 (control_listener handles).url ∷ socket_calls rep0 0
      ++ []))
    × (before ≡ (
        private_listen (event_listener handles)
        ++ socket_calls pull0 2
        ++ recv_timeout 0 (some 60000) ∷ private_listen (control_listener handles)
        ++ socket_calls req0 0
        ++ []))
launch-dial_both_example =
    launch-dial_both calm child_of (codes "./demo") (codes "demo://0") settings bare bare launches
      refl reads_args dials

-- One request to a server that has just dialled: a `Shutdown`, before any `Hello`, and then the
-- frontend's end of the pipe.
abbrev turns : List Turn
turns =
    record {
      pushed = [];
      incoming = received (record { seq = 1; request = some RequestArm.shutdown });
      answer = none;
    }
    ∷ record { pushed = []; incoming = broken closed; answer = none }
    ∷ []

returns : (serve calm quiet demo (λ _. false) view turns 0 bare).1.result ≡ some (ok tt)
unfolding serve dial_both socket serve_loop dispatch
returns = refl

serve_releases_example : held (serve calm quiet demo (λ _. false) view turns 0 bare).0 ≡ held bare
serve_releases_example = serve_releases calm quiet demo (λ _. false) view turns 0 bare returns refl
