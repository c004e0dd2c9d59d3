-- ===== src/Server/Start.antt =====
-- `serve` of rust/openmso/src/server/mod.rs from its dialling on, and `exit_on_stdin_eof`.
pub mod Dialling
use openmso_api.Prelude.{
  ℕ, zero, suc, Bool, true, false, Option, none, some, List, [], ◌∷◌, if◌then◌else◌,
}
use openmso_api.Failure.{NngError, IoError, Outcome, ok, err, panic, stuck}
use openmso_api.World.{
  rep0, push0, dial, World, System, Io, pure, ◌>>=◌, ◌>>◌, or_drop, close, nng_call,
}
use openmso_api.Transport.Sockets.{socket}
use openmso_api.Server.Args.{Args}
use openmso_api.Server.Events.{new_events}
use openmso_api.Server.Plugin.{CaptureServer}
use openmso_api.Server.Dispatch.{Session}
use openmso_api.Server.Serve.{Turn, Served, serve_loop}

module _ (sys : System) where
  -- The event socket, once the control socket has dialled.
  unfoldable pub dial_events : Args → ℕ → Io (ℕ × ℕ)
  dial_events args control = do
    stream ← socket sys push0
    or_drop (close stream) (nng_call sys (dial stream args.events) >> pure (control, stream))

  -- The two sockets of `serve`: the control socket and the event socket.
  unfoldable pub dial_both : Args → Io (ℕ × ℕ)
  unfolding dial_events
  dial_both args = do
    control ← socket sys rep0
    or_drop (close control) (nng_call sys (dial control args.control) >> dial_events args control)

-- The session of a server whose sockets are there.
abbrev pub new_session : {S : Type 0} → S → Session S
new_session plugin = record { plugin = plugin; events = new_events; greeted = false }

module _ (sys : System) (net : ℕ → Option NngError) (P : CaptureServer) where
  open P use {State}

  -- A return drops the control socket, and the event socket unless the plugin holds on to the events.
  unfoldable pub leave : (State → Bool) → ℕ → ℕ → Served State → World → World
  leave keeps control stream served w = elim served.result [
    | none ↦ w
    | some _ ↦
        let w' = if keeps served.session.plugin then w else close stream w in close control w'
  ]

  serve_sockets :
      (State → Bool) → List Turn → State → World × Outcome (ℕ × ℕ) → World × Served State
  unfolding leave
  serve_sockets keeps turns plugin (w, ok (control, stream)) =
      let served = serve_loop net P turns (new_session plugin) [] in
      (leave keeps control stream served w, served)
  serve_sockets keeps turns plugin (w, err e) =
      (w, record { session = new_session plugin; responses = []; result = some (err e) })
  serve_sockets keeps turns plugin (w, panic) =
      (w, record { session = new_session plugin; responses = []; result = some panic })
  serve_sockets keeps turns plugin (w, stuck) =
      (w, record { session = new_session plugin; responses = []; result = some stuck })

  -- `serve`, over the rounds to come; `keeps` says of a plugin whether it still holds the events.
  unfoldable pub serve : (State → Bool) → Args → List Turn → State → World → World × Served State
  unfolding serve_sockets
  serve keeps args turns plugin w = serve_sockets keeps turns plugin (dial_both sys args w)

-- What a `read` of stdin gave: a number of bytes, or an error.
pub data StdinRead : Type 0 where
  bytes : ℕ → StdinRead
  failed : IoError → StdinRead

-- The thread of `exit_on_stdin_eof`, over the reads to come: whether it has exited the process.
unfoldable pub exit_on_stdin_eof : List StdinRead → Bool
exit_on_stdin_eof [] = false
exit_on_stdin_eof (bytes zero ∷ reads) = true
exit_on_stdin_eof (failed _ ∷ reads) = true
exit_on_stdin_eof (bytes (suc n) ∷ reads) = exit_on_stdin_eof reads
