-- ===== src/Cpp/Launch/Agreement.antt =====
-- The C++ `launch` makes the calls of the Rust `launch`.
use openmso_api.Prelude.{
  ℕ, ◌+◌, true, false, Option, none, some, List, [], ◌∷◌, ◌≡◌, ◌∙◌, ap, sym, refl, arith, Str, ◌⊎◌,
  bytes_eq, if◌then◌else◌,
}
use mathlib.Core.Path.{subst}
use openmso_api.Prelude.Paths.{Dir}
use openmso_api.Prelude.Utf8.{is_utf8}
use openmso_api.Transport.Base as RustBase
use openmso_api.Cpp.Endpoints.Base.{AgreeOnBase}
use openmso_api.Failure.{NngError, IoError, Error, Outcome, ok, err, panic, already_exists, io}
use openmso_api.Failure
use openmso_api.Failure.Text.{error_text, fault_text}
use openmso_api.World.{req0, pull0, spawn, World, System}
use openmso_api.World
use openmso_api.World.Calls.{is_ok}
use openmso_api.Transport.Endpoints.{Endpoints, drop_endpoints}
use openmso_api.Transport.Endpoints as RustEndpoints
use openmso_api.Client.Launch.{Handles}
use openmso_api.Client.Launch as Rust
use openmso_api.Cpp.Errors as CppErrors
use openmso_api.Cpp.Errors.{
  as_result, counterpart, Result, returned, thrown, escaped, stuck, io_error,
}
use openmso_api.Cpp.Client.Operations.{blur, blurred}
use openmso_api.Cpp.Endpoints.{rmdir, new_endpoints}
use openmso_api.Cpp.Endpoints.Agreement.{seen, tidied, new_endpoints-tidied}
use openmso_api.Cpp.Sockets as CppSockets
use openmso_api.Cpp.Sockets.{Io, pure, close, or_destroy}
use openmso_api.Cpp.Sockets.Agreement.{
  Corresponds, SameRun, Alike, itself, bind_same, scope_same, pure_same, socket_same, listen_same,
  set_recv_timeout_same,
}
use openmso_api.Cpp.Launch.{
  remove_dir, make_endpoints, start_child, launch_child, launch_events, launch_sockets, launch,
}

rmdir_same : (e : Endpoints) (dirs : List Dir) → rmdir e.dir dirs ≡ drop_endpoints e dirs
unfolding rmdir drop_endpoints
rmdir_same e [] = refl
rmdir_same e (d ∷ dirs) =
    ap (λ rest. if bytes_eq d.path e.dir then rest else d ∷ rest) (rmdir_same e dirs)

module _ (nng_text : NngError → Str) (io_text : IoError → Str) (debug : Str → Str) (sys : System)
    (nng_number : NngError → ℕ) (errno_number : IoError → ℕ) (strerror : ℕ → Str)
    (runtime tmp : Option Str) (mkdir_base chmod_base : Option IoError)
    (failed : IoError → Str) where
  child_answered :
      (answer : Option IoError) (program : Str) (args : List Str) (w : World)
      → SameRun nng_text io_text debug
          (itself {A = ℕ})
          (elim answer [
            | some e ↦ (w, thrown (io_error strerror (errno_number e) (failed e)))
            | none ↦ (
              record w {
                calls = spawn w.next program args ∷ w.calls;
                next = w.next + 1;
                children = w.next ∷ w.children;
              },
              returned w.next,
            )
          ])
          (World.followed {A = Unit {0}} {B = ℕ}
            (elim answer [
              | none ↦ (record w { calls = spawn w.next program args ∷ w.calls }, ok tt)
              | some e ↦ (w, err (io e))
            ])
            λ u v. (record v { next = w.next + 1; children = w.next ∷ v.children }, ok w.next))
  unfolding counterpart error_text
  child_answered none program args w = (refl, Corresponds.both_return w.next)
  child_answered (some e) program args w = (refl, Corresponds.both_fail _ _ refl)

  child_same :
      (program : Str) (args : List Str)
      → Alike nng_text io_text debug itself
          (start_child sys nng_number errno_number strerror runtime tmp mkdir_base chmod_base failed
            (program ∷ args))
          (Rust.start_child sys program args)
  unfolding start_child Rust.start_child
  child_same program args w =
      child_answered (sys.io_error (spawn w.next program args) w.calls) program args w

  launch_child_same :
      (program : Str) (rest : List Str) (device : Str) (e : Endpoints) (control events : ℕ)
      → Alike nng_text io_text debug itself
          (launch_child sys nng_number errno_number strerror runtime tmp mkdir_base chmod_base
            failed
            (program ∷ rest)
            device
            e
            control
            events)
          (Rust.launch_child sys program rest device e control events)
  unfolding launch_child Rust.launch_child
  launch_child_same program rest device e control events =
      bind_same nng_text io_text debug _ itself _ _ _ _
        (listen_same nng_text io_text debug sys nng_number strerror events e.events)
        λ l.
          bind_same nng_text io_text debug itself itself _ _ _ _
            (child_same program (Rust.plugin_args rest device e))
            λ child. pure_same nng_text io_text debug itself _

  launch_events_same :
      (program : Str) (rest : List Str) (device : Str) (e : Endpoints) (control : ℕ)
      → Alike nng_text io_text debug itself
          (launch_events sys nng_number errno_number strerror runtime tmp mkdir_base chmod_base
            failed
            (program ∷ rest)
            device
            e
            control)
          (Rust.launch_events sys program rest device e control)
  unfolding launch_events Rust.launch_events
  launch_events_same program rest device e control =
      bind_same nng_text io_text debug _ itself _ _ _ _
        (listen_same nng_text io_text debug sys nng_number strerror control e.control)
        λ l.
          bind_same nng_text io_text debug itself itself _ _ _ _
            (set_recv_timeout_same nng_text io_text debug sys nng_number strerror control
              (some 60000))
            λ u.
              bind_same nng_text io_text debug itself itself _ _ _ _
                (socket_same nng_text io_text debug sys nng_number strerror pull0)
                λ events.
                  scope_same nng_text io_text debug (close events) (World.close events) _ _
                    (λ v. refl) (launch_child_same program rest device e control events)

  launch_sockets_same :
      (program : Str) (rest : List Str) (device : Str) (e : Endpoints)
      → Alike nng_text io_text debug itself
          (launch_sockets sys nng_number errno_number strerror runtime tmp mkdir_base chmod_base
            failed
            (program ∷ rest)
            device
            e)
          (Rust.launch_sockets sys program rest device e)
  unfolding launch_sockets Rust.launch_sockets
  launch_sockets_same program rest device e =
      bind_same nng_text io_text debug itself itself _ _ _ _
        (socket_same nng_text io_text debug sys nng_number strerror req0)
        λ control.
          scope_same nng_text io_text debug (close control) (World.close control) _ _ (λ v. refl)
            (launch_events_same program rest device e control)

  -- The same run, or two that fail alike at the making of the endpoints: the C++ run has done nothing, and
  -- the Rust run has done what `making`, its making of the endpoints, did.
  pub data SameOrNothing {A : Type 0} (w : World) (making : World × Outcome Endpoints)
      (run : World × Result A) (run' : World × Outcome A) : Type 0 where
    same_run : SameRun nng_text io_text debug itself run run' → SameOrNothing w making run run'
    nothing_done :
        is_ok making.1 ≡ false
        → run.0 ≡ w
        → run'.0 ≡ making.0
        → Corresponds nng_text io_text debug itself run.1 run'.1
        → SameOrNothing w making run run'

  -- The error of a `throw`.
  abbrev thrown_or : CppErrors.Error → Result Endpoints → CppErrors.Error
  thrown_or x (thrown y) = y
  thrown_or x _ = x

  result_same :
      (r : Result Endpoints) (o : Outcome Endpoints)
      → blurred r ≡ blurred (as_result nng_text io_text debug o)
      → Corresponds nng_text io_text debug itself r o
  result_same (returned a) (ok b) h =
      subst (λ r. Corresponds nng_text io_text debug itself r (ok b)) (sym h)
        (Corresponds.both_return b)
  result_same (returned a) (err y) h = absurd (ground (arith, h))
  result_same (returned a) panic h = absurd (ground (arith, h))
  result_same (returned a) Failure.stuck h = absurd (ground (arith, h))
  result_same (thrown x) (ok b) h = absurd (ground (arith, h))
  result_same (thrown x) (err y) h = Corresponds.both_fail x y (ap (thrown_or (blur x)) h)
  result_same (thrown x) panic h = absurd (ground (arith, h))
  result_same (thrown x) Failure.stuck h = absurd (ground (arith, h))
  result_same escaped (ok b) h = absurd (ground (arith, h))
  result_same escaped (err y) h = absurd (ground (arith, h))
  result_same escaped panic h = Corresponds.both_panic
  result_same escaped Failure.stuck h = absurd (ground (arith, h))
  result_same stuck (ok b) h = absurd (ground (arith, h))
  result_same stuck (err y) h = absurd (ground (arith, h))
  result_same stuck panic h = absurd (ground (arith, h))
  result_same stuck Failure.stuck h = Corresponds.both_stuck

  -- What `tidied` says of the result, and of the directories.
  tidied_result :
      (before dirs' : List Dir) (o : Outcome Endpoints)
      → (tidied nng_text io_text debug before (dirs', o)).1
        ≡ blurred (as_result nng_text io_text debug o)
  tidied_result before dirs' (ok e) = refl
  tidied_result before dirs' (err y) = refl
  tidied_result before dirs' panic = refl
  tidied_result before dirs' Failure.stuck = refl

  endpoints_then :
      {A : Type 0} (w : World) (k : Endpoints → Io A) (k' : Endpoints → World.Io A)
      → ((e : Endpoints) → Alike nng_text io_text debug itself (k e) (k' e))
      → (dirs dirs' : List Dir) {r : Result Endpoints} {o : Outcome Endpoints}
      → Corresponds nng_text io_text debug itself r o
      → dirs ≡ (tidied nng_text io_text debug w.dirs (dirs', o)).0
      → SameOrNothing w
          (record w { dirs = dirs' }, o)
          (CppSockets.followed (record w { dirs = dirs }, r) k)
          (World.followed (record w { dirs = dirs' }, o) k')
  endpoints_then w k k' h dirs dirs' (Corresponds.both_return b) same = same_run (
      subst
        (λ d.
          SameRun nng_text io_text debug itself (k b (record w { dirs = dirs }))
            (k' b (record w { dirs = d })))
        same (h b (record w { dirs = dirs })))
  endpoints_then w k k' h dirs dirs' (Corresponds.both_fail x y e) same =
      nothing_done refl (ap (λ d. record w { dirs = d }) same) refl (Corresponds.both_fail x y e)
  endpoints_then w k k' h dirs dirs' Corresponds.both_panic same =
      nothing_done refl (ap (λ d. record w { dirs = d }) same) refl Corresponds.both_panic
  endpoints_then w k k' h dirs dirs' Corresponds.both_stuck same =
      nothing_done refl (ap (λ d. record w { dirs = d }) same) refl Corresponds.both_stuck

  scope_of_endpoints :
      (program : Str) (rest : List Str) (device : Str) (e : Endpoints)
      → Alike nng_text io_text debug itself
          (or_destroy (remove_dir e) (
            launch_sockets sys nng_number errno_number strerror runtime tmp mkdir_base chmod_base
              failed
              (program ∷ rest)
              device
              e))
          (World.or_drop (Rust.remove_dir e) (Rust.launch_sockets sys program rest device e))
  unfolding remove_dir
  scope_of_endpoints program rest device e =
      scope_same nng_text io_text debug (remove_dir e) (Rust.remove_dir e) _ _
        (λ v. ap (λ d. record v { dirs = d }) (rmdir_same e v.dirs))
        (launch_sockets_same program rest device e)

  -- Each of the two `launch` chooses the base directory from the environment. Where what it is chosen from
  -- is not empty, ends in no slash and is UTF-8, `std::env::temp_dir` gives TMPDIR or /tmp, the base
  -- directory can be made or is there, and its mode can be set, the C++ `launch` and the Rust `launch`
  -- of a plugin do the same: the same calls in the same order with the same options, addresses and
  -- arguments, the same sockets, directories and children held, and the same handles, or a failure of
  -- the same kind. The one exception is where the making of the endpoints fails: both fail, the C++
  -- `launch` has done nothing, and the Rust `launch` only what that making did.
  pub launch_same :
      (temp_dir : Str) (argv : List Str) (device : Str) (w : World)
      → sys.base ≡ RustBase.base_dir runtime temp_dir
      → AgreeOnBase runtime tmp temp_dir
      → is_utf8 sys.base ≡ true
      → sys.prepared ≡ ok tt
      → (mkdir_base ≡ none) ⊎ (mkdir_base ≡ some already_exists)
      → chmod_base ≡ none
      → SameOrNothing w
          (Rust.make_endpoints sys w)
          (launch sys nng_number errno_number strerror runtime tmp mkdir_base chmod_base failed argv
            device w)
          (Rust.launch_handles sys argv device w)
  unfolding launch Rust.launch_handles make_endpoints Rust.make_endpoints counterpart error_text
      fault_text
  launch_same temp_dir [] device w b same u p m c = same_run (refl, Corresponds.both_fail _ _ refl)
  launch_same temp_dir (program ∷ rest) device w b same u p m c =
      let (dirs, r) =
        new_endpoints errno_number strerror sys.refused runtime tmp mkdir_base chmod_base
          sys.entropy w.dirs in
      let (dirs', o) =
        RustEndpoints.new_endpoints sys.refused sys.base sys.prepared sys.entropy w.dirs in
      let made : seen nng_text io_text debug (dirs, r)
          ≡ tidied nng_text io_text debug w.dirs (dirs', o) =
        rw (c, p, b)
          (new_endpoints-tidied nng_text io_text debug errno_number strerror sys.refused runtime tmp
            temp_dir mkdir_base sys.entropy w.dirs m same (ap is_utf8 (sym b) ∙ u)) in
      endpoints_then w _ _ (scope_of_endpoints program rest device) dirs dirs'
        (result_same r o (ap (λ x. x.1) made ∙ tidied_result w.dirs dirs' o)) (ap (λ x. x.0) made)
