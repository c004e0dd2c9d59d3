-- ===== src/Conformance/Runtime.antt =====
-- The tests of rust/openmso/src/transport.rs.
use openmso_api.Prelude.{
  ℕ, ◌+◌, ◌-◌, bit_and, ◌==◌, if◌then◌else◌, not, Option, none, List, [], ◌∷◌, ◌≡◌, refl, Str,
  codes, bytes_eq, copies,
}
use openmso_api.Prelude.Utf8.{lossy}
use openmso_api.Prelude.Paths.{Dir, join}
use openmso_api.Transport.Sockets.{starts_with}
use openmso_api.Failure.{IoError, other_io, Outcome, ok, err, io, assert, ◌>>=◌, ◌>>◌}
use openmso_api.Transport.Endpoints.{
  Endpoints, check_sun_path, new_endpoints, create_loop, create, hex4, member, drop_endpoints,
}
use openmso_api.Conformance.{unwrap, assert_is_err}

-- `assert_ne!` of two strings, and `assert!(result.is_ok())`.
abbrev assert_other : Str → Str → Outcome (Unit {0})
assert_other xs ys = assert (not (bytes_eq xs ys))

-- The mode of a directory in a process whose mask is `umask`, by the mode that it was made with, and
-- what `std::fs::metadata` says of it.
abbrev pub made_mode : ℕ → ℕ → ℕ
made_mode umask mode = mode - bit_and mode umask

abbrev mode_of : ℕ → Str → List Dir → Outcome ℕ
mode_of umask dir [] = err (io (other_io 2))
mode_of umask dir (d ∷ dirs) =
    if bytes_eq dir d.path then ok (0o40000 + made_mode umask d.mode) else mode_of umask dir dirs

unfoldable endpoints_are_private_and_removed_on_drop :
    (Str → Option IoError) → Str → ℕ → ℕ → List Dir → Outcome (Unit {0})
endpoints_are_private_and_removed_on_drop refused base umask entropy dirs = do
  let made : List Dir × Outcome Endpoints = new_endpoints refused base (ok tt) entropy dirs
  e ← unwrap made.1
  assert (starts_with (codes "ipc://") e.control)
  assert_other e.control e.events
  mode ← unwrap (mode_of umask e.dir made.0)
  assert (bit_and mode 0o777 == 0o700)
  assert (not (member e.dir (drop_endpoints e made.0)))

-- The two `Endpoints::new`, one after the other.
unfoldable concurrent_frontends_get_separate_directories :
    (Str → Option IoError) → Str → ℕ → ℕ → List Dir → Outcome (Unit {0})
concurrent_frontends_get_separate_directories refused base first second dirs = do
  let left : List Dir × Outcome Endpoints = new_endpoints refused base (ok tt) first dirs
  a ← unwrap left.1
  b ← unwrap (new_endpoints refused base (ok tt) second left.0).1
  assert_other a.control b.control

unfoldable overlong_socket_paths_are_rejected : Outcome (Unit {0})
overlong_socket_paths_are_rejected = do
  assert_is_err (check_sun_path (join (codes "/run/user/1000") (copies 100 (codes "x"))))
  unwrap (check_sun_path (codes "/run/user/1000/openmso/7f3a/ctl"))

-- The two frontends read the same clock.
concurrent_frontends_pass :
    concurrent_frontends_get_separate_directories
      (λ _. none)
      (codes "/run/user/1000/openmso")
      7
      7
      []
    ≡ ok tt
unfolding concurrent_frontends_get_separate_directories new_endpoints create_loop create join hex4
    lossy
concurrent_frontends_pass = refl

overlong_paths_pass : overlong_socket_paths_are_rejected ≡ ok tt
unfolding overlong_socket_paths_are_rejected check_sun_path join
overlong_paths_pass = refl

-- With the usual mask of a process.
private_passes :
    endpoints_are_private_and_removed_on_drop
      (λ _. none)
      (codes "/run/user/1000/openmso")
      0o022
      7
      []
    ≡ ok tt
unfolding endpoints_are_private_and_removed_on_drop new_endpoints create_loop create join hex4 lossy
    drop_endpoints
private_passes = refl
