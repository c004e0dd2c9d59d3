-- ===== src/Cpp/Endpoints.antt =====
-- `Endpoints` and `checkSunPath` of cpp/src/transport.cpp: the directory of one plugin process's
-- sockets. The file system is the list of the directories that stand in the base directory; an
-- `errno` is the `IoError` that Rust reads from it, and `errno_number` its number.
pub mod Agreement
pub mod Base
use openmso_api.Prelude.{
  ℕ, zero, suc, ◌+◌, Option, none, some, List, [], ◌∷◌, ◌++◌, if◌then◌else◌, leb, bit_and, Str,
  codes, bytes_eq, length, ◌⊎◌, inl, inr,
}
use openmso_api.Prelude.Paths.{Dir, private_dir}
use openmso_api.Failure.{IoError, already_exists, other_io}
use openmso_api.Failure.Text.{decimal}
use openmso_api.Transport.Endpoints.{Endpoints, hex4, member}
use openmso_api.Cpp.Errors.{
  io_error, protocol_error, Result, returned, thrown, escaped, stuck, ◌>>=◌, ◌>>◌, throw_if,
}

-- The base directory, of the variables XDG_RUNTIME_DIR and TMPDIR.
unfoldable pub base_dir : Option Str → Option Str → Str
base_dir (some runtime) tmp = runtime ++ codes "/openmso"
base_dir none (some tmp) = tmp ++ codes "/openmso"
base_dir none none = codes "/tmp/openmso"

-- What making one directory gives: the directories then, or an `errno`.
abbrev pub Made : Type 0
Made = IoError ⊎ List Dir

-- `checkSunPath`
unfoldable pub check_sun_path : Str → Result (Unit {0})
check_sun_path path =
    if leb (length path) 103
    then returned tt
    else thrown (
        protocol_error (
          codes "socket path is "
          ++ decimal (length path)
          ++ codes " bytes, over the "
          ++ decimal 103
          ++ codes "-byte limit: "
          ++ path))

-- `::rmdir` of a directory that is empty, where it succeeds.
unfoldable pub rmdir : Str → List Dir → List Dir
rmdir dir [] = []
rmdir dir (d ∷ dirs) = let rest = rmdir dir dirs in if bytes_eq d.path dir then rest else d ∷ rest

-- What follows the making of `dir`: the check, whose failure takes the directory away, and the names.
unfoldable pub settle : Str → List Dir → Result (Unit {0}) → List Dir × Result Endpoints
unfolding rmdir
settle dir dirs (returned _) = (
  dirs,
  returned (record {
    control = codes "ipc://" ++ (dir ++ codes "/ctl");
    events = codes "ipc://" ++ dir ++ codes "/evt";
    dir = dir;
  }),
)
settle dir dirs (thrown x) = (rmdir dir dirs, thrown x)
settle dir dirs escaped = (rmdir dir dirs, escaped)
settle dir dirs stuck = (rmdir dir dirs, stuck)

-- `mkdir_base` and `chmod_base` are the `errno` of making the base directory and of setting its
-- mode, and `refused` is what the system refuses to make although no such directory stands there.
module _ (errno_number : IoError → ℕ) (strerror : ℕ → Str) (refused : Str → Option IoError)
    (base : Str) where
  -- `::mkdir` with the mode 0700.
  unfoldable pub mkdir : Str → List Dir → Made
  mkdir dir dirs =
      if member dir dirs
      then inl already_exists
      else elim (refused dir) [ some e ↦ inl e | none ↦ inr (private_dir dir ∷ dirs) ]

  -- One turn of the loop, by what `::mkdir` gave; `next` are the turns after it.
  unfoldable pub turn :
      Str → List Dir → Made → List Dir × Result Endpoints → List Dir × Result Endpoints
  unfolding settle check_sun_path
  turn dir dirs (inl already_exists) next = next
  turn dir dirs (inl (other_io n)) next =
      (dirs, thrown (io_error strerror (errno_number (other_io n)) (codes "create " ++ dir)))
  turn dir dirs (inr dirs') next = settle dir dirs' (check_sun_path (dir ++ codes "/ctl"))

  -- The loop, of which `tries` turns are left.
  unfoldable pub attempts : ℕ → ℕ → List Dir → List Dir × Result Endpoints
  unfolding turn mkdir hex4
  attempts zero tag dirs = (dirs, thrown (protocol_error (codes "no free runtime directory")))
  attempts (suc tries) tag dirs =
      let dir = base ++ (codes "/" ++ hex4 tag) in
      let next = attempts tries (bit_and (tag + 1) 0xffff) dirs in
      turn dir dirs (mkdir dir dirs) next

  -- The making of the base directory, which may be there already, and its mode.
  unfoldable pub prepare : Option IoError → Option IoError → Result (Unit {0})
  prepare (some (other_io n)) _ =
      thrown (io_error strerror (errno_number (other_io n)) (codes "create " ++ base))
  prepare _ (some e) = thrown (io_error strerror (errno_number e) (codes "chmod " ++ base))
  prepare _ none = returned tt

  -- What the constructor does when it has the path of the base directory; `entropy` is the clock `^` the
  -- process id.
  unfoldable pub new_endpoints_in :
      Option IoError → Option IoError → ℕ → List Dir → List Dir × Result Endpoints
  unfolding prepare attempts
  new_endpoints_in mkdir_base chmod_base entropy dirs = elim (prepare mkdir_base chmod_base) [
    | returned _ ↦ attempts 64 (bit_and entropy 0xffff) dirs
    | thrown x ↦ (dirs, thrown x)
    | escaped ↦ (dirs, escaped)
    | stuck ↦ (dirs, stuck)
  ]

-- The constructor, in an environment whose XDG_RUNTIME_DIR and TMPDIR are `runtime` and `tmp`.
unfoldable pub new_endpoints :
    (IoError → ℕ)
    → (ℕ → Str)
    → (Str → Option IoError)
    → Option Str
    → Option Str
    → Option IoError
    → Option IoError
    → ℕ
    → List Dir
    → List Dir × Result Endpoints
unfolding base_dir new_endpoints_in
new_endpoints errno_number strerror refused runtime tmp =
    new_endpoints_in errno_number strerror refused (base_dir runtime tmp)
