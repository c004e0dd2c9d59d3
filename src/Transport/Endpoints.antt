-- ===== src/Transport/Endpoints.antt =====
-- `Endpoints` of rust/openmso/src/transport.rs: the directory of one plugin process's sockets, and its
-- names on Windows. The file system is the list of the directories that stand in the base directory.
pub mod Creation
pub mod Tags
use openmso_api.Prelude.{
  ℕ, zero, suc, ◌+◌, ◌/◌, ◌%◌, Bool, true, false, ◌||◌, Option, none, some, List, [], ◌∷◌, ◌++◌,
}
use openmso_api.Prelude.{if◌then◌else◌, ltb, leb, bit_and, Str, codes, bytes_eq, length}
use openmso_api.Prelude.Paths.{Dir, private_dir, join}
use openmso_api.Prelude.Utf8.{lossy}
use openmso_api.Failure.{
  IoError, already_exists, other_io, Error, Outcome, ok, err, panic, stuck, io, protocol,
  no_free_directory, path_too_long,
}

pub record Endpoints : Type 0 where
  pub control : Str
  pub events : Str
  pub dir : Str

-- `format!("{tag:04x}")` of a tag of 16 bits.
abbrev pub hex_digit : ℕ → ℕ
hex_digit n = if ltb n 10 then 48 + n else 87 + n

unfoldable pub hex4 : ℕ → Str
hex4 tag =
    hex_digit (tag / 4096 % 16)
    ∷ hex_digit (tag / 256 % 16)
    ∷ hex_digit (tag / 16 % 16)
    ∷ hex_digit (tag % 16)
    ∷ []

-- `check_sun_path`
unfoldable pub check_sun_path : Str → Outcome (Unit {0})
check_sun_path path =
    if leb (length path) 103
    then ok tt
    else err (protocol (path_too_long (length path) (lossy path)))

abbrev pub member : Str → List Dir → Bool
member path [] = false
member path (d ∷ dirs) = bytes_eq path d.path || member path dirs

-- The error that lets `Endpoints::new` try the next tag.
abbrev pub is_taken : {A : Type 0} → Outcome A → Bool
is_taken (err (io already_exists)) = true
is_taken _ = false

-- A call's result, with the directories behind it.
abbrev pub Made : Type 0 → Type 0
Made A = List Dir × Outcome A

-- What is returned once the directory is there.
unfoldable pub endpoints_in : Str → Outcome (Unit {0}) → Outcome Endpoints
endpoints_in dir (ok _) = ok (record {
  control = codes "ipc://" ++ lossy (join dir (codes "ctl"));
  events = codes "ipc://" ++ lossy (join dir (codes "evt"));
  dir = dir;
})
endpoints_in dir (err e) = err e
endpoints_in dir panic = panic
endpoints_in dir stuck = stuck

-- What follows the base directory in `create`.
unfoldable pub create_dir : Str → Made (Unit {0}) → Made Endpoints
unfolding endpoints_in check_sun_path
create_dir dir (dirs, ok _) = (dirs, endpoints_in dir (check_sun_path (join dir (codes "ctl"))))
create_dir dir (dirs, err e) = (dirs, err e)
create_dir dir (dirs, panic) = (dirs, panic)
create_dir dir (dirs, stuck) = (dirs, stuck)

-- `refused` is what the system refuses to make although no such directory stands there, and `prepared`
-- what making the base directory and setting its permissions gave.
module _ (refused : Str → Option IoError) (base : Str) (prepared : Outcome (Unit {0})) where
  -- `DirBuilder::create` of one directory, with the mode 0o700.
  unfoldable pub make_dir : Str → List Dir → Made (Unit {0})
  make_dir dir dirs =
      if member dir dirs then (dirs, err (io already_exists)) else elim (refused dir) [
        | some e ↦ (dirs, err (io e))
        | none ↦ (private_dir dir ∷ dirs, ok tt)
      ]

  -- `Endpoints::create`
  unfoldable pub create : ℕ → List Dir → Made Endpoints
  unfolding create_dir make_dir
  create tag dirs = elim prepared [
    | ok _ ↦ let dir = join base (hex4 tag) in create_dir dir (make_dir dir dirs)
    | err e ↦ (dirs, err e)
    | panic ↦ (dirs, panic)
    | stuck ↦ (dirs, stuck)
  ]

  -- The loop over `0..64`.
  unfoldable pub create_loop : ℕ → ℕ → List Dir → Made Endpoints
  create_loop zero tag dirs = (dirs, err (protocol no_free_directory))
  create_loop (suc tries) tag dirs =
      let (dirs', made) = create tag dirs in
      let next = create_loop tries (bit_and (tag + 1) 0xffff) dirs' in
      if is_taken made then next else (dirs', made)

  -- `Endpoints::new`; `entropy` is `now ^ std::process::id()`.
  unfoldable pub new_endpoints : ℕ → List Dir → Made Endpoints
  new_endpoints entropy dirs = create_loop 64 (bit_and entropy 0xffff) dirs

-- `remove_dir_all` of the drop, where it succeeds.
unfoldable pub drop_endpoints : Endpoints → List Dir → List Dir
drop_endpoints e [] = []
drop_endpoints e (d ∷ dirs) =
    let rest = drop_endpoints e dirs in if bytes_eq d.path e.dir then rest else d ∷ rest

-- `Endpoints::create` on Windows, where `Endpoints` has no directory: the control URL and the event URL.
unfoldable pub create_windows : ℕ → Outcome (Str × Str)
unfolding hex4
create_windows tag = ok (
  codes "ipc://openmso-" ++ hex4 tag ++ codes "-ctl",
  codes "ipc://openmso-" ++ hex4 tag ++ codes "-evt",
)
