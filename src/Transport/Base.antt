-- ===== src/Transport/Base.antt =====
-- The base directory of `Endpoints::create` of rust/openmso/src/transport.rs: which one it is, and what making
-- it and setting its mode give. These are the parameters `base` and `prepared` of `create`.
use openmso_api.Prelude.{ℕ, Option, none, some, Str, codes}
use openmso_api.Prelude.Paths.{join}
use openmso_api.Failure.{IoError, Outcome, ok, err, io}

-- `runtime` is the variable XDG_RUNTIME_DIR, and `temp_dir` what `std::env::temp_dir` gives.
unfoldable pub base_dir : Option Str → Str → Str
unfolding join
base_dir (some runtime) temp_dir = join runtime (codes "openmso")
base_dir none temp_dir = join temp_dir (codes "openmso")

-- `making` and `setting` are what the system answers to the recursive `create`, for which a directory that
-- is there is made, and to `set_permissions`. The mode is the one of the base directory, if it is there,
-- before and after.
unfoldable pub prepare : Option IoError → Option IoError → Option ℕ → Option ℕ × Outcome (Unit {0})
prepare (some making) _ mode = (mode, err (io making))
prepare none (some setting) none = (some 0o700, err (io setting))
prepare none (some setting) (some mode) = (some mode, err (io setting))
prepare none none mode = (some 0o700, ok tt)
