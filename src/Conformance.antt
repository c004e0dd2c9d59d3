-- ===== src/Conformance.antt =====
-- The unit tests of rust/openmso/src/, as programs over the model: a test that panics is `panic`.
pub mod Encoding
pub mod Arguments
pub mod Runtime
pub mod Json
use openmso_api.Prelude.{ℕ, Bool, true, false, List, bytes_eq, map, ◌==◌, ◌&&◌, [], ◌∷◌}
use openmso_api.Failure.{Outcome, ok, err, panic, stuck, assert, ◌>>=◌, ◌>>◌}

-- `unwrap`
abbrev pub unwrap {ℓ} : {A : Type ℓ} → Outcome A → Outcome A
unwrap (ok a) = ok a
unwrap (err _) = panic
unwrap panic = panic
unwrap stuck = stuck

-- `assert!(result.is_err())`
abbrev pub assert_is_err {ℓ} : {A : Type ℓ} → Outcome A → Outcome (Unit {0})
assert_is_err (ok _) = panic
assert_is_err (err _) = ok tt
assert_is_err panic = panic
assert_is_err stuck = stuck

-- `assert_eq!` of two byte strings.
abbrev pub assert_same : List ℕ → List ℕ → Outcome (Unit {0})
assert_same xs ys = assert (bytes_eq xs ys)
