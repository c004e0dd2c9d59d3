-- ===== src/Prelude/Paths.antt =====
-- Unix paths as `std::path` joins and tests them, by their bytes.
use Prim.Native.Nat.{ℕ}
use mathlib.Core.Path.{◌≡◌}
use mathlib.Core.Bool.{Bool, true, false, ◌||◌}
use mathlib.Core.List.{[], ◌∷◌, ◌++◌}
use native.Mathlib.Omega.{arith}
use openmso_api.Prelude.Tests.{◌==◌, if◌then◌else◌}
use openmso_api.Prelude.Bytes.{Str}

-- A directory that a process has made, by its path and the mode that it was given.
pub record Dir : Type 0 where
  pub path : Str
  pub mode : ℕ

-- A directory that is made with the mode 0o700: what of it the process's mask takes away is the owner's.
abbrev pub private_dir : Str → Dir
private_dir path = record { path = path; mode = 0o700 }

-- `'/'`
abbrev pub slash : ℕ
slash = 47

-- `Path::is_absolute`
abbrev pub is_absolute : Str → Bool
is_absolute [] = false
is_absolute (b ∷ bs) = b == slash

-- `text.contains('/')`
unfoldable pub has_slash : Str → Bool
has_slash [] = false
has_slash (b ∷ bs) = b == slash || has_slash bs

-- The directory, with the separator that it needs before another component.
unfoldable pub with_slash : Str → Str
with_slash [] = []
with_slash (b ∷ []) = if b == slash then b ∷ [] else b ∷ slash ∷ []
with_slash (b ∷ c ∷ bs) = b ∷ with_slash (c ∷ bs)

-- `Path::join`
unfoldable pub join : Str → Str → Str
unfolding with_slash
join base part = if is_absolute part then part else with_slash base ++ part

pub join-absolute :
    (base part : Str) → is_absolute base ≡ true → is_absolute (join base part) ≡ true
unfolding join
join-absolute [] part h = ground arith
join-absolute (b ∷ []) part h = ground arith
join-absolute (b ∷ c ∷ bs) part h = ground arith
