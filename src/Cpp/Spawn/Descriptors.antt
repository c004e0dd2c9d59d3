-- ===== src/Cpp/Spawn/Descriptors.antt =====
-- What `spawnPlugin` does with descriptors and processes, on every path.
use openmso_api.Prelude.{
  ℕ, ◌≡◌, ◌≢◌, arith, ◌||◌, Bool, false, List, [], ◌∷◌, ◌==◌, Str, All, ◌⊎◌, inl, inr,
}
use openmso_api.Cpp.Errors.{Result, returned, thrown, escaped, stuck}
use openmso_api.Cpp.Spawn.{Descriptor, Process, Spawned, kept}

-- A number that no descriptor has.
abbrev pub IsFree : ℕ → List Descriptor → Type 0
IsFree fd held = All (λ d. d.fd ≢ fd) held

-- What `pipe` answers to a process that holds these: an `errno`, or two numbers that are free.
abbrev pub IsPipe : List Descriptor → ℕ ⊎ (ℕ × ℕ) → Type 0
IsPipe held (inl e) = Unit {0}
IsPipe held (inr (read, write)) = IsFree read held × IsFree write held × (read ≢ write)

-- What `spawnPlugin` is to leave of a process: on success one more descriptor, which it returns, and
-- one more child, and otherwise what was there.
abbrev pub IsTidy : Process → Process × Result Spawned → Type 0
IsTidy p (p', returned s) =
    (p'.held ≡ kept s.stdin_fd ∷ p.held) × (p'.children ≡ s.pid ∷ p.children)
IsTidy p (p', thrown _) = (p'.held ≡ p.held) × (p'.children ≡ p.children) × (p'.plugins ≡ p.plugins)
IsTidy p (p', escaped) = (p'.held ≡ p.held) × (p'.children ≡ p.children) × (p'.plugins ≡ p.plugins)
IsTidy p (p', stuck) = (p'.held ≡ p.held) × (p'.children ≡ p.children) × (p'.plugins ≡ p.plugins)

differs : {x y : ℕ} → x ≢ y → (x == y) ≡ false
differs h = ground arith

differs' : {x y : ℕ} → x ≢ y → (y == x) ≡ false
differs' h = ground arith

-- The numbers of the two pipes are four, and none of them is among the others.
module _ (strerror : ℕ → Str) (program : Str) (p : Process) where
  -- The number of a new child is that of no other one.
  abbrev pub IsNew : ℕ ⊎ ℕ → Type 0
  IsNew (inl e) = Unit {0}
  IsNew (inr pid) = All (λ child. child ≢ pid) p.children

-- What the latest plugin holds behind `spawnPlugin`.
abbrev pub table_of : Process × Result Spawned → List ℕ
table_of (p, _) = elim p.plugins [ [] ↦ [] | plugin ∷ plugins ↦ plugin.1 ]

-- Whether a number is that of a descriptor.
abbrev pub is_held : ℕ → List Descriptor → Bool
is_held fd [] = false
is_held fd (d ∷ ds) = d.fd == fd || is_held fd ds
