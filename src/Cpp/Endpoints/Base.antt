-- ===== src/Cpp/Endpoints/Base.antt =====
-- The base directories of the two implementations.
use openmso_api.Prelude.{
  ℕ, [], ◌∷◌, ◌++◌, true, Option, none, some, ◌≡◌, ◌∙◌, refl, sym, Str, codes,
}
use openmso_api.Prelude.Paths.{join, with_slash}
use openmso_api.Transport.Base as Rust
use openmso_api.Cpp.Endpoints.{base_dir}
use openmso_api.Cpp.Manifest.Agreement.{takes_slash, join_lem}

pub takes_slash-++ :
    (xs : Str) (y : ℕ) (ys : Str) → takes_slash (xs ++ y ∷ ys) ≡ takes_slash (y ∷ ys)
takes_slash-++ [] y ys = refl
takes_slash-++ (x ∷ []) y ys = refl
takes_slash-++ (x ∷ x' ∷ xs) y ys = takes_slash-++ (x' ∷ xs) y ys

-- The base directory that the Rust crate chooses ends in no slash, whatever the environment says.
pub takes_slash-base_dir :
    (runtime : Option Str) (temp_dir : Str) → takes_slash (Rust.base_dir runtime temp_dir) ≡ true
unfolding Rust.base_dir join
takes_slash-base_dir (some dir) temp_dir = takes_slash-++ (with_slash dir) 111 (codes "penmso")
takes_slash-base_dir none temp_dir = takes_slash-++ (with_slash temp_dir) 111 (codes "penmso")

-- Where XDG_RUNTIME_DIR is set, and is not empty and ends in no slash, the base directories are the same.
base_dir_runtime :
    (dir temp_dir : Str) (tmp : Option Str)
    → takes_slash dir ≡ true
    → base_dir (some dir) tmp ≡ Rust.base_dir (some dir) temp_dir
unfolding base_dir Rust.base_dir
base_dir_runtime dir temp_dir tmp h = sym (join_lem dir (codes "openmso") h refl)

-- Where it is not, and the temporary directory ends in no slash, they are the same too.
base_dir_temp :
    (temp_dir : Str) (tmp : Option Str)
    → takes_slash temp_dir ≡ true
    → temp_dir ≡ (elim tmp [ none ↦ codes "/tmp" | some t ↦ t ])
    → base_dir none tmp ≡ Rust.base_dir none temp_dir
unfolding base_dir Rust.base_dir
base_dir_temp temp_dir none h e = rw e (sym (join_lem (codes "/tmp") (codes "openmso") refl refl))
base_dir_temp temp_dir (some t) h e = sym (join_lem temp_dir (codes "openmso") h refl ∙ rw e refl)

-- An environment in which the two choose the same base directory: what it is chosen from is not empty and
-- ends in no slash, and `std::env::temp_dir` gives TMPDIR or /tmp.
abbrev pub AgreeOnBase : Option Str → Option Str → Str → Type 0
AgreeOnBase (some dir) tmp temp_dir = takes_slash dir ≡ true
AgreeOnBase none tmp temp_dir =
    (takes_slash temp_dir ≡ true) × (temp_dir ≡ (elim tmp [ none ↦ codes "/tmp" | some t ↦ t ]))

pub base_dir_same :
    (runtime tmp : Option Str) (temp_dir : Str)
    → AgreeOnBase runtime tmp temp_dir
    → base_dir runtime tmp ≡ Rust.base_dir runtime temp_dir
base_dir_same (some dir) tmp temp_dir h = base_dir_runtime dir temp_dir tmp h
base_dir_same none tmp temp_dir (h, e) = base_dir_temp temp_dir tmp h e
