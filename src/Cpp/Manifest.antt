-- ===== src/Cpp/Manifest.antt =====
-- cpp/src/manifest.cpp: the manifest of a plugin. `from_json` is protobuf's reading of a manifest, and
-- `read_file` what opening and reading a file gives: an `errno`, or the text.
pub mod Agreement
use openmso_api.Prelude.{
  ℕ, ◌-◌, Bool, true, false, not, ◌||◌, ◌&&◌, List, [], ◌∷◌, ◌++◌, length, drop, leb, ◌==◌,
  if◌then◌else◌, Str, codes, bytes_eq, ◌⊎◌, inl, inr,
}
use openmso_api.Prelude.Paths.{slash}
use openmso_api.Proto.Manifest.{PluginManifest}
use openmso_api.Cpp.Errors.{Result, returned, thrown, json_error, io_error}

-- `FILENAME`
abbrev pub filename : Str
filename = codes "plugin.json"

module _ (from_json : Str → Str ⊎ PluginManifest) where
  unfoldable pub parse : Str → Result PluginManifest
  parse json = elim (from_json json) [ inl text ↦ thrown (json_error text) | inr m ↦ returned m ]

  unfoldable pub load : (ℕ → Str) → (Str → ℕ ⊎ Str) → Str → Result PluginManifest
  unfolding parse
  load strerror read_file plugin_dir =
      let path = plugin_dir ++ (codes "/" ++ filename) in
      elim (read_file path) [
        | inl errno_value ↦ thrown (io_error strerror errno_value (codes "open " ++ path))
        | inr json ↦ parse json
      ]

-- `token.find('/') != npos`
pub finds_slash : Str → Bool
finds_slash [] = false
finds_slash (b ∷ bs) = if b == slash then true else finds_slash bs

-- `token.size() >= 3 && token.compare(token.size() - 3, 3, ".py") == 0`
pub ends_with_py : Str → Bool
ends_with_py token = leb 3 (length token) && bytes_eq (drop (length token - 3) token) (codes ".py")

-- `token.front() == '/'`, which is asked of a token that is not empty.
pub front_is_slash : Str → Bool
front_is_slash [] = false
front_is_slash (b ∷ bs) = b == slash

-- What the loop appends for a token.
pub resolve_token : Str → Str → Str → Str
unfolding finds_slash ends_with_py front_is_slash
resolve_token plugin_dir python token =
    if bytes_eq token (codes "{python}")
    then python
    else if not (finds_slash token || ends_with_py token) || front_is_slash token
    then token
    else plugin_dir ++ (codes "/" ++ token)

-- The loop over the tokens of `run`.
pub resolve_loop : Str → Str → List Str → List Str → List Str
unfolding resolve_token
resolve_loop plugin_dir python [] argv = argv
resolve_loop plugin_dir python (token ∷ run) argv =
    resolve_loop plugin_dir python run (argv ++ resolve_token plugin_dir python token ∷ [])

unfoldable pub resolve_argv : PluginManifest → Str → Str → List Str
unfolding resolve_loop
resolve_argv manifest plugin_dir python = resolve_loop plugin_dir python manifest.run []
