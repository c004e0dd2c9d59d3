-- ===== src/Manifest.antt =====
-- `resolve_argv` of rust/openmso/src/manifest.rs.
pub mod Loading
use openmso_api.Prelude.{
  ℕ, Bool, true, false, not, ◌||◌, List, [], ◌∷◌, map, if◌then◌else◌, Str, codes, bytes_eq,
}
use openmso_api.Prelude.Utf8.{lossy}
use openmso_api.Prelude.Paths.{is_absolute, has_slash, join}
use openmso_api.Proto.Manifest.{PluginManifest}

-- `token.ends_with(".py")`
unfoldable pub ends_with_py : Str → Bool
ends_with_py [] = false
ends_with_py (b ∷ bs) = bytes_eq (b ∷ bs) (codes ".py") || ends_with_py bs

unfoldable pub looks_like_path : Str → Bool
unfolding has_slash ends_with_py
looks_like_path token = has_slash token || ends_with_py token

-- The closure of the `map`.
unfoldable pub resolve_token : Str → Str → Str → Str
unfolding looks_like_path join lossy
resolve_token plugin_dir python token =
    if bytes_eq token (codes "{python}")
    then python
    else if not (looks_like_path token) || is_absolute token
    then token
    else lossy (join plugin_dir token)

unfoldable pub resolve_argv : PluginManifest → Str → Str → List Str
unfolding resolve_token
resolve_argv manifest plugin_dir python = map (resolve_token plugin_dir python) manifest.run
