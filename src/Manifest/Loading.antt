-- ===== src/Manifest/Loading.antt =====
-- `parse` and `load` of rust/openmso/src/manifest.rs: `from_str` is serde_json's reading of a manifest,
-- and `read_to_string` what the file system gives for a path.
use openmso_api.Prelude.{Str, codes, ◌⊎◌, inl, inr}
use openmso_api.Prelude.Paths.{join}
use openmso_api.Proto.Manifest.{PluginManifest}
use openmso_api.Failure.{IoError, Outcome, ok, err, from_io, from_json}

-- `FILENAME`
abbrev pub filename : Str
filename = codes "plugin.json"

module _ (from_str : Str → Str ⊎ PluginManifest) where
  -- `manifest::parse`
  unfoldable pub parse_manifest : Str → Outcome PluginManifest
  parse_manifest json = elim (from_str json) [ inl text ↦ err (from_json text) | inr m ↦ ok m ]

  -- `manifest::load`
  unfoldable pub load : (Str → IoError ⊎ Str) → Str → Outcome PluginManifest
  unfolding parse_manifest
  load read_to_string plugin_dir = elim (read_to_string (join plugin_dir filename)) [
    | inl e ↦ err (from_io e)
    | inr json ↦ parse_manifest json
  ]
