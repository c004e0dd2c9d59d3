-- ===== src/Conformance/Arguments.antt =====
-- The tests of rust/openmso/src/server/args.rs and rust/openmso/src/manifest.rs.
use openmso_api.Prelude.{none, List, [], ◌∷◌, ◌≡◌, refl, Str, codes}
use openmso_api.Proto.Manifest.{PluginManifest}
use openmso_api.Failure.{Outcome, ok, panic, ◌>>=◌, ◌>>◌}
use openmso_api.Server.Args.{parse}
use openmso_api.Manifest.{resolve_argv}
use openmso_api.Conformance.{unwrap, assert_is_err, assert_same}

unfoldable parses_both_flag_notations : Outcome (Unit {0})
parses_both_flag_notations = do
  args ← unwrap (
      parse (
        codes "--device"
        ∷ codes "demo://0"
        ∷ codes "--control"
        ∷ codes "ipc:///t/c"
        ∷ codes "--events"
        ∷ codes "ipc:///t/e"
        ∷ []))
  assert_same args.device (codes "demo://0")
  assert_same args.control (codes "ipc:///t/c")
  assert_same args.events (codes "ipc:///t/e")
  args ← unwrap (
      parse (
        codes "--device=demo://0"
        ∷ codes "--control=ipc:///t/c"
        ∷ codes "--events=ipc:///t/e"
        ∷ []))
  assert_same args.device (codes "demo://0")

unfoldable incomplete_argv_is_refused : Outcome (Unit {0})
incomplete_argv_is_refused = do
  assert_is_err (parse (codes "--device" ∷ codes "demo://0" ∷ []))
  assert_is_err (parse (codes "--device" ∷ []))
  assert_is_err (parse (codes "--wat=1" ∷ []))

parses_both_passes : parses_both_flag_notations ≡ ok tt
unfolding parses_both_flag_notations parse
parses_both_passes = refl

incomplete_argv_passes : incomplete_argv_is_refused ≡ ok tt
unfolding incomplete_argv_is_refused parse
incomplete_argv_passes = refl

-- `assert_eq!` of two lists of strings.
unfoldable pub assert_same_argv : List Str → List Str → Outcome (Unit {0})
assert_same_argv [] [] = ok tt
assert_same_argv (x ∷ xs) (y ∷ ys) = do assert_same x y; assert_same_argv xs ys
assert_same_argv _ _ = panic

-- The manifest of the test, the other fields at their defaults.
abbrev test_manifest : PluginManifest
test_manifest = record {
  name = [];
  description = [];
  vendor = [];
  version = [];
  license = [];
  run =
      codes "{python}"
      ∷ codes "plugin.py"
      ∷ codes "--verbose"
      ∷ codes "/usr/bin/thing"
      ∷ codes "demo"
      ∷ [];
  build = [];
  usb_ids = [];
  url_schemes = [];
  palette = none;
}

unfoldable argv_resolves_against_the_plugin_directory : Outcome (Unit {0})
unfolding assert_same_argv
argv_resolves_against_the_plugin_directory =
    assert_same_argv
      (resolve_argv test_manifest (codes "/plugins/demo") (codes "/usr/bin/python3.13"))
      (codes "/usr/bin/python3.13"
        ∷ codes "/plugins/demo/plugin.py"
        ∷ codes "--verbose"
        ∷ codes "/usr/bin/thing"
        ∷ codes "demo"
        ∷ [])

argv_resolves_passes : argv_resolves_against_the_plugin_directory ≡ ok tt
unfolding argv_resolves_against_the_plugin_directory resolve_argv
argv_resolves_passes = refl
