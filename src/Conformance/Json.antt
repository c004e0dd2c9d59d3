-- ===== src/Conformance/Json.antt =====
-- The tests of rust/openmso/src/manifest.rs that read JSON; `from_str` is serde_json's reading of a manifest.
use openmso_api.Prelude.{
  ℕ, true, false, not, Option, none, some, List, [], ◌∷◌, ◌++◌, ◌≡◌, refl, Str, codes, length, ◌==◌,
  ◌⊎◌, inl, inr,
}
use openmso_api.Proto.Manifest.{PluginManifest, UsbId, ChannelPalette}
use openmso_api.Failure.{Outcome, ok, panic, assert, ◌>>=◌, ◌>>◌}
use openmso_api.Manifest.Loading.{parse_manifest}
use openmso_api.Conformance.{unwrap, assert_is_err, assert_same}
use openmso_api.Conformance.Arguments.{assert_same_argv}

-- The JSON of `canonical_json_field_names_round_trip`, line by line.
abbrev canonical_json : Str
canonical_json =
    codes "{\"name\": \"generic-fx2\",\n"
    ++ codes "                \"description\": \"Cypress FX2 logic analyzers\",\n"
    ++ codes "                \"version\": \"0.0.1\",\n"
    ++ codes "                \"run\": [\"./generic-fx2\"],\n"
    ++ codes "                \"urlSchemes\": [\"usb\", \"fd\"],\n"
    ++ codes "                \"usbIds\": [{\"id\": \"04b4:8613\", \"needsFirmware\": true},\n"
    ++ codes "                           {\"id\": \"1d50:608c\", \"note\": \"openmso\"}],\n"
    ++ codes "                \"palette\": {\"analog\": [\"COLOR_YELLOW\", \"COLOR_MAGENTA\"]}}"

-- What follows `m.usb_ids.len()`: the two items.
abbrev assert_firmware : List UsbId → Outcome (Unit {0})
assert_firmware (a ∷ b ∷ ids) = assert a.needs_firmware >> assert (not b.needs_firmware)
assert_firmware _ = panic

-- `unwrap` of the palette.
abbrev assert_analog : Option ChannelPalette → List ℕ → Outcome (Unit {0})
assert_analog none colors = panic
assert_analog (some palette) colors = assert_same palette.analog colors

module _ (from_str : Str → Str ⊎ PluginManifest) where
  unfoldable canonical_json_field_names_round_trip : Outcome (Unit {0})
  unfolding parse_manifest assert_same_argv
  canonical_json_field_names_round_trip = do
    m ← unwrap (parse_manifest from_str canonical_json)
    assert_same m.name (codes "generic-fx2")
    assert_same_argv m.url_schemes (codes "usb" ∷ codes "fd" ∷ [])
    assert (length m.usb_ids == 2)
    assert_firmware m.usb_ids
    assert_analog m.palette (1 ∷ 2 ∷ [])
    assert_same m.vendor []

  unfoldable unknown_keys_are_rejected : Outcome (Unit {0})
  unfolding parse_manifest
  unknown_keys_are_rejected =
      assert_is_err (parse_manifest from_str (codes "{\"name\": \"demo\", \"runn\": [\"./demo\"]}"))

-- The manifest of that JSON.
abbrev canonical : PluginManifest
canonical = record {
  name = codes "generic-fx2";
  description = codes "Cypress FX2 logic analyzers";
  vendor = [];
  version = codes "0.0.1";
  license = [];
  run = codes "./generic-fx2" ∷ [];
  build = [];
  usb_ids =
      record { id = codes "04b4:8613"; note = []; needs_firmware = true }
      ∷ record { id = codes "1d50:608c"; note = codes "openmso"; needs_firmware = false }
      ∷ [];
  url_schemes = codes "usb" ∷ codes "fd" ∷ [];
  palette = some (record { analog = 1 ∷ 2 ∷ []; logic = [] });
}

-- Where serde_json reads that JSON as its manifest, the test passes.
canonical_passes :
    (from_str : Str → Str ⊎ PluginManifest)
    → from_str canonical_json ≡ inr canonical
    → canonical_json_field_names_round_trip from_str ≡ ok tt
unfolding canonical_json_field_names_round_trip parse_manifest
canonical_passes from_str h = rw (h, parse_manifest) refl

-- Where it refuses the other one, that test passes.
unknown_keys_pass :
    (from_str : Str → Str ⊎ PluginManifest) (text : Str)
    → from_str (codes "{\"name\": \"demo\", \"runn\": [\"./demo\"]}") ≡ inl text
    → unknown_keys_are_rejected from_str ≡ ok tt
unfolding unknown_keys_are_rejected parse_manifest
unknown_keys_pass from_str text h = rw (h, parse_manifest) refl
