-- ===== src/Proto/Manifest.antt =====
-- The messages of proto/omso/capture/v1/manifest.proto.
use openmso_api.Prelude.{Bool, Option, List, Str}
use openmso_api.Proto.Enums.{I32}

pub record ChannelPalette : Type 0 where
  pub analog : List I32
  pub logic : List I32

pub record UsbId : Type 0 where
  pub id : Str
  pub note : Str
  pub needs_firmware : Bool

pub record PluginManifest : Type 0 where
  pub name : Str
  pub description : Str
  pub vendor : Str
  pub version : Str
  pub license : Str
  pub run : List Str
  pub build : Str
  pub usb_ids : List UsbId
  pub url_schemes : List Str
  pub palette : Option ChannelPalette
