-- ===== src/Proto/Device.antt =====
-- The messages of proto/omso/capture/v1/device.proto and common.proto.
use openmso_api.Prelude.{ℕ, Bool, Option, none, List, [], Str}
use openmso_api.Proto.Enums.{I32, Double}

-- `Error` of common.proto, the refusal that goes on the wire.
pub record ProtoError : Type 0 where
  pub code : I32
  pub message : Str

pub record Channel : Type 0 where
  pub id : Str
  pub name : Str
  pub kind : I32
  pub index : ℕ
  pub color : I32

pub record DoubleRange : Type 0 where
  pub min : Double
  pub max : Double
  pub step : Double

pub record DoubleSet : Type 0 where
  pub values : List Double
  pub range : Option DoubleRange

pub record UintRange : Type 0 where
  pub min : ℕ
  pub max : ℕ
  pub step : ℕ

pub record UintSet : Type 0 where
  pub values : List ℕ
  pub range : Option UintRange

pub record DeviceLimits : Type 0 where
  pub samplerate : Option DoubleSet
  pub sample_depth : Option UintSet
  pub samplerate_settable : Bool
  pub sample_depth_settable : Bool
  pub averaging : Option UintSet
  pub trigger_position : Bool
  pub max_enabled_channels : ℕ

pub record AnalogLimits : Type 0 where
  pub full_scale : Option DoubleSet
  pub offset : Option DoubleRange
  pub couplings : List I32
  pub probe_factors : Option DoubleSet
  pub impedances : Option DoubleSet
  pub bandwidth_limit : Bool
  pub invert : Bool
  pub vertical_divisions : ℕ

pub record LogicLimits : Type 0 where
  pub thresholds : Option DoubleSet

pub record VendorOption : Type 0 where
  pub key : Str
  pub description : Str
  pub values : List Str

pub record Description : Type 0 where
  pub channels : List Channel
  pub limits : Option DeviceLimits
  pub analog : Option AnalogLimits
  pub logic : Option LogicLimits
  pub vendor_options : List VendorOption

pub record EdgeTrigger : Type 0 where
  pub channel : Str
  pub slope : I32
  pub level : Double

pub record PulseTrigger : Type 0 where
  pub channel : Str
  pub slope : I32
  pub level : Double
  pub comparison : I32
  pub width : Double
  pub width_max : Double

pub record PatternBit : Type 0 where
  pub channel : Str
  pub match : I32

pub data TriggerArm : Type 0 where
  free_run : TriggerArm
  edge : EdgeTrigger → TriggerArm
  pulse : PulseTrigger → TriggerArm
  pattern_bits : List PatternBit → TriggerArm

pub record Trigger : Type 0 where
  pub trigger : Option TriggerArm
  pub position : Double

pub record DeviceConfig : Type 0 where
  pub samplerate : Option Double
  pub sample_depth : Option ℕ
  pub trigger : Option Trigger
  pub averaging : Option ℕ
  pub capture_span : Option Double

pub record ChannelConfig : Type 0 where
  pub id : Str
  pub enabled : Option Bool
  pub probe_factor : Option Double
  pub full_scale : Option Double
  pub offset : Option Double
  pub coupling : Option I32
  pub impedance : Option Double
  pub bandwidth_limit : Option Bool
  pub invert : Option Bool
  pub threshold : Option Double

pub record Config : Type 0 where
  pub device : Option DeviceConfig
  pub channels : List ChannelConfig
  pub vendor : List (Str × Str)

-- `Config::default()`
abbrev pub default_config : Config
default_config = record { device = none; channels = []; vendor = [] }
