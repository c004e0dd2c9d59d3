-- ===== src/Proto/Stream.antt =====
-- The messages of proto/omso/capture/v1/stream.proto: what a plugin pushes to the frontend.
use openmso_api.Prelude.{ℕ, Option, List, Str}
use openmso_api.Proto.Enums.{I32, Double}
use openmso_api.Proto.Device.{ProtoError}

pub record AnalogFormat : Type 0 where
  pub sample_type : I32
  pub scale : Double
  pub offset : Double
  pub unit : Str
  pub digits : ℕ

pub record LogicFormat : Type 0 where
  pub unitsize : ℕ

pub data StreamFormat : Type 0 where
  analog : AnalogFormat → StreamFormat
  logic : LogicFormat → StreamFormat

pub record Stream : Type 0 where
  pub id : ℕ
  pub channels : List Str
  pub format : Option StreamFormat

pub record CaptureBegin : Type 0 where
  pub capture_id : ℕ
  pub samplerate : Double
  pub streams : List Stream

pub record AcquisitionBegin : Type 0 where
  pub capture_id : ℕ
  pub acquisition : ℕ
  pub t0 : Double
  pub sample_count : ℕ

pub record CaptureData : Type 0 where
  pub capture_id : ℕ
  pub acquisition : ℕ
  pub stream : ℕ
  pub seq : ℕ
  pub first_sample : ℕ
  pub sample_count : ℕ
  pub encoding : I32
  pub codec : I32
  pub decoded_len : ℕ
  pub payload : List ℕ

pub record CaptureTrigger : Type 0 where
  pub capture_id : ℕ
  pub acquisition : ℕ
  pub sample : ℕ

pub record AcquisitionEnd : Type 0 where
  pub capture_id : ℕ
  pub acquisition : ℕ
  pub dropped_samples : ℕ

pub record CaptureEnd : Type 0 where
  pub capture_id : ℕ
  pub error : Option ProtoError

pub record Status : Type 0 where
  pub state : I32
  pub detail : Str

pub record Log : Type 0 where
  pub level : I32
  pub message : Str

pub record DeviceLost : Type 0 where
  pub reason : Str

-- The arms of `Event`.
pub data Event : Type 0 where
  capture_begin : CaptureBegin → Event
  acquisition_begin : AcquisitionBegin → Event
  capture_data : CaptureData → Event
  trigger : CaptureTrigger → Event
  acquisition_end : AcquisitionEnd → Event
  capture_end : CaptureEnd → Event
  status : Status → Event
  log : Log → Event
  device_lost : DeviceLost → Event
