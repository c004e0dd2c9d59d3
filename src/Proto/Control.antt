-- ===== src/Proto/Control.antt =====
-- The messages of proto/omso/capture/v1/capture.proto: requests and responses.
use openmso_api.Prelude.{ℕ, Option, List, Str}
use openmso_api.Proto.Enums.{I32}
use openmso_api.Proto.Device.{ProtoError, Description, Config}

pub record Hello : Type 0 where
  pub protocol : ℕ
  pub client_name : Str
  pub client_version : Str
  pub accept_encodings : List I32
  pub accept_codecs : List I32

pub record PluginInfo : Type 0 where
  pub name : Str
  pub version : Str
  pub vendor : Str
  pub description : Str

pub record Capabilities : Type 0 where
  pub modes : List I32
  pub trigger_kinds : List I32

pub record DeviceInfo : Type 0 where
  pub vendor : Str
  pub model : Str
  pub serial : Str
  pub firmware_version : Str

pub record HelloResult : Type 0 where
  pub protocol : ℕ
  pub plugin : Option PluginInfo
  pub capabilities : Option Capabilities
  pub device : Option DeviceInfo
  pub encodings : List I32
  pub codecs : List I32

pub record SetConfig : Type 0 where
  pub config : Option Config

pub record AcquireStart : Type 0 where
  pub capture_id : ℕ
  pub mode : I32

pub record AcquireStop : Type 0 where
  pub capture_id : ℕ

-- The arms of `Request`. `Describe`, `GetConfig`, `Reset` and `Shutdown` have no field.
pub data RequestArm : Type 0 where
  hello : Hello → RequestArm
  describe : RequestArm
  get_config : RequestArm
  set_config : SetConfig → RequestArm
  acquire_start : AcquireStart → RequestArm
  acquire_stop : AcquireStop → RequestArm
  reset : RequestArm
  shutdown : RequestArm

pub record Request : Type 0 where
  pub seq : ℕ
  pub request : Option RequestArm

-- The arms of `Response`. The last four carry `Empty`.
pub data ResponseArm : Type 0 where
  hello : HelloResult → ResponseArm
  describe : Description → ResponseArm
  get_config : Config → ResponseArm
  set_config : Config → ResponseArm
  acquire_start : ResponseArm
  acquire_stop : ResponseArm
  reset : ResponseArm
  shutdown : ResponseArm

pub record Response : Type 0 where
  pub seq : ℕ
  pub error : Option ProtoError
  pub response : Option ResponseArm
