-- ===== src/Proto/Enums.antt =====
-- The enumerations of proto/omso/capture/v1/ that the code names, with their numbers on the wire.
use openmso_api.Prelude.{ℕ, ◌==◌, if◌then◌else◌, Option, none, some}

-- An `i32`, by its bit pattern.
abbrev pub I32 : Type 0
I32 = ℕ

-- A `double`, by its bit pattern.
abbrev pub Double : Type 0
Double = ℕ

pub data SampleEncoding : Type 0 where
  unspecified packed transition : SampleEncoding

pub data Codec : Type 0 where
  unspecified uncompressed zstd heatshrink : Codec

-- `encoding as i32`
abbrev pub encoding_number : SampleEncoding → I32
encoding_number SampleEncoding.unspecified = 0
encoding_number SampleEncoding.packed = 1
encoding_number SampleEncoding.transition = 2

-- `codec as i32`; CODEC_NONE is `uncompressed`.
abbrev pub codec_number : Codec → I32
codec_number Codec.unspecified = 0
codec_number Codec.uncompressed = 1
codec_number Codec.zstd = 2
codec_number Codec.heatshrink = 3

-- `SampleEncoding::try_from`
abbrev pub encoding_of_number : I32 → Option SampleEncoding
encoding_of_number n =
    if n == 0
    then some SampleEncoding.unspecified
    else if n == 1
    then some SampleEncoding.packed
    else if n == 2
    then some SampleEncoding.transition
    else none

-- `Codec::try_from`
abbrev pub codec_of_number : I32 → Option Codec
codec_of_number n =
    if n == 0
    then some Codec.unspecified
    else if n == 1
    then some Codec.uncompressed
    else if n == 2
    then some Codec.zstd
    else if n == 3
    then some Codec.heatshrink
    else none

pub data ErrorCode : Type 0 where
  unspecified invalid_request unsupported device device_disconnected busy timeout internal :
      ErrorCode

-- `code as i32`; the number 6 is reserved.
abbrev pub error_code_number : ErrorCode → I32
error_code_number ErrorCode.unspecified = 0
error_code_number ErrorCode.invalid_request = 1
error_code_number ErrorCode.unsupported = 2
error_code_number ErrorCode.device = 3
error_code_number ErrorCode.device_disconnected = 4
error_code_number ErrorCode.busy = 5
error_code_number ErrorCode.timeout = 7
error_code_number ErrorCode.internal = 8

pub data AcquireMode : Type 0 where
  unspecified single continuous snapshot : AcquireMode

abbrev pub mode_number : AcquireMode → I32
mode_number AcquireMode.unspecified = 0
mode_number AcquireMode.single = 1
mode_number AcquireMode.continuous = 2
mode_number AcquireMode.snapshot = 3

pub data State : Type 0 where
  unspecified idle armed triggered transferring stopping : State

abbrev pub state_number : State → I32
state_number State.unspecified = 0
state_number State.idle = 1
state_number State.armed = 2
state_number State.triggered = 3
state_number State.transferring = 4
state_number State.stopping = 5

pub data LogLevel : Type 0 where
  unspecified debug info warning error : LogLevel

abbrev pub level_number : LogLevel → I32
level_number LogLevel.unspecified = 0
level_number LogLevel.debug = 1
level_number LogLevel.info = 2
level_number LogLevel.warning = 3
level_number LogLevel.error = 4
