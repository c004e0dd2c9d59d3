-- ===== src/Failure/Text.antt =====
-- The texts of errors: `Display` of rust/openmso/src/lib.rs, and the messages that the crate formats.
use mathlib.Core.Logic.{dite}
use mathlib.Core.WellFounded.{Acc}
use native.Mathlib.Decide.{dec_le}
use openmso_api.Prelude.{
  ℕ, ◌+◌, ◌/◌, ◌%◌, ◌≤◌, ◌<◌, arith, Option, none, some, [], ◌∷◌, ◌++◌, ◌≡◌, refl, Str, codes, ◌==◌,
  if◌then◌else◌,
}
use openmso_api.Prelude.Order.{lt_wf}
use openmso_api.Proto.Enums.{Codec, ErrorCode}
use openmso_api.Failure.{
  NngError, IoError, Fault, unitsize_zero, run_missing_value, wrong_sample_count, not_decodable,
  zero_run_length, bad_varint, unknown_argument, needs_value, missing_arguments, empty_argv,
  out_of_step, empty_reply, unexpected_arm, no_free_directory, path_too_long, Error, nng, decode,
  io, json, protocol, remote, new_error,
}

pub ten_shrinks : (n : ℕ) → 10 ≤ n → n / 10 < n
ten_shrinks n h = omega arith

-- A number in decimal, in front of what follows it.
decimal_loop : (n : ℕ) → Acc ◌<◌ n → Str → Str
decimal_loop n (Acc.intro _ smaller) rest =
    dite (dec_le 10 n)
      (λ more. decimal_loop (n / 10) (smaller _ (ten_shrinks n more)) ((48 + n % 10) ∷ rest))
      (λ _. (48 + n) ∷ rest)

unfoldable pub decimal : ℕ → Str
unfolding decimal_loop lt_wf dec_le
decimal n = decimal_loop n (lt_wf.apply n) []

-- `Codec::as_str_name`
abbrev pub codec_name : Codec → Str
codec_name Codec.unspecified = codes "CODEC_UNSPECIFIED"
codec_name Codec.uncompressed = codes "CODEC_NONE"
codec_name Codec.zstd = codes "CODEC_ZSTD"
codec_name Codec.heatshrink = codes "CODEC_HEATSHRINK"

-- `ErrorCode::as_str_name`
abbrev pub error_code_name : ErrorCode → Str
error_code_name ErrorCode.unspecified = codes "ERROR_CODE_UNSPECIFIED"
error_code_name ErrorCode.invalid_request = codes "ERROR_INVALID_REQUEST"
error_code_name ErrorCode.unsupported = codes "ERROR_UNSUPPORTED"
error_code_name ErrorCode.device = codes "ERROR_DEVICE"
error_code_name ErrorCode.device_disconnected = codes "ERROR_DEVICE_DISCONNECTED"
error_code_name ErrorCode.busy = codes "ERROR_BUSY"
error_code_name ErrorCode.timeout = codes "ERROR_TIMEOUT"
error_code_name ErrorCode.internal = codes "ERROR_INTERNAL"

-- `ErrorCode::try_from`
abbrev pub error_code_of_number : ℕ → Option ErrorCode
error_code_of_number n =
    if n == 0
    then some ErrorCode.unspecified
    else if n == 1
    then some ErrorCode.invalid_request
    else if n == 2
    then some ErrorCode.unsupported
    else if n == 3
    then some ErrorCode.device
    else if n == 4
    then some ErrorCode.device_disconnected
    else if n == 5
    then some ErrorCode.busy
    else if n == 7
    then some ErrorCode.timeout
    else if n == 8
    then some ErrorCode.internal
    else none

-- `unwrap_or(ErrorCode::Unspecified)`
abbrev pub code_or_unspecified : Option ErrorCode → ErrorCode
code_or_unspecified none = ErrorCode.unspecified
code_or_unspecified (some c) = c

-- `USAGE`
abbrev pub usage : Str
usage = codes "--device URL --control URL --events URL"

-- `debug` is how Rust prints a text with `{:?}`.
unfoldable pub fault_text : (Str → Str) → Fault → Str
unfolding decimal
fault_text debug unitsize_zero = codes "logic stream declared unitsize 0"
fault_text debug run_missing_value = codes "transition run is missing its value"
fault_text debug (wrong_sample_count got samples) =
    codes "transition payload expands to "
    ++ decimal got
    ++ codes " samples, not the "
    ++ decimal samples
    ++ codes " declared"
fault_text debug (not_decodable codec) = codec_name codec ++ codes " is not decodable here"
fault_text debug zero_run_length = codes "transition run length of 0"
fault_text debug bad_varint = codes "truncated or oversized varint"
fault_text debug (unknown_argument flag) =
    codes "unknown argument " ++ debug flag ++ codes "; usage: " ++ usage
fault_text debug (needs_value flag) = flag ++ codes " needs a value"
fault_text debug missing_arguments = codes "missing arguments; usage: " ++ usage
fault_text debug empty_argv = codes "plugin has an empty argv"
fault_text debug (out_of_step seq got) =
    codes "plugin answered request " ++ decimal seq ++ codes " with a reply to " ++ decimal got
fault_text debug empty_reply = codes "reply carries neither result nor error"
fault_text debug (unexpected_arm request name) =
    request ++ codes " answered with a " ++ name ++ codes " result"
fault_text debug no_free_directory = codes "no free runtime directory"
fault_text debug (path_too_long len path) =
    codes "socket path is " ++ decimal len ++ codes " bytes, over the 103-byte limit: " ++ path

-- `Error::fmt`; nng and the system print their own errors.
module _ (nng_text : NngError → Str) (io_text : IoError → Str) (debug : Str → Str) where
  unfoldable pub error_text : Error → Str
  unfolding fault_text
  error_text (nng e) = codes "nng: " ++ nng_text e
  error_text (decode e) = codes "malformed message: " ++ e
  error_text (io e) = io_text e
  error_text (json e) = codes "bad manifest JSON: " ++ e
  error_text (protocol f) = codes "protocol error: " ++ fault_text debug f
  error_text (remote e) =
      error_code_name (code_or_unspecified (error_code_of_number e.code)) ++ codes ": " ++ e.message

  -- The text of a refusal that a plugin builds with `Error::new` is the name of its code and its
  -- message.
  pub error_text-new_error :
      (code : ErrorCode) (message : Str)
      → error_text (remote (new_error code message)) ≡ error_code_name code ++ codes ": " ++ message
  unfolding error_text new_error
  error_text-new_error ErrorCode.unspecified message = refl
  error_text-new_error ErrorCode.invalid_request message = refl
  error_text-new_error ErrorCode.unsupported message = refl
  error_text-new_error ErrorCode.device message = refl
  error_text-new_error ErrorCode.device_disconnected message = refl
  error_text-new_error ErrorCode.busy message = refl
  error_text-new_error ErrorCode.timeout message = refl
  error_text-new_error ErrorCode.internal message = refl
