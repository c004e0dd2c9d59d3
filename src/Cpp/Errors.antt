-- ===== src/Cpp/Errors.antt =====
-- cpp/include/openmso/error.h and cpp/src/error.cpp: `openmso::Error`, and what a call gives.
use openmso_api.Prelude.{ℕ, Bool, true, false, none, some, [], ◌++◌, Str, codes}
use openmso_api.Proto.Enums.{ErrorCode, error_code_number}
use openmso_api.Proto.Device.{ProtoError}
use openmso_api.Failure
use openmso_api.Failure.{Outcome, NngError, IoError}
use openmso_api.Failure.Text.{error_code_of_number, error_code_name, error_text}

-- `ErrorKind`
pub data ErrorKind : Type 0 where
  nng decode io json protocol remote : ErrorKind

-- `Error`: its kind, `what()` and the refusal of the far end.
pub record Error : Type 0 where
  pub kind : ErrorKind
  pub what : Str
  pub error : ProtoError

-- `pb::Error()`
abbrev pub no_refusal : ProtoError
no_refusal = record { code = 0; message = [] }

-- `Error::nng`, `Error::decode`, `Error::io`, `Error::json` and `Error::protocol`. `strerror` is what
-- nng or the system calls the number.
abbrev pub nng_error : (ℕ → Str) → ℕ → Str → Error
nng_error strerror rv context = record {
  kind = ErrorKind.nng;
  what = codes "nng: " ++ (context ++ (codes ": " ++ strerror rv));
  error = no_refusal;
}

abbrev pub decode_error : Str → Error
decode_error what = record {
  kind = ErrorKind.decode;
  what = codes "malformed message: " ++ what;
  error = no_refusal;
}

abbrev pub io_error : (ℕ → Str) → ℕ → Str → Error
io_error strerror errno_value context = record {
  kind = ErrorKind.io;
  what = context ++ (codes ": " ++ strerror errno_value);
  error = no_refusal;
}

abbrev pub json_error : Str → Error
json_error what = record {
  kind = ErrorKind.json;
  what = codes "bad manifest JSON: " ++ what;
  error = no_refusal;
}

abbrev pub protocol_error : Str → Error
protocol_error what = record {
  kind = ErrorKind.protocol;
  what = codes "protocol error: " ++ what;
  error = no_refusal;
}

-- `ErrorCode_Name`, which is empty for a number that the enumeration does not have.
abbrev pub code_name : ℕ → Str
code_name n = elim (error_code_of_number n) [ none ↦ [] | some code ↦ error_code_name code ]

-- `Error::remote`
abbrev pub remote_error : ProtoError → Error
remote_error e = record {
  kind = ErrorKind.remote;
  what = code_name e.code ++ (codes ": " ++ e.message);
  error = e;
}

-- `makeError`, and the four that fix the code.
unfoldable pub make_error : ErrorCode → Str → ProtoError
make_error code message = record { code = error_code_number code; message = message }

unfoldable pub invalid_request : Str → ProtoError
unfolding make_error
invalid_request message = make_error ErrorCode.invalid_request message

unfoldable pub unsupported : Str → ProtoError
unfolding make_error
unsupported message = make_error ErrorCode.unsupported message

unfoldable pub busy : Str → ProtoError
unfolding make_error
busy message = make_error ErrorCode.busy message

unfoldable pub device_error : Str → ProtoError
unfolding make_error
device_error message = make_error ErrorCode.device message

-- What a call does: it returns, throws an `Error`, or throws an exception of the standard library.
-- `stuck` is no behaviour of C++: a loop ran out of the fuel that models it.
pub data Result {ℓ} (A : Type ℓ) : Type ℓ where
  returned : A → Result A
  thrown : Error → Result A
  escaped : Result A
  stuck : Result A

infixl 5 ◌>>=◌ ◌>>◌
abbrev pub ◌>>=◌ {κ ℓ} : {B : Type κ} {A : Type ℓ} → Result A → (A → Result B) → Result B
returned a >>= next = next a
thrown x >>= next = thrown x
escaped >>= next = escaped
stuck >>= next = stuck

abbrev pub ◌>>◌ {ℓ} : {A : Type ℓ} → Result (Unit {0}) → Result A → Result A
first >> second = first >>= λ _. second

-- `if (test) throw x;`
abbrev pub throw_if : Bool → Error → Result (Unit {0})
throw_if true x = thrown x
throw_if false x = returned tt

-- The kind of a Rust error, and the refusal in it.
abbrev pub kind_of : Failure.Error → ErrorKind
kind_of (Failure.nng _) = ErrorKind.nng
kind_of (Failure.decode _) = ErrorKind.decode
kind_of (Failure.io _) = ErrorKind.io
kind_of (Failure.json _) = ErrorKind.json
kind_of (Failure.protocol _) = ErrorKind.protocol
kind_of (Failure.remote _) = ErrorKind.remote

abbrev pub refusal_of : Failure.Error → ProtoError
refusal_of (Failure.remote e) = e
refusal_of _ = no_refusal

-- `nng_text` and `io_text` are how Rust prints the errors of nng and of the system, and `debug` how it
-- prints a text with `{:?}`.
module _ (nng_text : NngError → Str) (io_text : IoError → Str) (debug : Str → Str) where
  -- A Rust error as an `Error` of the same kind, text and refusal.
  unfoldable pub counterpart : Failure.Error → Error
  unfolding error_text
  counterpart e = record {
    kind = kind_of e;
    what = error_text nng_text io_text debug e;
    error = refusal_of e;
  }

  -- The outcome of a Rust call as that of a C++ call; a panic is an exception of the library.
  abbrev pub as_result {ℓ} : {A : Type ℓ} → Outcome A → Result A
  as_result (Outcome.ok a) = returned a
  as_result (Outcome.err e) = thrown (counterpart e)
  as_result Outcome.panic = escaped
  as_result Outcome.stuck = stuck
