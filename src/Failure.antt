-- ===== src/Failure.antt =====
-- rust/openmso/src/lib.rs: the crate's errors, and the result of a call that may also panic.
pub mod Text
use openmso_api.Prelude.{ℕ, Bool, true, false, Str, ◌≡◌, ◌≢◌, refl}
use openmso_api.Proto.Enums.{Codec, ErrorCode, error_code_number}
use openmso_api.Proto.Device.{ProtoError}

-- `proto::Error::new`, and the four that fix the code.
unfoldable pub new_error : ErrorCode → Str → ProtoError
new_error code message = record { code = error_code_number code; message = message }

unfoldable pub invalid : Str → ProtoError
unfolding new_error
invalid message = new_error ErrorCode.invalid_request message

unfoldable pub unsupported : Str → ProtoError
unfolding new_error
unsupported message = new_error ErrorCode.unsupported message

unfoldable pub busy : Str → ProtoError
unfolding new_error
busy message = new_error ErrorCode.busy message

unfoldable pub device : Str → ProtoError
unfolding new_error
device message = new_error ErrorCode.device message

-- OCP major version.
abbrev pub protocol_version : ℕ
protocol_version = 1

-- What a plugin's handlers return.
pub data Reply {ℓ} (A : Type ℓ) : Type ℓ where
  accept : A → Reply A
  refuse : ProtoError → Reply A

-- `nng::Error`: the variants that the code names, and the others by number.
pub data NngError : Type 0 where
  closed connection_reset connection_aborted : NngError
  other_nng : ℕ → NngError

-- `std::io::Error`: the kind that the code names, and the others by number.
pub data IoError : Type 0 where
  already_exists : IoError
  other_io : ℕ → IoError

-- The text of `Error::Protocol`: one constructor for each message in the code, with what it prints.
pub data Fault : Type 0 where
  unitsize_zero : Fault
  run_missing_value : Fault
  wrong_sample_count : ℕ → ℕ → Fault
  not_decodable : Codec → Fault
  zero_run_length : Fault
  bad_varint : Fault
  unknown_argument : Str → Fault
  needs_value : Str → Fault
  missing_arguments : Fault
  empty_argv : Fault
  out_of_step : ℕ → ℕ → Fault
  empty_reply : Fault
  unexpected_arm : Str → Str → Fault
  no_free_directory : Fault
  path_too_long : ℕ → Str → Fault

-- `Error`. A decoding or JSON error is the text that it prints.
pub data Error : Type 0 where
  nng : NngError → Error
  decode : Str → Error
  io : IoError → Error
  json : Str → Error
  protocol : Fault → Error
  remote : ProtoError → Error

-- `Result<T>`, or a panic. `stuck` is no Rust value: a loop ran out of the fuel that models it.
pub data Outcome {ℓ} (A : Type ℓ) : Type ℓ where
  ok : A → Outcome A
  err : Error → Outcome A
  panic : Outcome A
  stuck : Outcome A

infixl 5 ◌>>=◌
-- `?` on the first call, and what follows it.
abbrev pub ◌>>=◌ {κ ℓ} : {B : Type κ} {A : Type ℓ} → Outcome A → (A → Outcome B) → Outcome B
stuck >>= next = stuck
panic >>= next = panic
err x >>= next = err x
ok a >>= next = next a

infixl 5 ◌>>◌
abbrev pub ◌>>◌ {ℓ} : {A : Type ℓ} → Outcome (Unit {0}) → Outcome A → Outcome A
first >> second = first >>= λ _. second

-- `assert!(test)`
abbrev pub assert : Bool → Outcome (Unit {0})
assert true = ok tt
assert false = panic

-- `if !test { return Err(Error::Protocol(…)) }`
abbrev pub guard : Bool → Fault → Outcome (Unit {0})
guard true f = ok tt
guard false f = err (protocol f)

-- A chain that succeeds went through its first call.
pub >>=-eq-ok {ℓ κ} :
    {A : Type ℓ} {B : Type κ} (first : Outcome A) (next : A → Outcome B) {out : B}
    → (first >>= next) ≡ ok out
    → (mid : A) × (first ≡ ok mid) × (next mid ≡ ok out)
>>=-eq-ok stuck next h = cc
>>=-eq-ok panic next h = cc
>>=-eq-ok (err x) next h = cc
>>=-eq-ok (ok mid) next h = (mid, refl, h)

-- A bind gets stuck only in one of its parts.
pub >>=-ne-stuck {ℓ κ} :
    {A : Type ℓ} {B : Type κ} (m : Outcome A) (f : A → Outcome B)
    → m ≢ stuck
    → ((a : A) → m ≡ ok a → f a ≢ stuck)
    → (m >>= f) ≢ stuck
>>=-ne-stuck (ok a) f hm hf = hf a refl
>>=-ne-stuck (err e) f hm hf = λ p. cc
>>=-ne-stuck panic f hm hf = λ p. cc
>>=-ne-stuck stuck f hm hf = absurd (hm refl)

pub guard-ne-stuck : (b : Bool) (f : Fault) → guard b f ≢ stuck
guard-ne-stuck true f e = cc
guard-ne-stuck false f e = cc

pub ok-ne-stuck {ℓ} : {A : Type ℓ} (a : A) → ok a ≢ stuck
ok-ne-stuck a e = cc

-- The `From` impls, by which `?` turns an error into one of the crate.
abbrev pub from_nng : NngError → Error
from_nng e = nng e

abbrev pub from_decode : Str → Error
from_decode text = decode text

abbrev pub from_io : IoError → Error
from_io e = io e

abbrev pub from_json : Str → Error
from_json text = json text
