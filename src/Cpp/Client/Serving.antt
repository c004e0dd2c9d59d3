-- ===== src/Cpp/Client/Serving.antt =====
-- A C++ client connected to a Rust server: what the operations of the one make the other do.
use openmso_api.Prelude.{ℕ, ◌<◌, ◌^◌, Bool, true, false, Option, ◌≡◌, ◌∙◌, refl, sym, ap, Str}
use openmso_api.Proto.Enums.{AcquireMode}
use openmso_api.Proto.Device.{Config, ProtoError}
use openmso_api.Failure.{NngError, IoError, Outcome, ok, err}
use openmso_api.Failure
use openmso_api.Server.Plugin.{CaptureServer}
use openmso_api.Server.Dispatch.{Session}
use openmso_api.Client.Session.{connected, is_fault, calls_conform}
use openmso_api.Cpp.Errors.{
  ErrorKind, counterpart, as_result, Result, returned, thrown, escaped, stuck,
}
use openmso_api.Cpp.Client.{
  CaptureClient, is_running, hello, describe, get_config, set_config, acquire_start, acquire_stop,
  reset, shutdown,
}
use openmso_api.Cpp.Client.Operations.{blur, blurred, frontend, operations_same}

-- A failure that the client puts down to a bug of the plugin.
abbrev bug_kind : ErrorKind → Bool
bug_kind ErrorKind.protocol = true
bug_kind _ = false

abbrev pub is_bug : {A : Type 0} → Result A → Bool
is_bug (thrown x) = bug_kind x.kind
is_bug _ = false

-- An error keeps its kind without its text.
kind-blur :
    (kind : ErrorKind) (what : Str) (error : ProtoError)
    → (blur (record { kind = kind; what = what; error = error })).kind ≡ kind
kind-blur ErrorKind.nng what error = refl
kind-blur ErrorKind.decode what error = refl
kind-blur ErrorKind.io what error = refl
kind-blur ErrorKind.json what error = refl
kind-blur ErrorKind.protocol what error = refl
kind-blur ErrorKind.remote what error = refl

module _ (nng_text : NngError → Str) (io_text : IoError → Str) (debug : Str → Str) where
  is_bug-blurred : {A : Type 0} (r : Result A) → is_bug (blurred r) ≡ is_bug r
  is_bug-blurred (returned a) = refl
  is_bug-blurred (thrown x) = ap bug_kind (kind-blur x.kind x.what x.error)
  is_bug-blurred escaped = refl
  is_bug-blurred stuck = refl

  is_bug-as_result :
      {A : Type 0} (o : Outcome A)
      → is_bug (blurred (as_result nng_text io_text debug o)) ≡ is_fault o
  unfolding counterpart
  is_bug-as_result (ok a) = refl
  is_bug-as_result (err (Failure.nng e)) = refl
  is_bug-as_result (err (Failure.decode e)) = refl
  is_bug-as_result (err (Failure.io e)) = refl
  is_bug-as_result (err (Failure.json e)) = refl
  is_bug-as_result (err (Failure.protocol e)) = refl
  is_bug-as_result (err (Failure.remote e)) = refl
  is_bug-as_result Failure.panic = refl
  is_bug-as_result Failure.stuck = refl

  -- A C++ call that shows what a Rust call shows.
  no_bug :
      {A : Type 0} (r : Result A) (o : Outcome A)
      → blurred r ≡ blurred (as_result nng_text io_text debug o)
      → is_fault o ≡ false
      → is_bug r ≡ false
  no_bug r o same sound = sym (is_bug-blurred r) ∙ ap is_bug same ∙ is_bug-as_result o ∙ sound

  module _ (nng_number : NngError → ℕ) (strerror : ℕ → Str) (net : ℕ → Option NngError)
      (P : CaptureServer) where
    -- No operation of a C++ client whose process runs, with a capture id of 64 bits, and whose control socket leads to the Rust `dispatch` fails with a protocol error (a reply out of step, an empty reply or an unexpected result), whatever the session's phase and whatever the plugin replies.
    pub cpp_calls_conform :
        (c : CaptureClient (Session P.State)) (name version : Str) (config : Config) (id : ℕ)
        (mode : AcquireMode)
        → is_running c ≡ true
        → c.capture_id < 2 ^ 64
        → (is_bug (hello nng_number strerror (connected net P) name version c).1 ≡ false)
          × (is_bug (describe nng_number strerror (connected net P) c).1 ≡ false)
          × (is_bug (get_config nng_number strerror (connected net P) c).1 ≡ false)
          × (is_bug (set_config nng_number strerror (connected net P) config c).1 ≡ false)
          × (is_bug (acquire_start nng_number strerror (connected net P) id mode c).1 ≡ false)
          × (is_bug (acquire_stop nng_number strerror (connected net P) id c).1 ≡ false)
          × (is_bug (reset nng_number strerror (connected net P) c).1 ≡ false)
          × (is_bug (shutdown nng_number strerror (connected net P) c).1 ≡ false)
    cpp_calls_conform c name version config id mode runs bound =
        let same =
          operations_same nng_number strerror nng_text io_text debug (connected net P) c name
            version config id mode runs bound in
        let sound = calls_conform net P (frontend c) name version config id mode in
        (
          no_bug _ _ (ap (λ t. t.1) same.0) sound.0,
          no_bug _ _ (ap (λ t. t.1) same.1) sound.1,
          no_bug _ _ (ap (λ t. t.1) same.2) sound.2,
          no_bug _ _ (ap (λ t. t.1) same.3) sound.3,
          no_bug _ _ (ap (λ t. t.1) same.4) sound.4,
          no_bug _ _ (ap (λ t. t.1) same.5) sound.5,
          no_bug _ _ (ap (λ t. t.1) same.6) sound.6,
          no_bug _ _ (ap (λ t. t.1) same.7) sound.7,
        )
