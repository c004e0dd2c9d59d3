-- ===== src/Tests/Cpp.antt =====
-- The properties of the C++ frontend, at concrete inputs.
use openmso_api.Prelude.Utf8.{is_utf8}
use openmso_api.Prelude.{
  ◌<◌, ℕ, arith, ◌^◌, true, false, none, ◌≤◌, ◌≡◌, refl, List, [], ◌∷◌, ◌++◌, codes,
}
use openmso_api.Proto.Enums.{SampleEncoding, Codec, AcquireMode}
use openmso_api.Proto.Device.{default_config}
use openmso_api.Proto.Manifest.{PluginManifest}
use openmso_api.Failure.{NngError, IoError, already_exists, other_io, Outcome, ok}
use openmso_api.Failure
use openmso_api.Encoding.Negotiate
use openmso_api.Encoding.Transition
use openmso_api.Encoding.Transition.{isize_max}
use openmso_api.Encoding.Payload
use openmso_api.Encoding.Payload.{bytes_of}
use openmso_api.Manifest
use openmso_api.Client
use openmso_api.Client.Session.{connected}
use openmso_api.Cpp.Errors.{Result, returned}
use openmso_api.Cpp.Encoding.{
  encode_transition, decode_transition, decode_payload, negotiate_encodings, negotiate_codecs,
  accepts,
}
use openmso_api.Cpp.Encoding.Expansion.{Agrees, Outgrows}
use openmso_api.Cpp.Encoding.Agreement.{decode_payload-Agrees, encodings_cross}
use openmso_api.Cpp.Encoding.Negotiation.{negotiation_same}
use openmso_api.Cpp.Manifest.{resolve_argv}
use openmso_api.Cpp.Manifest.Agreement.{resolve_argv_same}
use openmso_api.Cpp.Client.{CaptureClient, launched, terminate, is_running, close_fd, waitpid}
use openmso_api.Cpp.Client as CppClient
use openmso_api.Cpp.Client.Operations.{frontend, shown, shown_rust, operations_same}
use openmso_api.Cpp.Client.Serving.{is_bug, cpp_calls_conform}
use openmso_api.Cpp.Client.Process.{
  Operation, Ended, perform_all, ending, reaped_once, shutdown_ends,
}
use openmso_api.Server.Dispatch.{Session}
use openmso_api.Tests.{
  nng_text, io_text, debug, nng_number, strerror, samples, bytes_samples, chunk, quiet, demo,
  ready_session,
}

-- What a string of the C++ library holds.
abbrev max_size : ℕ
max_size = 2 ^ 62

small : max_size ≤ isize_max
small = omega arith

negotiation_same_example :
    (negotiate_encodings (1 ∷ 7 ∷ []) (SampleEncoding.transition ∷ SampleEncoding.packed ∷ [])
      ≡ Negotiate.negotiate_encodings
          (1 ∷ 7 ∷ [])
          (SampleEncoding.transition ∷ SampleEncoding.packed ∷ []))
    × (negotiate_codecs (1 ∷ 7 ∷ []) (Codec.zstd ∷ [])
        ≡ Negotiate.negotiate_codecs (1 ∷ 7 ∷ []) (Codec.zstd ∷ []))
    × (accepts (1 ∷ 7 ∷ []) SampleEncoding.packed
        ≡ Negotiate.accepts (1 ∷ 7 ∷ []) SampleEncoding.packed)
negotiation_same_example =
    negotiation_same (1 ∷ 7 ∷ []) (SampleEncoding.transition ∷ SampleEncoding.packed ∷ [])
      (Codec.zstd ∷ []) SampleEncoding.packed

encodings_cross_example :
    (encoded : List ℕ) × (Transition.encode_transition samples 1 ≡ ok encoded)
    × (encode_transition samples 1 ≡ returned encoded)
    × (decode_transition max_size encoded 1 3 ≡ returned samples)
    × (Transition.decode_transition true encoded 1 3 ≡ ok samples)
encodings_cross_example =
    encodings_cross nng_text io_text debug max_size small true 1 3 samples (omega arith) refl
      bytes_samples (omega arith)

decode_payload-Agrees_example :
    Agrees nng_text io_text debug max_size small
      (((record chunk { codec = 1 }).codec < 2)
        × ((record chunk { codec = 1 }).encoding ≡ 2)
        × Outgrows max_size
            (record chunk { codec = 1 }).payload
            1
            (record chunk { codec = 1 }).sample_count)
      (Failure.◌>>=◌
        (Payload.decode_payload false (record chunk { codec = 1 }) 1)
        λ cow. ok (bytes_of cow))
      (decode_payload max_size (record chunk { codec = 1 }) 1)
decode_payload-Agrees_example =
    decode_payload-Agrees nng_text io_text debug max_size small (record chunk { codec = 1 }) 1
      (omega arith)

abbrev manifest : PluginManifest
manifest = record {
  name = codes "demo";
  description = [];
  vendor = [];
  version = [];
  license = [];
  run = codes "{python}" ∷ codes "plugin.py" ∷ codes "--verbose" ∷ codes "/usr/bin/thing" ∷ [];
  build = [];
  usb_ids = [];
  url_schemes = [];
  palette = none;
}

resolve_argv_same_example :
    resolve_argv manifest (codes "/plugins/demo") (codes "python3")
    ≡ Manifest.resolve_argv manifest (codes "/plugins/demo") (codes "python3")
unfolding is_utf8
resolve_argv_same_example =
    resolve_argv_same manifest (codes "/plugins/demo") (codes "python3") refl refl
      (refl, (refl, (refl, (refl, tt))))

-- A C++ client of the demo plugin.
abbrev client : CaptureClient (Session ℕ)
client = launched 41 5 ready_session

reaped_once_example : Ended 41 5 (
    terminate (
      perform_all nng_number strerror
        (connected quiet demo)
        (Operation.describe ∷ Operation.shutdown ∷ Operation.reset ∷ [])
        client))
reaped_once_example =
    reaped_once nng_number strerror (connected quiet demo)
      (Operation.describe ∷ Operation.shutdown ∷ Operation.reset ∷ []) 41 5 ready_session

shutdown_ends_example :
    let (c', r) = CppClient.shutdown nng_number strerror (connected quiet demo) client in
    (is_running c' ≡ false)
    × (c'.calls ≡ [] ++ ending 41 5 r)
    × (CppClient.shutdown nng_number strerror (connected quiet demo) c' ≡ (c', returned tt))
shutdown_ends_example =
    shutdown_ends nng_number strerror (connected quiet demo) client 41 5 refl refl

-- What a call of the Rust client shows.
abbrev rust_shown :
    {A : Type 0} → Client.Called (Session ℕ) A → Client.CaptureClient (Session ℕ) × Result A
rust_shown = shown_rust nng_number strerror nng_text io_text debug

operations_same_example :
    (shown (CppClient.hello nng_number strerror (connected quiet demo) [] [] client)
      ≡ rust_shown (Client.hello (connected quiet demo) [] [] (frontend client)))
    × (shown (CppClient.describe nng_number strerror (connected quiet demo) client)
        ≡ rust_shown (Client.describe (connected quiet demo) (frontend client)))
    × (shown (CppClient.get_config nng_number strerror (connected quiet demo) client)
        ≡ rust_shown (Client.get_config (connected quiet demo) (frontend client)))
    × (shown (CppClient.set_config nng_number strerror (connected quiet demo) default_config client)
        ≡ rust_shown (Client.set_config (connected quiet demo) default_config (frontend client)))
    × (shown (
          CppClient.acquire_start nng_number strerror
            (connected quiet demo)
            1
            AcquireMode.single
            client)
        ≡ rust_shown
            (Client.acquire_start (connected quiet demo) 1 AcquireMode.single (frontend client)))
    × (shown (CppClient.acquire_stop nng_number strerror (connected quiet demo) 1 client)
        ≡ rust_shown (Client.acquire_stop (connected quiet demo) 1 (frontend client)))
    × (shown (CppClient.reset nng_number strerror (connected quiet demo) client)
        ≡ rust_shown (Client.reset (connected quiet demo) (frontend client)))
    × (shown (CppClient.shutdown nng_number strerror (connected quiet demo) client)
        ≡ rust_shown (Client.shutdown (connected quiet demo) (frontend client)))
    × (shown (let (c', id) = CppClient.next_capture_id client in (c', returned id))
        ≡ rust_shown (Client.next_capture_id false (frontend client)))
operations_same_example =
    operations_same nng_number strerror nng_text io_text debug (connected quiet demo) client [] []
      default_config 1 AcquireMode.single refl (omega arith)

cpp_calls_conform_example :
    (is_bug (CppClient.hello nng_number strerror (connected quiet demo) [] [] client).1 ≡ false)
    × (is_bug (CppClient.describe nng_number strerror (connected quiet demo) client).1 ≡ false)
    × (is_bug (CppClient.get_config nng_number strerror (connected quiet demo) client).1 ≡ false)
    × (is_bug
          (CppClient.set_config nng_number strerror (connected quiet demo) default_config client).1
        ≡ false)
    × (is_bug
          (CppClient.acquire_start nng_number strerror
            (connected quiet demo)
            1
            AcquireMode.single
            client).1
        ≡ false)
    × (is_bug (CppClient.acquire_stop nng_number strerror (connected quiet demo) 1 client).1
        ≡ false)
    × (is_bug (CppClient.reset nng_number strerror (connected quiet demo) client).1 ≡ false)
    × (is_bug (CppClient.shutdown nng_number strerror (connected quiet demo) client).1 ≡ false)
cpp_calls_conform_example =
    cpp_calls_conform nng_text io_text debug nng_number strerror quiet demo client [] []
      default_config 1 AcquireMode.single refl (omega arith)
