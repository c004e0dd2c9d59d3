-- ===== src/Cpp/Encoding/Agreement.antt =====
-- Where the two implementations of the encodings agree, and what that means across the wire.
use openmso_api.Prelude.{
  ℕ, ◌*◌, ◌<◌, ◌≤◌, arith, Bool, false, List, ◌++◌, ◌≡◌, ◌≢◌, ◌∙◌, refl, sym, ap, length, inl, inr,
  ◌||◌, ◌==◌, if◌then◌else◌, Bool-cases, zero, suc, Str, codes, All, IsByte,
}
use openmso_api.Proto.Stream.{CaptureData}
use openmso_api.Failure.{NngError, IoError, Outcome, ok, err, protocol, not_decodable}
use openmso_api.Failure
use openmso_api.Encoding.Transition
use openmso_api.Encoding.Transition.{isize_max}
use openmso_api.Encoding.Transition.RoundTrip.{decode_transition-encode_transition}
use openmso_api.Encoding.Payload
use openmso_api.Encoding.Payload.{borrowed, owned, bytes_of}
use openmso_api.Encoding.Payload.Branches.{decode_payload_branches}
use openmso_api.Proto.Enums.{Codec}
use openmso_api.Cpp.Errors.{counterpart, protocol_error, as_result, Result, returned, thrown}
use openmso_api.Cpp.Encoding.{encode_transition, decode_transition, decode_payload, codec_text}
use openmso_api.Cpp.Encoding.Samples.{encode_transition_same}
use openmso_api.Cpp.Encoding.Expansion.{Outgrows, Agrees, weaker, decode_transition-Agrees}

bytes_unwrapped :
    (o : Outcome (List ℕ))
    → Failure.◌>>=◌ (Failure.◌>>=◌ o λ bytes. ok (owned bytes)) (λ cow. ok (bytes_of cow)) ≡ o
bytes_unwrapped (ok bytes) = refl
bytes_unwrapped (err x) = refl
bytes_unwrapped Failure.panic = refl
bytes_unwrapped Failure.stuck = refl

-- What the bytes of a chunk are, by its codec and its encoding.
abbrev chosen : ℕ → ℕ → List ℕ → Outcome (List ℕ) → Outcome (List ℕ)
chosen codec encoding payload expanded =
    if codec == 2
    then err (protocol (not_decodable Codec.zstd))
    else if codec == 3
    then err (protocol (not_decodable Codec.heatshrink))
    else if encoding == 2
    then expanded
    else ok payload

chosen_lem :
    (checks : Bool) (d : CaptureData) (u : ℕ)
    → Failure.◌>>=◌ (Payload.decode_payload checks d u) (λ cow. ok (bytes_of cow))
      ≡ chosen d.codec d.encoding d.payload
          (Transition.decode_transition checks d.payload u d.sample_count)
chosen_lem checks d u = rw (decode_payload_branches checks d u) (elim (Bool-cases (d.codec == 2)) [
  | inl zstd ↦ rw zstd refl
  | inr not_zstd ↦ elim (Bool-cases (d.codec == 3)) [
    | inl heatshrink ↦ rw (not_zstd, heatshrink) refl
    | inr plain ↦ elim (Bool-cases (d.encoding == 2)) [
      | inl runs ↦
          rw (not_zstd, plain, runs)
            (bytes_unwrapped (Transition.decode_transition checks d.payload u d.sample_count))
      | inr packed ↦ rw (not_zstd, plain, packed) refl
    ]
  ]
])

module _ (nng_text : NngError → Str) (io_text : IoError → Str) (debug : Str → Str) (max_size : ℕ)
    (small : max_size ≤ isize_max) where
  bytes_by_encoding :
      {Long : Type 0} (encoding : ℕ) (payload : List ℕ) (r : Outcome (List ℕ)) (c : Result (List ℕ))
      → Agrees nng_text io_text debug max_size small Long r c
      → Agrees nng_text io_text debug max_size small
          ((encoding ≡ 2) × Long)
          (if encoding == 2 then r else ok payload)
          (if encoding == 2 then c else returned payload)
  bytes_by_encoding encoding payload r c a = elim (Bool-cases (encoding == 2)) [
    | inl runs ↦
        rw runs (weaker nng_text io_text debug max_size small (λ long. (ground arith, long)) a)
    | inr packed ↦ rw packed (inl refl)
  ]

  chosen-Agrees :
      {Long : Type 0} (codec encoding : ℕ) (payload : List ℕ) (r : Outcome (List ℕ))
      (c : Result (List ℕ))
      → codec < 4
      → Agrees nng_text io_text debug max_size small Long r c
      → Agrees nng_text io_text debug max_size small
          ((codec < 2) × (encoding ≡ 2) × Long)
          (chosen codec encoding payload r)
          (if codec == 1 || codec == 0
            then if encoding == 2 then c else returned payload
            else thrown (protocol_error (codec_text codec ++ codes " is not decodable here")))
  unfolding counterpart
  chosen-Agrees zero encoding payload r c h a =
      weaker nng_text io_text debug max_size small (λ (runs, long). (omega arith, runs, long))
        (bytes_by_encoding encoding payload r c a)
  chosen-Agrees (suc zero) encoding payload r c h a =
      weaker nng_text io_text debug max_size small (λ (runs, long). (omega arith, runs, long))
        (bytes_by_encoding encoding payload r c a)
  chosen-Agrees (suc (suc zero)) encoding payload r c h a = inl refl
  chosen-Agrees (suc (suc (suc zero))) encoding payload r c h a = inl refl
  chosen-Agrees (suc (suc (suc (suc n)))) encoding payload r c h a = absurd (omega arith)

  -- For a codec of the enumeration, and strings that hold at most what a `Vec` holds, `decodePayload`
  -- returns the bytes that `decode_payload` returns in a build without overflow checks, or throws an
  -- error of its kind and text, or an exception of the library where that panics. The one exception is a
  -- run-length encoded chunk that is not compressed, and that declares, or whose runs stand for, more
  -- bytes than a string can hold: there an exception of the library may stand for what that does, which
  -- is not to return bytes that a string can hold.
  pub decode_payload-Agrees :
      (d : CaptureData) (u : ℕ)
      → d.codec < 4
      → Agrees nng_text io_text debug max_size small
          ((d.codec < 2) × (d.encoding ≡ 2) × Outgrows max_size d.payload u d.sample_count)
          (Failure.◌>>=◌ (Payload.decode_payload false d u) λ cow. ok (bytes_of cow))
          (decode_payload max_size d u)
  unfolding decode_payload
  decode_payload-Agrees d u h = rw (chosen_lem false d u) (
      chosen-Agrees d.codec d.encoding d.payload _ _ h
        (decode_transition-Agrees nng_text io_text debug max_size small d.payload u d.sample_count))

  fitting :
      {Long : Type 0} {r : Outcome (List ℕ)} {c : Result (List ℕ)} {out : List ℕ}
      → r ≡ ok out
      → length out ≤ max_size
      → Agrees nng_text io_text debug max_size small Long r c
      → c ≡ returned out
  fitting went fits (inl same) = same ∙ ap (as_result nng_text io_text debug) went
  fitting {out = out} went fits (inr (_, _, long)) = absurd (omega (arith, long out went))

  -- Whole samples, of a unit that is not empty, that both a `Vec` and a `std::string` can hold cross
  -- between the languages: the two encoders write the same bytes, and each decoder gives the samples
  -- back for their count.
  pub encodings_cross :
      (checks : Bool) (u k : ℕ) (packed : List ℕ)
      → 0 < u
      → length packed ≡ k * u
      → All IsByte packed
      → length packed ≤ max_size
      → (encoded : List ℕ) × (Transition.encode_transition packed u ≡ ok encoded)
        × (encode_transition packed u ≡ returned encoded)
        × (decode_transition max_size encoded u k ≡ returned packed)
        × (Transition.decode_transition checks encoded u k ≡ ok packed)
  encodings_cross checks u k packed h e b fits =
      let room : length packed ≤ isize_max = omega (arith, small) in
      let (encoded, written, read) =
        decode_transition-encode_transition false u k packed h e b room in
      let (encoded', written', read') =
        decode_transition-encode_transition checks u k packed h e b room in
      let same : encoded' ≡ encoded = cc (sym written' ∙ written) in
      (
        encoded,
        written,
        encode_transition_same nng_text io_text debug packed u h
            ∙ ap (as_result nng_text io_text debug) written,
        fitting read fits
            (decode_transition-Agrees nng_text io_text debug max_size small encoded u k),
        ap (λ t. Transition.decode_transition checks t u k) (sym same) ∙ read',
      )

-- A chunk of a codec that the enumeration does not have, and that is not run-length encoded: the C++
-- frontend refuses it, and the Rust frontend takes its payload for samples.
unknown_codec_differs :
    (max_size : ℕ) (checks : Bool) (d : CaptureData) (u : ℕ)
    → 4 ≤ d.codec
    → d.encoding ≢ 2
    → (decode_payload max_size d u ≡ thrown (protocol_error (codes " is not decodable here")))
      × (Payload.decode_payload checks d u ≡ ok (borrowed d.payload))
unfolding decode_payload Payload.decode_payload
unknown_codec_differs max_size checks d u h other = (ground arith, ground arith)
