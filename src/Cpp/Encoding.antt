-- ===== src/Cpp/Encoding.antt =====
-- cpp/src/encoding.cpp: sample encodings, byte codecs and their negotiation. A position in a text is
-- the text from there on. `max_size` is `std::string::max_size()`, which the C++ library fixes.
pub mod Varints
pub mod Samples
pub mod Expansion
pub mod Negotiation
pub mod Agreement
use mathlib.Core.Logic.{dite}
use mathlib.Core.WellFounded.{Acc}
use native.Mathlib.Decide.{dec_le}
use openmso_api.Prelude.{
  ℕ, zero, suc, ◌+◌, ◌-◌, ◌*◌, ◌/◌, ◌%◌, ◌^◌, ◌<◌, bit_and, bit_or, Bool, true, false, not, ◌||◌,
  Option, none, some, List, [], ◌∷◌, ◌++◌, map, length, take, drop, ltb, leb, ◌==◌, if◌then◌else◌,
  bytes_eq, Str, codes,
}
use openmso_api.Prelude.Order.{lt_wf}
use openmso_api.Proto.Enums.{
  I32, SampleEncoding, Codec, encoding_number, codec_number, codec_of_number,
}
use openmso_api.Proto.Stream.{CaptureData}
use openmso_api.Failure.Text.{decimal, codec_name}
use openmso_api.Encoding.Varint.{shift_shrinks}
use openmso_api.Cpp.Errors.{
  Error, protocol_error, Result, returned, thrown, escaped, stuck, ◌>>=◌, ◌>>◌, throw_if,
}

-- `putVarint`: `static_cast<char>(value | 0x80)` keeps the low eight bits.
put_loop : List ℕ → (value : ℕ) → Acc ◌<◌ value → List ℕ
put_loop out value (Acc.intro _ smaller) =
    dite (dec_le 128 value)
      (λ more.
        put_loop (out ++ (bit_or value 0x80 % 256) ∷ []) (value / 128)
          (smaller _ (shift_shrinks value more)))
      (λ _. out ++ (value % 256) ∷ [])

unfoldable pub put_varint : List ℕ → ℕ → List ℕ
unfolding put_loop lt_wf dec_le
put_varint out value = put_loop out value (lt_wf.apply value)

-- The loop of `getVarint` with the rounds that are left, and the position behind it.
get_loop : ℕ → List ℕ → ℕ → ℕ → Result (ℕ × List ℕ)
get_loop zero input i value = thrown (protocol_error (codes "truncated or oversized varint"))
get_loop (suc rounds) [] i value = thrown (protocol_error (codes "truncated or oversized varint"))
get_loop (suc rounds) (byte ∷ input) i value =
    let value' = bit_or value (bit_and byte 0x7f * 2 ^ (i * 7) % 2 ^ 64) in
    elim (bit_and byte 0x80 == 0) [
      | true ↦
          if value' == 0
          then thrown (protocol_error (codes "transition run length of 0"))
          else returned (value', input)
      | false ↦ get_loop rounds input (i + 1) value'
    ]

unfoldable pub get_varint : List ℕ → Result (ℕ × List ℕ)
unfolding get_loop
get_varint input = get_loop 10 input 0 0

-- `std::find(v.begin(), v.end(), n) != v.end()`
pub find : List I32 → I32 → Bool
find [] n = false
find (x ∷ xs) n = if x == n then true else find xs n

-- The loop of `intersect`, and what it does first and last.
pub push_found : List I32 → List I32 → List I32 → List I32
push_found accept [] out = out
push_found accept (s ∷ supported) out =
    push_found accept supported (if find accept s then out ++ s ∷ [] else out)

unfoldable pub intersect : List I32 → List I32 → I32 → List I32
unfolding find push_found
intersect [] supported mandatory = mandatory ∷ []
intersect (a ∷ accept) supported mandatory =
    let out = push_found (a ∷ accept) supported [] in
    if find out mandatory then out else out ++ mandatory ∷ []

-- `supportedEncodings` and `supportedCodecs`
abbrev pub supported_encodings : List SampleEncoding
supported_encodings = SampleEncoding.transition ∷ SampleEncoding.packed ∷ []

abbrev pub supported_codecs : List Codec
supported_codecs = Codec.uncompressed ∷ []

unfoldable pub negotiate_encodings : List I32 → List SampleEncoding → List I32
unfolding intersect
negotiate_encodings accept supported =
    intersect accept (map encoding_number supported) (encoding_number SampleEncoding.packed)

unfoldable pub negotiate_codecs : List I32 → List Codec → List I32
unfolding intersect
negotiate_codecs accept supported =
    intersect accept (map codec_number supported) (codec_number Codec.uncompressed)

unfoldable pub accepts : List I32 → SampleEncoding → Bool
unfolding find
accepts negotiated e = find negotiated (encoding_number e)

-- `packed.substr(i * unitsize, unitsize)`, which the code compares and appends.
sample_at : List ℕ → ℕ → ℕ → List ℕ
sample_at packed unitsize i = take unitsize (drop (i * unitsize) packed)

-- The loop of `encodeTransition` from sample `i` on with the rounds that are left, and what follows
-- it.
encode_loop : List ℕ → ℕ → ℕ → ℕ → List ℕ → ℕ → ℕ → List ℕ
encode_loop packed unitsize zero i out run_start run =
    put_varint out run ++ sample_at packed unitsize run_start
encode_loop packed unitsize (suc rounds) i out run_start run =
    elim (bytes_eq (sample_at packed unitsize i) (sample_at packed unitsize run_start)) [
      | true ↦ encode_loop packed unitsize rounds (i + 1) out run_start ((run + 1) % 2 ^ 64)
      | false ↦
          encode_loop packed unitsize rounds (i + 1)
            (put_varint out run ++ sample_at packed unitsize run_start) i 1
    ]

encode_samples : List ℕ → ℕ → ℕ → List ℕ
unfolding sample_at encode_loop
encode_samples packed unitsize zero = []
encode_samples packed unitsize (suc rounds) = encode_loop packed unitsize rounds 1 [] 0 1

unfoldable pub encode_transition : List ℕ → ℕ → Result (List ℕ)
unfolding encode_samples
encode_transition packed unitsize =
    throw_if (unitsize == 0) (protocol_error (codes "unitsize must be positive"))
    >> returned (encode_samples packed unitsize (length packed / unitsize))

-- `Codec_Name`, which is empty for a number that the enumeration does not have.
abbrev pub codec_text : I32 → Str
codec_text n = elim (codec_of_number n) [ none ↦ [] | some codec ↦ codec_name codec ]

module _ (max_size : ℕ) where
  -- `reserve` and `append` throw `std::length_error` for what a string cannot hold.
  pub reserve : ℕ → Result (Unit {0})
  reserve n = if leb n max_size then returned tt else escaped

  pub append : List ℕ → List ℕ → Result (List ℕ)
  append out value =
      if leb (length out + length value) max_size then returned (out ++ value) else escaped

  -- The loop over one run.
  pub append_run : ℕ → List ℕ → List ℕ → Result (List ℕ)
  unfolding append
  append_run zero value out = returned out
  append_run (suc run) value out = append out value >>= λ out'. append_run run value out'

  -- `while (pos < payload.size())`, with fuel.
  pub decode_loop : ℕ → ℕ → List ℕ → List ℕ → Result (List ℕ)
  decode_loop fuel unitsize [] out = returned out
  decode_loop zero unitsize (b ∷ bs) out = stuck
  decode_loop (suc fuel) unitsize (b ∷ bs) out = do
    (run, rest) ← get_varint (b ∷ bs)
    throw_if (ltb (length rest) unitsize)
        (protocol_error (codes "transition run is missing its value"))
    out' ← append_run run (take unitsize rest) out
    decode_loop fuel unitsize (drop unitsize rest) out'

  unfoldable pub decode_transition : List ℕ → ℕ → ℕ → Result (List ℕ)
  unfolding reserve append_run decode_loop
  decode_transition payload unitsize samples = do
    throw_if (unitsize == 0) (protocol_error (codes "logic stream declared unitsize 0"))
    reserve (samples * unitsize % 2 ^ 64)
    out ← decode_loop (length payload) unitsize payload []
    throw_if (not (length out == samples * unitsize % 2 ^ 64)) (
        protocol_error (
          codes "transition payload expands to "
          ++ decimal (length out / unitsize)
          ++ codes " samples, not the "
          ++ decimal samples
          ++ codes " declared"))
    returned out

  -- `decodePayload`: the bytes of the view.
  unfoldable pub decode_payload : CaptureData → ℕ → Result (List ℕ)
  unfolding decode_transition
  decode_payload d unitsize =
      if d.codec == 1 || d.codec == 0
      then if d.encoding == 2
        then decode_transition d.payload unitsize d.sample_count
        else returned d.payload
      else thrown (protocol_error (codec_text d.codec ++ codes " is not decodable here"))
