-- ===== src/Cpp/Encoding/Negotiation.antt =====
-- The negotiation of cpp/src/encoding.cpp and of rust/openmso/src/encoding.rs is the same.
use mathlib.Core.List.{append_assoc, append-nil}
use openmso_api.Prelude.{arith, List, [], ◌∷◌, ◌++◌, ◌≡◌, ◌∙◌, refl, sym, map, Bool-cases, inl, inr}
use openmso_api.Proto.Enums.{I32, SampleEncoding, Codec, encoding_number, codec_number}
use openmso_api.Encoding.Negotiate
use openmso_api.Encoding.Negotiate.{contains, keep_accepted, push_missing}
use openmso_api.Cpp.Encoding.{
  find, push_found, intersect, negotiate_encodings, negotiate_codecs, accepts,
}

find-contains : (xs : List I32) (n : I32) → find xs n ≡ contains xs n
unfolding find contains
find-contains [] n = refl
find-contains (x ∷ xs) n = ground (arith, find-contains xs n)

push_found_lem :
    (accept supported out : List I32)
    → push_found accept supported out ≡ out ++ keep_accepted accept supported
unfolding push_found keep_accepted
push_found_lem accept [] out = sym (append-nil out)
push_found_lem accept (s ∷ supported) out = elim (Bool-cases (contains accept s)) [
  | inl there ↦
      rw (find-contains accept s, there)
        (push_found_lem accept supported (out ++ s ∷ [])
          ∙ append_assoc out (s ∷ []) (keep_accepted accept supported))
  | inr missing ↦ rw (find-contains accept s, missing) (push_found_lem accept supported out)
]

intersect_same :
    (accept supported : List I32) (mandatory : I32)
    → intersect accept supported mandatory ≡ Negotiate.intersect accept supported mandatory
unfolding intersect Negotiate.intersect push_missing
intersect_same [] supported mandatory = refl
intersect_same (a ∷ accept) supported mandatory =
    let found = push_found_lem (a ∷ accept) supported [] in
    let test = find-contains (keep_accepted (a ∷ accept) supported) mandatory in
    rw (found, test) refl

-- The C++ and the Rust negotiation give the same list, for any offer of the peer and any
-- preferences, of encodings and of codecs, and `accepts` gives the same answer on it.
pub negotiation_same :
    (offer : List I32) (supported : List SampleEncoding) (kept : List Codec) (e : SampleEncoding)
    → (negotiate_encodings offer supported ≡ Negotiate.negotiate_encodings offer supported)
      × (negotiate_codecs offer kept ≡ Negotiate.negotiate_codecs offer kept)
      × (accepts offer e ≡ Negotiate.accepts offer e)
unfolding negotiate_encodings negotiate_codecs accepts Negotiate.negotiate_encodings
    Negotiate.negotiate_codecs Negotiate.accepts
negotiation_same offer supported kept e = (
  intersect_same offer (map encoding_number supported) (encoding_number SampleEncoding.packed),
  intersect_same offer (map codec_number kept) (codec_number Codec.uncompressed),
  find-contains offer (encoding_number e),
)
