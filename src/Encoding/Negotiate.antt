-- ===== src/Encoding/Negotiate.antt =====
-- The `Hello` negotiation of rust/openmso/src/encoding.rs.
pub mod Members
use openmso_api.Prelude.{
  Bool, true, false, not, ◌||◌, List, [], ◌∷◌, ◌++◌, map, ◌==◌, if◌then◌else◌,
}
use openmso_api.Proto.Enums.{I32, SampleEncoding, Codec, encoding_number, codec_number}

-- `ENCODINGS` and `CODECS`, in preference order.
abbrev pub encodings : List SampleEncoding
encodings = SampleEncoding.transition ∷ SampleEncoding.packed ∷ []

abbrev pub codecs : List Codec
codecs = Codec.uncompressed ∷ []

-- `slice.contains(&n)`
unfoldable pub contains : List I32 → I32 → Bool
contains [] n = false
contains (x ∷ xs) n = x == n || contains xs n

-- `supported.iter().copied().filter(|s| accept.contains(s))`
unfoldable pub keep_accepted : List I32 → List I32 → List I32
keep_accepted accept [] = []
keep_accepted accept (s ∷ supported) =
    let rest = keep_accepted accept supported in if contains accept s then s ∷ rest else rest

-- The part behind the test for an empty list.
unfoldable pub push_missing : List I32 → I32 → List I32
push_missing out mandatory = if contains out mandatory then out else out ++ mandatory ∷ []

unfoldable pub intersect : List I32 → List I32 → I32 → List I32
unfolding push_missing
intersect [] supported mandatory = mandatory ∷ []
intersect (a ∷ accept) supported mandatory =
    push_missing (keep_accepted (a ∷ accept) supported) mandatory

unfoldable pub negotiate_encodings : List I32 → List SampleEncoding → List I32
negotiate_encodings accept supported =
    intersect accept (map encoding_number supported) (encoding_number SampleEncoding.packed)

unfoldable pub negotiate_codecs : List I32 → List Codec → List I32
negotiate_codecs accept supported =
    intersect accept (map codec_number supported) (codec_number Codec.uncompressed)

unfoldable pub accepts : List I32 → SampleEncoding → Bool
accepts negotiated encoding = contains negotiated (encoding_number encoding)
