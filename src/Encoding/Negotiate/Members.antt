-- ===== src/Encoding/Negotiate/Members.antt =====
-- Which members a negotiated list has, and in which order.
use mathlib.Core.Path.{subst}
use mathlib.Core.List.{append-nil}
use openmso_api.Prelude.{◌&&◌, ◌||◌, List, [], ◌∷◌, ◌++◌, ◌==◌, if◌then◌else◌}
use openmso_api.Prelude.{◌≡◌, ◌∙◌, refl, ap, arith, Bool-cases, inl, inr, ==_iff}
use openmso_api.Proto.Enums.{I32}
use openmso_api.Encoding.Negotiate.{contains, keep_accepted, push_missing, intersect}
use openmso_api.Encoding.Negotiate.{encodings, codecs, negotiate_encodings, negotiate_codecs}

contains-append :
    (xs ys : List I32) (n : I32) → contains (xs ++ ys) n ≡ (contains xs n || contains ys n)
unfolding contains
contains-append [] ys n = refl
contains-append (x ∷ xs) ys n = ground (arith, contains-append xs ys n)

contains-keep_accepted :
    (accept supported : List I32) (n : I32)
    → contains (keep_accepted accept supported) n ≡ (contains accept n && contains supported n)
unfolding keep_accepted contains
contains-keep_accepted accept [] n = ground arith
contains-keep_accepted accept (s ∷ supported) n = elim (Bool-cases (s == n)) [
  | inl same ↦
      let e : s ≡ n = (==_iff s n).0 same in
      rw e (ground (arith, contains-keep_accepted accept supported n))
  | inr other ↦ ground (arith, contains-keep_accepted accept supported n)
]

contains-push_missing :
    (out : List I32) (m n : I32) → contains (push_missing out m) n ≡ (m == n || contains out n)
unfolding push_missing
contains-push_missing out m n = elim (Bool-cases (contains out m)) [
  | inl there ↦ elim (Bool-cases (m == n)) [
    | inl same ↦ let e : m ≡ n = (==_iff m n).0 same in rw (there, same) (rw e at there)
    | inr other ↦ rw (there, other)
  ]
  | inr missing ↦ rw missing (contains-append out (m ∷ []) n ∙ unfold contains in ground arith)
]

-- A list that `intersect` makes holds the mandatory member and what is on both lists, and nothing
-- else; this includes the case of an empty list from the peer.
pub contains-intersect :
    (accept supported : List I32) (mandatory n : I32)
    → contains (intersect accept supported mandatory) n
      ≡ (mandatory == n || (contains accept n && contains supported n))
unfolding intersect
contains-intersect [] supported mandatory n = unfold contains in ground arith
contains-intersect (a ∷ accept) supported mandatory n =
    contains-push_missing (keep_accepted (a ∷ accept) supported) mandatory n
    ∙ ap (λ b. mandatory == n || b) (contains-keep_accepted (a ∷ accept) supported n)

-- Some items of the second list, in its order.
pub data Within : List I32 → List I32 → Type 0 where
  empty : Within [] []
  keep : {xs ys : List I32} (x : I32) → Within xs ys → Within (x ∷ xs) (x ∷ ys)
  skip : {xs ys : List I32} (y : I32) → Within xs ys → Within xs (y ∷ ys)

Within-nothing : (ys : List I32) → Within [] ys
Within-nothing [] = Within.empty
Within-nothing (y ∷ ys) = Within.skip y (Within-nothing ys)

Within-self : (ys : List I32) → Within ys ys
Within-self [] = Within.empty
Within-self (y ∷ ys) = Within.keep y (Within-self ys)

Within-append :
    {xs ys : List I32} {us vs : List I32}
    → Within xs ys
    → Within us vs
    → Within (xs ++ us) (ys ++ vs)
Within-append Within.empty w = w
Within-append (Within.keep x v) w = Within.keep x (Within-append v w)
Within-append (Within.skip y v) w = Within.skip y (Within-append v w)

keep_accepted-Within :
    (accept supported : List I32) → Within (keep_accepted accept supported) supported
unfolding keep_accepted
keep_accepted-Within accept [] = Within.empty
keep_accepted-Within accept (s ∷ supported) = elim (Bool-cases (contains accept s)) [
  | inl there ↦ rw there (Within.keep s (keep_accepted-Within accept supported))
  | inr missing ↦ rw missing (Within.skip s (keep_accepted-Within accept supported))
]

push_missing-Within :
    (out supported : List I32) (mandatory : I32)
    → Within out supported
    → Within (push_missing out mandatory) (supported ++ mandatory ∷ [])
unfolding push_missing
push_missing-Within out supported mandatory w = elim (Bool-cases (contains out mandatory)) [
  | inl there ↦ rw there (
      subst (λ t. Within t (supported ++ mandatory ∷ [])) (append-nil out)
        (Within-append w (Within-nothing (mandatory ∷ []))))
  | inr missing ↦ rw missing (Within-append w (Within-self (mandatory ∷ [])))
]

-- A list that `intersect` makes is a part of the supported list, in its order of preference, with
-- the mandatory member behind it where it was not on it.
pub intersect-Within :
    (accept supported : List I32) (mandatory : I32)
    → Within (intersect accept supported mandatory) (supported ++ mandatory ∷ [])
unfolding intersect
intersect-Within [] supported mandatory =
    Within-append (Within-nothing supported) (Within-self (mandatory ∷ []))
intersect-Within (a ∷ accept) supported mandatory =
    push_missing-Within _ supported mandatory (keep_accepted-Within (a ∷ accept) supported)

-- With this crate's own lists the outcome depends on one thing: TRANSITION comes first if the peer
-- accepts it, PACKED is always there, and the only codec is NONE.
pub negotiate_own :
    (accept_encodings accept_codecs : List I32)
    → (negotiate_encodings accept_encodings encodings
        ≡ (if contains accept_encodings 2 then 2 ∷ 1 ∷ [] else 1 ∷ []))
      × (negotiate_codecs accept_codecs codecs ≡ 1 ∷ [])
unfolding negotiate_encodings negotiate_codecs intersect keep_accepted contains
negotiate_own [] [] = (refl, refl)
negotiate_own [] (c ∷ cs) = (refl, ground arith)
negotiate_own (e ∷ es) [] = (ground arith, refl)
negotiate_own (e ∷ es) (c ∷ cs) = (ground arith, ground arith)
