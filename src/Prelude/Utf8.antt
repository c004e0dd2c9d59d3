-- ===== src/Prelude/Utf8.antt =====
-- Rust's `from_utf8_lossy`, by which `Path::display` and `to_string_lossy` print a path.
use openmso_api.Prelude.Tests.{◌==◌, ltb, leb, if◌then◌else◌}
use Prim.Native.Nat.{ℕ, zero, suc, ◌-◌}
use mathlib.Core.Path.{◌≡◌, refl, ap}
use mathlib.Core.Bool.{Bool, true, false, not, ◌||◌, ◌&&◌}
use mathlib.Core.List.{[], ◌∷◌, ◌++◌}
use native.Mathlib.Omega.{arith}
use openmso_api.Prelude.Bytes.{Str}

-- Whether a byte goes on with a character.
abbrev is_continuation : ℕ → Bool
is_continuation b = leb 0x80 b && ltb b 0xc0

-- Whether two bytes can begin a character of three bytes, and one of four.
abbrev begins_three : ℕ → ℕ → Bool
begins_three a b =
    (a == 0xe0 && leb 0xa0 b && ltb b 0xc0)
    || (leb 0xe1 a && ltb a 0xf0 && not (a == 0xed) && is_continuation b)
    || (a == 0xed && leb 0x80 b && ltb b 0xa0)

abbrev begins_four : ℕ → ℕ → Bool
begins_four a b =
    (a == 0xf0 && leb 0x90 b && ltb b 0xc0)
    || (leb 0xf1 a && ltb a 0xf4 && is_continuation b)
    || (a == 0xf4 && leb 0x80 b && ltb b 0x90)

-- The bytes of the character that these four begin with, or 0 if they begin with none. A byte that is
-- not there is 0, which goes on with no character.
unfoldable width : ℕ → ℕ → ℕ → ℕ → ℕ
width a b c d =
    if ltb a 0x80
    then 1
    else if leb 0xc2 a && ltb a 0xe0 && is_continuation b
    then 2
    else if begins_three a b && is_continuation c
    then 3
    else if begins_four a b && is_continuation c && is_continuation d
    then 4
    else 0

-- The bytes that one U+FFFD stands for, where no character begins.
unfoldable replaced : ℕ → ℕ → ℕ → ℕ
replaced a b c =
    if begins_three a b
    then 2
    else if begins_four a b
    then if is_continuation c then 3 else 2
    else 1

abbrev char_width : Str → ℕ
char_width [] = 0
char_width (a ∷ []) = width a 0 0 0
char_width (a ∷ b ∷ []) = width a b 0 0
char_width (a ∷ b ∷ c ∷ []) = width a b c 0
char_width (a ∷ b ∷ c ∷ d ∷ bs) = width a b c d

abbrev replaced_width : Str → ℕ
replaced_width [] = 0
replaced_width (a ∷ []) = replaced a 0 0
replaced_width (a ∷ b ∷ []) = replaced a b 0
replaced_width (a ∷ b ∷ c ∷ bs) = replaced a b c

-- The text behind `kept` bytes that are copied, or `skipped` bytes that are not.
unfoldable lossy_loop : ℕ → ℕ → Str → Str
unfolding width replaced
lossy_loop kept skipped [] = []
lossy_loop (suc kept) skipped (b ∷ bs) = b ∷ lossy_loop kept skipped bs
lossy_loop zero (suc skipped) (b ∷ bs) = lossy_loop zero skipped bs
lossy_loop zero zero (b ∷ bs) = elim (char_width (b ∷ bs)) [
  | zero ↦ 0xef ∷ 0xbf ∷ 0xbd ∷ lossy_loop zero (replaced_width (b ∷ bs) - 1) bs
  | suc more ↦ b ∷ lossy_loop more zero bs
]

unfoldable pub lossy : Str → Str
unfolding lossy_loop
lossy text = lossy_loop zero zero text

-- Whether a text is UTF-8, behind the first `kept` bytes.
unfoldable utf8_loop : ℕ → Str → Bool
unfolding width
utf8_loop zero [] = true
utf8_loop (suc kept) [] = false
utf8_loop (suc kept) (b ∷ bs) = utf8_loop kept bs
utf8_loop zero (b ∷ bs) = elim (char_width (b ∷ bs)) [ zero ↦ false | suc more ↦ utf8_loop more bs ]

unfoldable pub is_utf8 : Str → Bool
unfolding utf8_loop
is_utf8 text = utf8_loop zero text

-- The character that a text that is UTF-8 begins with.
started :
    (n : ℕ) (bs : Str)
    → (elim n [ zero ↦ false | suc more ↦ utf8_loop more bs ]) ≡ true
    → (more : ℕ) × (n ≡ suc more) × (utf8_loop more bs ≡ true)
started zero bs h = cc
started (suc more) bs h = (more, refl, h)

lossy_loop_same :
    (kept : ℕ) (text : Str) → utf8_loop kept text ≡ true → lossy_loop kept zero text ≡ text
unfolding lossy_loop utf8_loop
lossy_loop_same zero [] h = refl
lossy_loop_same (suc kept) [] h = refl
lossy_loop_same (suc kept) (b ∷ bs) h = ap (λ t. b ∷ t) (lossy_loop_same kept bs h)
lossy_loop_same zero (b ∷ bs) h =
    let (more, wide, rest) = started (char_width (b ∷ bs)) bs h in
    rw (wide, lossy_loop) (ap (λ t. b ∷ t) (lossy_loop_same more bs rest))

-- A text that is UTF-8 prints as itself.
pub lossy_same : (text : Str) → is_utf8 text ≡ true → lossy text ≡ text
unfolding lossy is_utf8
lossy_same text h = lossy_loop_same zero text h

width_one : (a b c d m : ℕ) → width a 0 0 0 ≡ suc m → width a b c d ≡ suc m
unfolding width
width_one a b c d m h = ground arith

width_two : (a b c d m : ℕ) → width a b 0 0 ≡ suc m → width a b c d ≡ suc m
unfolding width
width_two a b c d m h = ground arith

width_three : (a b c d m : ℕ) → width a b c 0 ≡ suc m → width a b c d ≡ suc m
unfolding width
width_three a b c d m h = ground arith

char_width-append : (t s : Str) (m : ℕ) → char_width t ≡ suc m → char_width (t ++ s) ≡ suc m
char_width-append [] s m h = cc
char_width-append (a ∷ []) [] m h = h
char_width-append (a ∷ []) (b ∷ []) m h = width_one a b 0 0 m h
char_width-append (a ∷ []) (b ∷ c ∷ []) m h = width_one a b c 0 m h
char_width-append (a ∷ []) (b ∷ c ∷ d ∷ bs) m h = width_one a b c d m h
char_width-append (a ∷ b ∷ []) [] m h = h
char_width-append (a ∷ b ∷ []) (c ∷ []) m h = width_two a b c 0 m h
char_width-append (a ∷ b ∷ []) (c ∷ d ∷ bs) m h = width_two a b c d m h
char_width-append (a ∷ b ∷ c ∷ []) [] m h = h
char_width-append (a ∷ b ∷ c ∷ []) (d ∷ bs) m h = width_three a b c d m h
char_width-append (a ∷ b ∷ c ∷ d ∷ bs) s m h = h

utf8_loop-append :
    (kept : ℕ) (t s : Str)
    → utf8_loop kept t ≡ true
    → utf8_loop zero s ≡ true
    → utf8_loop kept (t ++ s) ≡ true
unfolding utf8_loop
utf8_loop-append zero [] s h k = k
utf8_loop-append (suc kept) [] s h k = cc
utf8_loop-append (suc kept) (b ∷ bs) s h k = utf8_loop-append kept bs s h k
utf8_loop-append zero (b ∷ bs) s h k =
    let (more, wide, rest) = started (char_width (b ∷ bs)) bs h in
    rw (char_width-append (b ∷ bs) s more wide, utf8_loop) (utf8_loop-append more bs s rest k)

width_ascii : (a : ℕ) → ltb a 0x80 ≡ true → width a 0 0 0 ≡ 1
unfolding width
width_ascii a h = rw h refl

-- A byte of ASCII is UTF-8.
pub utf8-ascii : (a : ℕ) → ltb a 0x80 ≡ true → is_utf8 (a ∷ []) ≡ true
unfolding is_utf8
utf8-ascii a h = rw (width_ascii a h, utf8_loop) refl

-- Texts that are UTF-8 make one that is.
pub utf8-append : (t s : Str) → is_utf8 t ≡ true → is_utf8 s ≡ true → is_utf8 (t ++ s) ≡ true
unfolding is_utf8
utf8-append t s h k = utf8_loop-append zero t s h k
