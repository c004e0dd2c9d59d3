-- ===== src/Prelude/Bits.antt =====
-- `|` of a low part and a shifted field as a sum at every width, and masks on one byte by tables.
use Prim.Native.Nat.{ℕ, zero, suc, ◌+◌, ◌*◌, ◌/◌, ◌%◌, ◌^◌, ◌≤◌, ◌<◌, max, bit_and, bit_or}
use Prim.Native.Nat.{digits, bit_or-bitwise}
use mathlib.Core.Path.{◌≡◌, refl, ap}
use mathlib.Core.Bool.{Bool, true, ◌&&◌}
use native.Mathlib.Nat.{pow-suc}
use native.Mathlib.Omega.{arith}
use openmso_api.Prelude.Tests.{◌==◌, ==_iff}

-- The test at every number below a bound, by evaluation.
holds_below : (ℕ → Bool) → ℕ → Bool
holds_below test zero = true
holds_below test (suc bound) = holds_below test bound && test bound

at_below :
    (test : ℕ → Bool) (bound b : ℕ) → b < bound → holds_below test bound ≡ true → test b ≡ true
unfolding holds_below
at_below test zero b below h = absurd (omega arith)
at_below test (suc bound) b below h = ground (arith, at_below test bound b)

-- What the two masks and the set bit do to one byte.
abbrev byte_laws : ℕ → Bool
byte_laws b =
    bit_and b 0x7f == b % 128 && bit_and b 0x80 == b / 128 * 128 && bit_or b 0x80 == b % 128 + 128

every_byte : holds_below byte_laws 256 ≡ true
unfolding holds_below
every_byte = refl

bytes_follow :
    (b : ℕ)
    → b < 256
    → (bit_and b 0x7f ≡ b % 128)
      × (bit_and b 0x80 ≡ b / 128 * 128)
      × (bit_or b 0x80 ≡ b % 128 + 128)
bytes_follow b h = ground (
  arith,
  at_below byte_laws 256 b h every_byte,
  ==_iff (bit_and b 0x7f) (b % 128),
  ==_iff (bit_and b 0x80) (b / 128 * 128),
  ==_iff (bit_or b 0x80) (b % 128 + 128),
)

pub bit_and_low_seven : (b : ℕ) → b < 256 → bit_and b 0x7f ≡ b % 128
bit_and_low_seven b h = (bytes_follow b h).0

pub bit_and_top : (b : ℕ) → b < 256 → bit_and b 0x80 ≡ b / 128 * 128
bit_and_top b h = (bytes_follow b h).1

pub bit_or_top : (b : ℕ) → b < 256 → bit_or b 0x80 ≡ b % 128 + 128
bit_or_top b h = (bytes_follow b h).2

-- The digits that define the native `bit_or` do not depend on a fuel that is large enough.
same_digits :
    (a b small large : ℕ)
    → a ≤ small
    → a ≤ large
    → digits (λ c. c) max small a b ≡ digits (λ c. c) max large a b
same_digits zero b zero zero s l = refl
same_digits zero b zero (suc large) s l = refl
same_digits zero b (suc small) zero s l = refl
same_digits zero b (suc small) (suc large) s l = refl
same_digits (suc a) b zero large s l = absurd (omega arith)
same_digits (suc a) b (suc small) zero s l = absurd (omega arith)
same_digits (suc a) b (suc small) (suc large) s l =
    omega (arith, same_digits (suc a / 2) (b / 2) small large (omega arith) (omega arith))

no_bits : (b : ℕ) → bit_or 0 b ≡ b
no_bits b = bit_or-bitwise 0 b

-- The lowest bit of the result is the larger of the two lowest bits.
lowest_bit : (a b : ℕ) → bit_or a b ≡ bit_or (a / 2) (b / 2) * 2 + max (a % 2) (b % 2)
lowest_bit zero b = omega (arith, no_bits b, no_bits (b / 2))
lowest_bit (suc a) b =
    let half : ℕ = suc a / 2 in
    let enough = same_digits half (b / 2) a half (omega arith) (omega arith) in
    omega (arith, enough, bit_or-bitwise (suc a) b, bit_or-bitwise half (b / 2))

double_field : (g s : ℕ) → g * 2 ^ suc s ≡ 2 * (g * 2 ^ s)
double_field g s = omega (arith, ap (λ (t : ℕ). g * t) (pow-suc 2 s))

-- `a | (g << s)` is a sum when `a` fits `s` bits.
pub bit_or_field : (s g a : ℕ) → a < 2 ^ s → bit_or a (g * 2 ^ s) ≡ a + g * 2 ^ s
bit_or_field zero g a h = ground (arith, no_bits g)
bit_or_field (suc s) g a h = ground (
  arith,
  lowest_bit a (g * 2 ^ suc s),
  double_field g s,
  pow-suc 2 s,
  bit_or_field s g (a / 2) (omega arith),
)

-- `|` of an even number: the lowest bit stays.
bit_or_even : (a b c : ℕ) → b ≡ 2 * c → bit_or a b ≡ bit_or (a / 2) c * 2 + a % 2
bit_or_even a b c h =
    let half : b / 2 ≡ c = omega arith in
    let even : b % 2 ≡ 0 = omega arith in rw (lowest_bit a b, half, even) (omega arith)

bit_or_odd : (a : ℕ) → bit_or a 1 ≡ bit_or (a / 2) 0 * 2 + 1
bit_or_odd a = omega (arith, lowest_bit a 1)

-- `|` with the top bit of a byte, in the low byte of a number of any width.
pub bit_or_top_wide : (v : ℕ) → bit_or v 0x80 % 256 ≡ v % 128 + 128
bit_or_top_wide v = omega (
  arith,
  bit_or_even v 128 64 refl,
  bit_or_even (v / 2) 64 32 refl,
  bit_or_even (v / 2 / 2) 32 16 refl,
  bit_or_even (v / 2 / 2 / 2) 16 8 refl,
  bit_or_even (v / 2 / 2 / 2 / 2) 8 4 refl,
  bit_or_even (v / 2 / 2 / 2 / 2 / 2) 4 2 refl,
  bit_or_even (v / 2 / 2 / 2 / 2 / 2 / 2) 2 1 refl,
  bit_or_odd (v / 2 / 2 / 2 / 2 / 2 / 2 / 2),
)
