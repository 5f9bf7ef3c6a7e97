-- ===== src/Base/Bytes.antt =====
-- Bytes and the fixed-width unsigned types: casts, little-endian fields and colours.
use Prim.Native.Nat.{ℕ, zero, suc, ◌+◌, ◌-◌, ◌*◌, ◌/◌, ◌%◌, ◌^◌, ◌<◌, bit_or}
use mathlib.Core.Path.{◌≡◌, refl}
use mathlib.Core.List.{List, [], ◌∷◌}
use native.Mathlib.Omega.{arith}
use open_apex.Base.Bits.{bit_or_low, bit_or_high}
use mathlib.Core.Bool.{Bool, true, false}
use mathlib.Core.Logic.{◌≢◌, inl, inr}
use open_apex.Base.Tests.{◌==◌, if◌then◌else◌, Bool-cases}
use open_apex.Base.Lists.{All, get_or}

-- The casts `(uint8_t)`, `(uint16_t)` and `(uint32_t)`.
abbrev pub u8 : ℕ → ℕ
u8 n = n % 2 ^ 8

abbrev pub u16 : ℕ → ℕ
u16 n = n % 2 ^ 16

abbrev pub u32 : ℕ → ℕ
u32 n = n % 2 ^ 32

infixl 72 ◌<<<◌ ◌>>>◌
abbrev pub ◌<<<◌ : ℕ → ℕ → ℕ
x <<< k = x * 2 ^ k

abbrev pub ◌>>>◌ : ℕ → ℕ → ℕ
x >>> k = x / 2 ^ k

-- `uint32_t` subtraction; `-` on ℕ stops at 0, so the modulus is added first.
abbrev pub sub32 : ℕ → ℕ → ℕ
sub32 a b = (a + 2 ^ 32 - b) % 2 ^ 32

-- A buffer of `uint8_t`.
abbrev pub IsBytes : List ℕ → Type 0
IsBytes = All (λ b. b < 256)

-- `p[i]`; the code reads below the length it has checked.
abbrev pub byte_at : List ℕ → ℕ → ℕ
byte_at p i = get_or p i 0

pub byte_at-lt : (p : List ℕ) (i : ℕ) → IsBytes p → byte_at p i < 256
byte_at-lt [] i h = omega arith
byte_at-lt (x ∷ p) zero h = h.0
byte_at-lt (x ∷ p) (suc i) h = byte_at-lt p i h.1

-- The three reads of multi-byte fields as sums.
pub or_u16 : (a b : ℕ) → a < 256 → bit_or a (b <<< 8) ≡ a + b * 256
or_u16 a b h = bit_or_low 8 a b h

pub or_u32 : (a b : ℕ) → a < 65536 → bit_or a (b <<< 16) ≡ a + b * 65536
or_u32 a b h = bit_or_low 16 a b h

pub or_rgb :
    (r g b : ℕ)
    → g < 256
    → b < 256
    → bit_or (bit_or (r <<< 16) (g <<< 8)) b ≡ r * 65536 + g * 256 + b
or_rgb r g b hg hb =
    ground
      (arith, bit_or_high 16 r (g * 256) (omega arith), bit_or_high 8 (r * 256 + g) b (omega arith))

-- `memcmp(a, b, n) == 0` on two arrays of one length, and `strcmp(a, b) == 0`.
unfoldable pub bytes_eq : List ℕ → List ℕ → Bool
bytes_eq [] [] = true
bytes_eq [] (b ∷ y) = false
bytes_eq (a ∷ x) [] = false
bytes_eq (a ∷ x) (b ∷ y) = let rest = bytes_eq x y in if a == b then rest else false

pub bytes_eq→eq : (x y : List ℕ) → bytes_eq x y ≡ true → x ≡ y
unfolding bytes_eq
bytes_eq→eq [] [] h = refl
bytes_eq→eq [] (b ∷ y) h = cc
bytes_eq→eq (a ∷ x) [] h = cc
bytes_eq→eq (a ∷ x) (b ∷ y) h = ground (arith, bytes_eq→eq x y)

pub bytes_eq_self : (x : List ℕ) → bytes_eq x x ≡ true
unfolding bytes_eq
bytes_eq_self [] = refl
bytes_eq_self (a ∷ x) = ground (arith, bytes_eq_self x)

pub bytes_eq-false : (x y : List ℕ) → x ≢ y → bytes_eq x y ≡ false
bytes_eq-false x y h = elim (Bool-cases (bytes_eq x y)) [
  | inl same ↦ absurd (h (bytes_eq→eq x y same))
  | inr other ↦ other
]
