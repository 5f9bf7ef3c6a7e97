-- ===== src/Nav/Distance.antt =====
-- firmware/main/normalize.c, normalize_parse_distance_metres: the distance that a text begins with.
-- `long` has 32 bits; a result is the bit pattern of its `int32_t`.
pub mod Digits
pub mod Read
use open_apex.Base.{
  ℕ, zero, suc, ◌+◌, ◌-◌, ◌*◌, ◌^◌, Bool, true, false, not, ◌||◌, ◌&&◌, ltb, ◌==◌, if◌then◌else◌,
  Option, none, some, List, [], ◌∷◌, drop, byte_at, u32,
}
use open_apex.Nav.Text.{isdigit, isspace}

abbrev pub long_max : ℕ
long_max = 2 ^ 31 - 1

-- -1.
abbrev pub distance_unknown : ℕ
distance_unknown = 2 ^ 32 - 1

-- The digits of `strtol`, and the text behind them; a value out of range becomes the greatest.
unfoldable pub read_digits : ℕ → List ℕ → ℕ × List ℕ
unfolding isdigit
read_digits acc [] = (acc, [])
read_digits acc (c ∷ s) =
    let next = acc * 10 + (c - b'0') in
    let rest = read_digits (if ltb long_max next then long_max else next) s in
    if isdigit c then rest else (acc, c ∷ s)

unfoldable pub skip_spaces : List ℕ → List ℕ
unfolding isspace
skip_spaces [] = []
skip_spaces (c ∷ s) = let rest = skip_spaces s in if isspace c then rest else c ∷ s

-- `strtol(s, &end, 10)`: the sign, the magnitude and `end`; `none` is `end == s`.
unfoldable pub strtol : List ℕ → Option (Bool × ℕ × List ℕ)
unfolding read_digits skip_spaces isdigit
strtol s =
    let t = skip_spaces s in
    let negative = byte_at t 0 == b'-' in
    let digits = if negative || byte_at t 0 == b'+' then drop 1 t else t in
    let (v, end) = read_digits 0 digits in
    if isdigit (byte_at digits 0) then some (negative, v, end) else none

-- The loop over the fraction: the thousandths and the text behind them.
unfoldable pub read_milli : ℕ → ℕ → List ℕ → ℕ × List ℕ
unfolding isdigit
read_milli zero milli frac = (milli, frac)
read_milli (suc n) milli frac =
    let digit = isdigit (byte_at frac 0) in
    read_milli n (if digit then milli * 10 + (byte_at frac 0 - b'0') else milli * 10)
      (if digit then drop 1 frac else frac)

abbrev pub is_separator : ℕ → Bool
is_separator c = c == b' ' || c == 9 || c == 0xC2 || c == 0xA0

unfoldable pub skip_separators : List ℕ → List ℕ
skip_separators [] = []
skip_separators (c ∷ s) = let rest = skip_separators s in if is_separator c then rest else c ∷ s

-- The fractional part, if any.
unfoldable pub fraction : List ℕ → ℕ × List ℕ
unfolding read_milli
fraction end =
    if byte_at end 0 == b'.' || byte_at end 0 == b',' then read_milli 3 0 (drop 1 end) else (0, end)

-- The unit behind it.
unfoldable pub in_unit : ℕ → ℕ → List ℕ → ℕ
unfolding skip_separators
in_unit v milli end =
    let unit = byte_at (skip_separators end) 0 in
    if unit == b'k' || unit == b'K' then u32 (v * 1000 + milli) else v

unfoldable pub metres : ℕ → List ℕ → ℕ
unfolding fraction in_unit
metres v end = let (milli, rest) = fraction end in in_unit v milli rest

unfoldable pub normalize_parse_distance_metres : List ℕ → ℕ
unfolding strtol metres
normalize_parse_distance_metres s = elim (strtol s) [
  | none ↦ distance_unknown
  | some (negative, v, end) ↦ if negative && not (v == 0) then distance_unknown else metres v end
]
