-- ===== src/Nav/Distance/Digits.antt =====
-- firmware/main/normalize.c, normalize_parse_distance_metres: the digits of a number before its unit.
use native.Mathlib.Nat.{mul_assoc, mul_comm, pow-suc}
use open_apex.Base.{
  ℕ, zero, suc, ◌+◌, ◌-◌, ◌*◌, ◌^◌, ◌≤◌, ◌≡◌, refl, sym, ap, ◌∙◌, arith, true, false, ltb,
  ltb-false, ◌==◌, some, List, [], ◌∷◌, ◌++◌, length, All, byte_at,
}
use open_apex.Nav.Text.{isdigit, isspace}
use open_apex.Nav.Distance.{
  long_max, read_digits, skip_spaces, strtol, read_milli, is_separator, skip_separators,
}

abbrev pub Digits : List ℕ → Type 0
Digits = All (λ c. isdigit c ≡ true)

abbrev pub Separators : List ℕ → Type 0
Separators = All (λ c. is_separator c ≡ true)

-- The number that digits write, after a number before them.
abbrev pub value : ℕ → List ℕ → ℕ
value acc [] = acc
value acc (c ∷ digits) = value (acc * 10 + (c - b'0')) digits

-- A text that does not go on with a digit.
abbrev pub Ends : List ℕ → Type 0
Ends [] = Unit
Ends (c ∷ s) = isdigit c ≡ false

pair_of : (a b : ℕ) (s : List ℕ) → a ≡ b → ◌≡◌ {A = ℕ × List ℕ} (a, s) (b, s)
pair_of a b s h = ap {B = ℕ × List ℕ} (λ (t : ℕ). (t, s)) h

value_grows : (acc : ℕ) (digits : List ℕ) → acc ≤ value acc digits
value_grows acc [] = omega arith
value_grows acc (c ∷ digits) = omega (arith, value_grows (acc * 10 + (c - b'0')) digits)

read_digits-value :
    (acc : ℕ) (digits rest : List ℕ)
    → Digits digits
    → Ends rest
    → value acc digits ≤ long_max
    → read_digits acc (digits ++ rest) ≡ (value acc digits, rest)
unfolding read_digits
read_digits-value acc [] [] h e fits = refl
read_digits-value acc [] (c ∷ rest) h e fits = rw e refl
read_digits-value acc (c ∷ digits) rest (h, hs) e fits =
    let small : ltb long_max (acc * 10 + (c - b'0')) ≡ false =
      ltb-false long_max (acc * 10 + (c - b'0'))
        (omega (arith, fits, value_grows (acc * 10 + (c - b'0')) digits)) in
    rw (small, h) (read_digits-value (acc * 10 + (c - b'0')) digits rest hs e fits)

power_step : (a k : ℕ) → a * 10 * 10 ^ k ≡ a * 10 ^ suc k
power_step a k =
    mul_assoc a 10 (10 ^ k) ∙ ap (λ (t : ℕ). a * t) (mul_comm 10 (10 ^ k) ∙ sym (pow-suc 10 k))

Ends-not_digit : (rest : List ℕ) → Ends rest → isdigit (byte_at rest 0) ≡ false
unfolding isdigit
Ends-not_digit [] e = refl
Ends-not_digit (c ∷ rest) e = e

read_milli-zeros :
    (k acc : ℕ) (rest : List ℕ) → Ends rest → read_milli k acc rest ≡ (acc * 10 ^ k, rest)
unfolding read_milli
read_milli-zeros zero acc rest e = pair_of acc (acc * 10 ^ 0) rest (omega arith)
read_milli-zeros (suc k) acc rest e = rw (Ends-not_digit rest e) (
    read_milli-zeros k (acc * 10) rest e
    ∙ pair_of (acc * 10 * 10 ^ k) (acc * 10 ^ suc k) rest (power_step acc k))

pub read_milli-value :
    (n k acc : ℕ) (digits rest : List ℕ)
    → n ≡ length digits + k
    → Digits digits
    → Ends rest
    → read_milli n acc (digits ++ rest) ≡ (value acc digits * 10 ^ k, rest)
unfolding read_milli
read_milli-value n k acc [] rest l h e =
    let same : n ≡ k = omega (arith, l) in
    ap (λ (m : ℕ). read_milli m acc rest) same ∙ read_milli-zeros k acc rest e
read_milli-value zero k acc (c ∷ digits) rest l h e = absurd (omega arith)
read_milli-value (suc n) k acc (c ∷ digits) rest l (h, hs) e =
    rw h (read_milli-value n k (acc * 10 + (c - b'0')) digits rest (omega (arith, l)) hs e)

-- Separators are skipped up to the unit.
pub skip_separators-all :
    (seps rest : List ℕ)
    → Separators seps
    → is_separator (byte_at rest 0) ≡ false
    → skip_separators (seps ++ rest) ≡ rest
unfolding skip_separators
skip_separators-all [] [] h e = refl
skip_separators-all [] (c ∷ rest) h e = rw e refl
skip_separators-all (c ∷ seps) rest (h, hs) e = rw h (skip_separators-all seps rest hs e)

-- A digit is no space and no sign.
digit_first :
    (c : ℕ) → isdigit c ≡ true → (isspace c ≡ false) × ((c == b'-') ≡ false) × ((c == b'+') ≡ false)
unfolding isdigit isspace
digit_first c h = ground arith

strtol_lem :
    (s t end : List ℕ) (v : ℕ)
    → skip_spaces s ≡ t
    → (byte_at t 0 == b'-') ≡ false
    → (byte_at t 0 == b'+') ≡ false
    → isdigit (byte_at t 0) ≡ true
    → read_digits 0 t ≡ (v, end)
    → strtol s ≡ some (false, v, end)
unfolding strtol
strtol_lem s t end v skip minus plus digit read = rw (skip, minus, plus, digit, read) refl

pub strtol-Digits :
    (c : ℕ) (digits rest : List ℕ)
    → Digits (c ∷ digits)
    → Ends rest
    → value 0 (c ∷ digits) ≤ long_max
    → strtol ((c ∷ digits) ++ rest) ≡ some (false, value 0 (c ∷ digits), rest)
unfolding skip_spaces
strtol-Digits c digits rest (h, hs) e fits =
    let (space, minus, plus) = digit_first c h in
    strtol_lem ((c ∷ digits) ++ rest) ((c ∷ digits) ++ rest) rest (value 0 (c ∷ digits))
      (rw space refl) minus plus h (read_digits-value 0 (c ∷ digits) rest (h, hs) e fits)
