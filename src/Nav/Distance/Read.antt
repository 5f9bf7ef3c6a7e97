-- ===== src/Nav/Distance/Read.antt =====
-- firmware/main/normalize.c, normalize_parse_distance_metres: a number of metres or of kilometres.
use open_apex.Base.{
  ℕ, ◌+◌, ◌*◌, ◌^◌, ◌≤◌, ◌≡◌, refl, ap, ◌∙◌, arith, true, false, ◌||◌, ◌==◌, List, [], ◌∷◌, ◌++◌,
  length, byte_at, u32,
}
use open_apex.Nav.Text.{isdigit}
use open_apex.Nav.Distance.{
  long_max, read_milli, is_separator, fraction, in_unit, metres, normalize_parse_distance_metres,
}
use open_apex.Nav.Distance.Digits.{
  Digits, Separators, value, Ends, read_milli-value, skip_separators-all, strtol-Digits,
}

in_unit-plain :
    (v milli : ℕ) (seps rest : List ℕ)
    → Separators seps
    → is_separator (byte_at rest 0) ≡ false
    → (byte_at rest 0 == b'k' || byte_at rest 0 == b'K') ≡ false
    → in_unit v milli (seps ++ rest) ≡ v
unfolding in_unit
in_unit-plain v milli seps rest h unit kilo = rw (skip_separators-all seps rest h unit, kilo) refl

metres-plain :
    (v : ℕ) (seps rest : List ℕ)
    → Separators seps
    → is_separator (byte_at rest 0) ≡ false
    → (byte_at (seps ++ rest) 0 == b'.' || byte_at (seps ++ rest) 0 == b',') ≡ false
    → (byte_at rest 0 == b'k' || byte_at rest 0 == b'K') ≡ false
    → metres v (seps ++ rest) ≡ v
unfolding metres fraction
metres-plain v seps rest h unit point kilo = rw point (in_unit-plain v 0 seps rest h unit kilo)

kilo_no_separator : (c : ℕ) → (c == b'k' || c == b'K') ≡ true → is_separator c ≡ false
kilo_no_separator c h = ground arith

kilo_no_point : (c : ℕ) → (c == b'k' || c == b'K') ≡ true → (c == b'.' || c == b',') ≡ false
kilo_no_point c h = ground arith

separator_no_point : (c : ℕ) → is_separator c ≡ true → (c == b'.' || c == b',') ≡ false
separator_no_point c h = ground arith

separator_ends : (c : ℕ) → is_separator c ≡ true → isdigit c ≡ false
unfolding isdigit
separator_ends c h = ground arith

kilo_ends : (c : ℕ) → (c == b'k' || c == b'K') ≡ true → isdigit c ≡ false
unfolding isdigit
kilo_ends c h = ground arith

tail-Ends :
    (seps rest : List ℕ)
    → Separators seps
    → (byte_at rest 0 == b'k' || byte_at rest 0 == b'K') ≡ true
    → Ends (seps ++ rest)
tail-Ends [] [] h k = tt
tail-Ends [] (c ∷ rest) h k = kilo_ends c k
tail-Ends (c ∷ seps) rest (h, hs) k = separator_ends c h

-- Neither a separator nor a k is a decimal point.
no_point :
    (seps rest : List ℕ)
    → Separators seps
    → (byte_at rest 0 == b'k' || byte_at rest 0 == b'K') ≡ true
    → (byte_at (seps ++ rest) 0 == b'.' || byte_at (seps ++ rest) 0 == b',') ≡ false
no_point [] rest h kilo = kilo_no_point (byte_at rest 0) kilo
no_point (c ∷ seps) rest (h, hs) kilo = separator_no_point c h

in_unit-kilo :
    (v milli : ℕ) (seps rest : List ℕ)
    → Separators seps
    → (byte_at rest 0 == b'k' || byte_at rest 0 == b'K') ≡ true
    → in_unit v milli (seps ++ rest) ≡ u32 (v * 1000 + milli)
unfolding in_unit
in_unit-kilo v milli seps rest h kilo =
    rw (skip_separators-all seps rest h (kilo_no_separator (byte_at rest 0) kilo), kilo) refl

fraction-point :
    (c : ℕ) (s : List ℕ) → (c == b'.' || c == b',') ≡ true → fraction (c ∷ s) ≡ read_milli 3 0 s
unfolding fraction
fraction-point c s h = rw h refl

metres-kilo :
    (v j : ℕ) (point : ℕ) (digits seps rest : List ℕ)
    → (point == b'.' || point == b',') ≡ true
    → 3 ≡ length digits + j
    → Digits digits
    → Separators seps
    → (byte_at rest 0 == b'k' || byte_at rest 0 == b'K') ≡ true
    → metres v (point ∷ (digits ++ (seps ++ rest))) ≡ u32 (v * 1000 + value 0 digits * 10 ^ j)
unfolding metres
metres-kilo v j point digits seps rest p l h k kilo =
    let e =
      fraction-point point (digits ++ (seps ++ rest)) p
      ∙ read_milli-value 3 j 0 digits (seps ++ rest) l h (tail-Ends seps rest k kilo) in
    rw (e, metres) (in_unit-kilo v (value 0 digits * 10 ^ j) seps rest k kilo)

metres-whole_kilo :
    (v : ℕ) (seps rest : List ℕ)
    → Separators seps
    → (byte_at rest 0 == b'k' || byte_at rest 0 == b'K') ≡ true
    → metres v (seps ++ rest) ≡ u32 (v * 1000)
unfolding metres fraction
metres-whole_kilo v seps rest h kilo =
    rw (no_point seps rest h kilo)
      (in_unit-kilo v 0 seps rest h kilo ∙ ap (λ (t : ℕ). u32 t) (omega arith))

Digits-Ends : (s : List ℕ) → isdigit (byte_at s 0) ≡ false → Ends s
Digits-Ends [] h = tt
Digits-Ends (c ∷ s) h = h

point_ends : (c : ℕ) → (c == b'.' || c == b',') ≡ true → isdigit c ≡ false
unfolding isdigit
point_ends c h = ground arith

parse-Digits :
    (c : ℕ) (digits rest : List ℕ)
    → Digits (c ∷ digits)
    → Ends rest
    → value 0 (c ∷ digits) ≤ long_max
    → normalize_parse_distance_metres ((c ∷ digits) ++ rest) ≡ metres (value 0 (c ∷ digits)) rest
unfolding normalize_parse_distance_metres
parse-Digits c digits rest h e fits =
    rw (strtol-Digits c digits rest h e fits, normalize_parse_distance_metres) refl

-- A text that begins with a number in range, with separators, possibly none, before what follows.
-- If no digit and no decimal point follows the number, and what stands behind the separators is
-- no separator and no k, it is that many metres. If a k stands behind the separators, it is that
-- many kilometres. If a point or comma and up to three digits follow the number, and a k stands
-- behind the separators, it is that many kilometres with their thousandths. The metres of a
-- distance in kilometres are a word of 32 bits.
pub normalize_parse_distance_metres-Reads :
    (c : ℕ) (digits seps rest : List ℕ)
    → Digits (c ∷ digits)
    → Separators seps
    → value 0 (c ∷ digits) ≤ long_max
    → (isdigit (byte_at (seps ++ rest) 0) ≡ false
        → is_separator (byte_at rest 0) ≡ false
        → (byte_at (seps ++ rest) 0 == b'.' || byte_at (seps ++ rest) 0 == b',') ≡ false
        → (byte_at rest 0 == b'k' || byte_at rest 0 == b'K') ≡ false
        → normalize_parse_distance_metres ((c ∷ digits) ++ (seps ++ rest)) ≡ value 0 (c ∷ digits))
      × ((byte_at rest 0 == b'k' || byte_at rest 0 == b'K') ≡ true
          → normalize_parse_distance_metres ((c ∷ digits) ++ (seps ++ rest))
            ≡ u32 (value 0 (c ∷ digits) * 1000))
      × ((point j : ℕ) (frac : List ℕ)
          → (point == b'.' || point == b',') ≡ true
          → 3 ≡ length frac + j
          → Digits frac
          → (byte_at rest 0 == b'k' || byte_at rest 0 == b'K') ≡ true
          → normalize_parse_distance_metres ((c ∷ digits) ++ (point ∷ (frac ++ (seps ++ rest))))
            ≡ u32 (value 0 (c ∷ digits) * 1000 + value 0 frac * 10 ^ j))
normalize_parse_distance_metres-Reads c digits seps rest h k fits = (
  λ ends unit point kilo.
      parse-Digits c digits (seps ++ rest) h (Digits-Ends (seps ++ rest) ends) fits
      ∙ metres-plain (value 0 (c ∷ digits)) seps rest k unit point kilo,
  λ kilo.
      parse-Digits c digits (seps ++ rest) h (tail-Ends seps rest k kilo) fits
      ∙ metres-whole_kilo (value 0 (c ∷ digits)) seps rest k kilo,
  λ point j frac p l f kilo.
      parse-Digits c digits (point ∷ (frac ++ (seps ++ rest))) h (point_ends point p) fits
      ∙ metres-kilo (value 0 (c ∷ digits)) j point frac seps rest p l f k kilo,
)
