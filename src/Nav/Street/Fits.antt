-- ===== src/Nav/Street/Fits.antt =====
-- firmware/main/normalize.c, truncate_street: the street fits its line.
use open_apex.Base.{
  length-take_le, length-take_whole, ℕ, ◌+◌, ◌-◌, ◌≤◌, arith, Bool, true, false, not, Bool-cases,
  Option-cases, inl, inr, ltb, leb, ◌==◌, if◌then◌else◌, none, some, List, [], ◌∷◌, length,
  length-append, take, drop, All, byte_at,
}
use open_apex.Nav.Text.{strrchr, same}
use open_apex.Nav.Street.{
  normalize_street_max_len, street_abbrevs, skip_blanks, strip_end, trim, suffix_of, cut_name,
  head_in, fit_name, truncate_street,
}

pub length-skip_blanks : (s : List ℕ) → length (skip_blanks s) ≤ length s
unfolding skip_blanks
length-skip_blanks [] = omega arith
length-skip_blanks (c ∷ s) = ground (arith, length-skip_blanks s)

length-strip_end : (s : List ℕ) → length (strip_end s) ≤ length s
unfolding strip_end
length-strip_end [] = omega arith
length-strip_end (c ∷ s) = ground (arith, length-strip_end s)

length-trim : (s : List ℕ) → length (trim s) ≤ length s
unfolding trim
length-trim s = omega (arith, length-strip_end (skip_blanks s), length-skip_blanks s)

length-if {ℓ} :
    {A : Type ℓ} (b : Bool) (xs ys : List A) (n : ℕ)
    → length xs ≤ n
    → length ys ≤ n
    → length (if b then xs else ys) ≤ n
length-if true xs ys n h k = h
length-if false xs ys n h k = k

length-whole :
    (room : ℕ) (cut : List ℕ)
    → length cut ≤ room
    → length (elim (strrchr cut b' ') as (λ _. List ℕ) [ none ↦ cut | some space ↦ take space cut ])
      ≤ room
length-whole room cut h = elim (Option-cases (strrchr cut b' ')) [
  | inl e ↦ rw e h
  | inr (space, e) ↦ rw e (omega (arith, length-take_whole space cut))
]

length-cut_name : (room : ℕ) (name : List ℕ) → length (cut_name room name) ≤ room
unfolding cut_name
length-cut_name room name =
    let cut = take room name in
    let whole : List ℕ = elim (strrchr cut b' ') [ none ↦ cut | some space ↦ take space cut ] in
    let mid_word = not (byte_at (drop room name) 0 == b' ') in
    omega (
      arith,
      length-trim (if mid_word then whole else cut),
      length-if mid_word whole cut room (length-whole room cut (length-take_le room name))
          (length-take_le room name),
    )

length-head_in : (room : ℕ) (name : List ℕ) → length (head_in room name) ≤ room
unfolding head_in
length-head_in room name = elim (Bool-cases (ltb room (length name))) [
  | inl long ↦ rw long (length-cut_name room name)
  | inr short ↦ rw short (ground arith)
]

length-suffix_of :
    (table : List (List ℕ × List ℕ)) (last : List ℕ)
    → All (λ row. length row.1 ≤ 4) table
    → length (suffix_of table last) ≤ 4
unfolding suffix_of
length-suffix_of [] last h = omega arith
length-suffix_of ((w, short) ∷ table) last (h, k) =
    length-if (same last short) short (suffix_of table last) 4 h (length-suffix_of table last k)

street_abbrevs_short : All (λ row. length row.1 ≤ 4) street_abbrevs
street_abbrevs_short = ground arith

length-fit_name :
    (suffix name : List ℕ)
    → length suffix ≤ 4
    → length (fit_name suffix name) ≤ normalize_street_max_len
unfolding fit_name
length-fit_name suffix name h = elim (Bool-cases (length suffix == 0)) [
  | inl e ↦ rw e (length-head_in normalize_street_max_len name)
  | inr e ↦
      let room = normalize_street_max_len - (length suffix + 1) in
      rw e (
        omega
          (arith, h, length-append (head_in room name) (b' ' ∷ suffix), length-head_in room name))
]

-- Whatever the name is, at most eighteen characters of it are shown.
pub length-truncate_street :
    (name : List ℕ) → length (truncate_street name) ≤ normalize_street_max_len
unfolding truncate_street
length-truncate_street name = elim (Bool-cases (leb (length name) normalize_street_max_len)) [
  | inl short ↦ rw short (ground arith)
  | inr long ↦ elim (Option-cases (strrchr name b' ')) [
    | inl e ↦ rw (long, e, truncate_street) (length-fit_name [] name (omega arith))
    | inr (last, e) ↦
        let suffix = suffix_of street_abbrevs (drop (last + 1) name) in
        rw (long, e, truncate_street)
          (length-fit_name suffix (if length suffix == 0 then name else take last name)
            (length-suffix_of street_abbrevs (drop (last + 1) name) street_abbrevs_short))
  ]
]
