-- ===== src/Nav/Street/Fuel.antt =====
-- firmware/main/normalize.c, abbreviate_street: its loop ends within the fuel that it is given.
use open_apex.Base.{
  ℕ, zero, suc, ◌+◌, ◌-◌, ◌≤◌, ◌≡◌, refl, arith, Bool, false, Bool-cases, inl, inr, ◌==◌,
  if◌then◌else◌, List, [], ◌∷◌, length, take,
}
use open_apex.Nav.Street.{street_abbrevs, word_of, abbrev_of, abbreviate_from}

-- A word and what follows it make the text.
pub length-word_of : (s : List ℕ) → length (word_of s).0 + length (word_of s).1 ≡ length s
unfolding word_of
length-word_of [] = refl
length-word_of (c ∷ s) = elim (Bool-cases (c == b' ')) [
  | inl space ↦ rw space (omega arith)
  | inr letter ↦ rw letter (omega (arith, length-word_of s))
]

word_of-shorter : (c : ℕ) (s : List ℕ) → (c == b' ') ≡ false → length (word_of (c ∷ s)).1 ≤ length s
unfolding word_of
word_of-shorter c s h = rw h (omega (arith, length-word_of s))

round_shorter :
    (c : ℕ) (s : List ℕ) → length (if c == b' ' then s else (word_of (c ∷ s)).1) ≤ length s
round_shorter c s = elim (Bool-cases (c == b' ')) [
  | inl space ↦ rw space (omega arith)
  | inr letter ↦ rw letter (word_of-shorter c s letter)
]

-- Any fuel that is at least the length of the text gives the same result.
pub abbreviate_from_fuel :
    (n m : ℕ) (first : Bool) (room : ℕ) (s : List ℕ)
    → length s ≤ n
    → length s ≤ m
    → abbreviate_from n first room s ≡ abbreviate_from m first room s
unfolding abbreviate_from
abbreviate_from_fuel zero zero first room s h k = refl
abbreviate_from_fuel zero (suc m) first room [] h k = refl
abbreviate_from_fuel zero (suc m) first room (c ∷ s) h k = absurd (omega arith)
abbreviate_from_fuel (suc n) zero first room [] h k = refl
abbreviate_from_fuel (suc n) zero first room (c ∷ s) h k = absurd (omega arith)
abbreviate_from_fuel (suc n) (suc m) first room [] h k = refl
abbreviate_from_fuel (suc n) (suc m) first room (c ∷ s) h k =
    let space = c == b' ' in
    let word = (word_of (c ∷ s)).0 in
    let chunk =
      take room (if space then c ∷ [] else if first then word else abbrev_of street_abbrevs word) in
    let left = if space then s else (word_of (c ∷ s)).1 in
    rw
      (abbreviate_from_fuel n m (if space then first else false) (room - length chunk) left
        (omega (arith, round_shorter c s)) (omega (arith, round_shorter c s)))
      refl
