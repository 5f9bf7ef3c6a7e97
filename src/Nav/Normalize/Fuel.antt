-- ===== src/Nav/Normalize/Fuel.antt =====
-- firmware/main/normalize.c, shorten_eta: its loop ends within the fuel that it is given.
use open_apex.Base.{
  ℕ, zero, suc, ◌-◌, ◌<◌, ◌≡◌, refl, arith, Bool, false, Bool-cases, inl, inr, ◌==◌, ltb, ◌||◌,
  ◌&&◌, if◌then◌else◌, List, [], ◌∷◌, ◌++◌, length, take, map,
}
use open_apex.Nav.{nav_eta_len}
use open_apex.Nav.Text.{codes, tolower, starts, same}
use open_apex.Nav.Street.{skip_blanks, word_of}
use open_apex.Nav.Street.Fits.{length-skip_blanks}
use open_apex.Nav.Street.Fuel.{length-word_of}
use open_apex.Nav.Normalize.{eta_from}

-- A word was taken, so less is left.
round_shorter :
    (s : List ℕ)
    → (length (word_of (skip_blanks s)).0 == 0) ≡ false
    → length (word_of (skip_blanks s)).1 < length s
round_shorter s h = ground (arith, length-word_of (skip_blanks s), length-skip_blanks s)

-- Any fuel above the length of the text gives the same result.
pub eta_from_fuel :
    (n m : ℕ) (found drop_at : Bool) (out s : List ℕ)
    → length s < n
    → length s < m
    → eta_from n found drop_at out s ≡ eta_from m found drop_at out s
unfolding eta_from
eta_from_fuel zero m found drop_at out s h k = absurd (omega arith)
eta_from_fuel (suc n) zero found drop_at out s h k = absurd (omega arith)
eta_from_fuel (suc n) (suc m) found drop_at out s h k =
    let word = (word_of (skip_blanks s)).0 in
    let rest = (word_of (skip_blanks s)).1 in
    let lower = map tolower word in
    let arrive = starts lower (codes "arriv") in
    let at = drop_at && same lower (codes "at") in
    let spaced =
      if ltb 0 (length out) && ltb (length out) (nav_eta_len - 1)
      then out ++ (b' ' ∷ [])
      else out in
    let longer = spaced ++ take (nav_eta_len - 1 - length spaced) word in
    elim (Bool-cases (length word == 0)) [
      | inl end ↦ rw end refl
      | inr more ↦
          rw
            (eta_from_fuel n m (found || arrive) arrive (if arrive || at then out else longer) rest
              (omega (arith, round_shorter s more)) (omega (arith, round_shorter s more)))
            refl
    ]
