-- ===== src/Nav/Maneuver/Roundabout.antt =====
-- firmware/main/normalize.c, derive_maneuver: which texts name a roundabout.
use open_apex.Base.{
  ℕ, zero, suc, ◌≡◌, refl, sym, ◌∙◌, Bool, true, false, ◌||◌, ◌&&◌, Bool-cases, Option-cases, inl,
  inr, if◌then◌else◌, List, [], ◌∷◌, take, arith,
}
use open_apex.Nav.{
  NavIcon, straight, turn_left, turn_right, slight_left, slight_right, sharp_left, sharp_right,
  u_turn, arrived, icon_unknown, destination,
}
use open_apex.Nav.Text.{codes, strstr, starts}
use open_apex.Packet.{raw_title_str_len}
use open_apex.Nav.Maneuver.{
  to_lower, contains, clause_of, arrival_of, any, slight_right_words, slight_left_words,
  straight_words, ramp, turn_of, maneuver_of, derive_maneuver, title_is_roundabout, is_roundabout,
}

-- What a beginning of a text contains, the text contains.
starts-take : (n : ℕ) (s p : List ℕ) → starts (take n s) p ≡ true → starts s p ≡ true
unfolding starts
starts-take n s [] h = refl
starts-take zero s (p ∷ ps) h = absurd (ground arith)
starts-take (suc n) [] (p ∷ ps) h = h
starts-take (suc n) (c ∷ s) (p ∷ ps) h = ground (arith, starts-take n s ps)

contains-cons : (c : ℕ) (s p : List ℕ) → contains (c ∷ s) p ≡ (starts (c ∷ s) p || contains s p)
unfolding contains strstr
contains-cons c s p = elim (Bool-cases (starts (c ∷ s) p)) [
  | inl here ↦ rw (here, contains) refl
  | inr later ↦ elim (Option-cases (strstr s p)) [
    | inl e ↦ rw (later, e, contains) refl
    | inr (i, e) ↦ rw (later, e, contains) refl
  ]
]

contains-nil : (p : List ℕ) → contains [] p ≡ starts [] p
unfolding contains strstr
contains-nil p = elim (Bool-cases (starts [] p)) [
  | inl h ↦ rw (h, contains) refl
  | inr h ↦ rw (h, contains) refl
]

starts-contains : (s p : List ℕ) → starts s p ≡ true → contains s p ≡ true
starts-contains [] p h = contains-nil p ∙ h
starts-contains (c ∷ s) p h = ground (arith, contains-cons c s p, h)

contains-take : (n : ℕ) (s p : List ℕ) → contains (take n s) p ≡ true → contains s p ≡ true
contains-take zero s p h = starts-contains s p (starts-take 0 s p (sym (contains-nil p) ∙ h))
contains-take (suc n) [] p h = h
contains-take (suc n) (c ∷ s) p h = ground (
  arith,
  contains-cons c s p,
  contains-cons c (take n s) p,
  starts-take (suc n) (c ∷ s) p,
  contains-take n s p,
  h,
)

contains-clause_of :
    (lower p : List ℕ) → contains (clause_of lower) p ≡ true → contains lower p ≡ true
unfolding clause_of
contains-clause_of lower p h = elim (Option-cases (strstr lower (codes " onto "))) [
  | inr (i, e) ↦ contains-take i lower p (sym (rw (e, clause_of) refl) ∙ h)
  | inl e ↦ elim (Option-cases (strstr lower (codes " on "))) [
    | inr (i, f) ↦ contains-take i lower p (sym (rw (e, f, clause_of) refl) ∙ h)
    | inl f ↦ sym (rw (e, f, clause_of) refl) ∙ h
  ]
]

-- An icon that is no roundabout.
data Plain : NavIcon → Type 0 where
  plain : (i : NavIcon) → is_roundabout i ≡ false → Plain i

if-Plain : (b : Bool) (x y : NavIcon) → Plain x → Plain y → Plain (if b then x else y)
if-Plain true x y h k = h
if-Plain false x y h k = k

turn_of-Plain : (clause : List ℕ) → Plain (turn_of clause)
unfolding turn_of
turn_of-Plain clause =
    if-Plain (contains clause (codes "sharp right")) _ _ (plain sharp_right refl) (
      if-Plain (contains clause (codes "sharp left")) _ _ (plain sharp_left refl) (
        if-Plain (any clause slight_right_words) _ _ (plain slight_right refl) (
          if-Plain (any clause slight_left_words) _ _ (plain slight_left refl) (
            if-Plain (ramp clause && contains clause (codes "right")) _ _ (plain slight_right refl)
              (if-Plain (ramp clause && contains clause (codes "left")) _ _ (plain slight_left refl)
                (if-Plain (contains clause (codes "right")) _ _ (plain turn_right refl) (
                  if-Plain (contains clause (codes "left")) _ _ (plain turn_left refl) (
                    if-Plain (any clause straight_words) _ _ (plain straight refl)
                      (plain icon_unknown refl)))))))))

arrival_of-Plain : (lower : List ℕ) → Plain (arrival_of lower)
unfolding arrival_of
arrival_of-Plain lower =
    if-Plain (contains lower (codes "on the left") || contains lower (codes "on your left")) _ _
      (plain turn_left refl)
      (if-Plain (contains lower (codes "on the right") || contains lower (codes "on your right")) _
        _ (plain turn_right refl) (plain destination refl))

if-Plain-false : (b : Bool) (x y : NavIcon) → b ≡ false → Plain y → Plain (if b then x else y)
if-Plain-false true x y h k = absurd (ground arith)
if-Plain-false false x y h k = k

maneuver_of-Plain :
    (lower : List ℕ)
    → contains (clause_of lower) (codes "roundabout") ≡ false
    → Plain (maneuver_of lower)
unfolding maneuver_of
maneuver_of-Plain lower h =
    let clause = clause_of lower in
    if-Plain (contains lower (codes "arrived") || contains lower (codes "reached")) _ _
      (plain arrived refl)
      (if-Plain (contains lower (codes "arriv") || contains lower (codes "destination")) _ _
        (arrival_of-Plain lower)
        (if-Plain (contains clause (codes "u-turn") || contains clause (codes "u turn")) _ _
          (plain u_turn refl)
          (if-Plain-false (contains clause (codes "roundabout")) _ _ h (turn_of-Plain clause))))

both_ways : (b : Bool) → b ≡ true → b ≡ false → ⊥
both_ways b h k = cc

is_roundabout-Plain : (i : NavIcon) → Plain i → is_roundabout i ≡ false
is_roundabout-Plain i (plain _ h) = h

-- Only a text that names a roundabout, before its street, is read as one.
pub derive_maneuver-is_roundabout :
    (text : List ℕ)
    → title_is_roundabout text ≡ false
    → is_roundabout (derive_maneuver text) ≡ false
unfolding derive_maneuver title_is_roundabout
derive_maneuver-is_roundabout text h =
    let lower = to_lower text raw_title_str_len in
    elim (Bool-cases (contains (clause_of lower) (codes "roundabout"))) [
      | inl on ↦ absurd (
          both_ways (contains lower (codes "roundabout"))
            (contains-clause_of lower (codes "roundabout") on) h)
      | inr off ↦ is_roundabout-Plain (maneuver_of lower) (maneuver_of-Plain lower off)
    ]
