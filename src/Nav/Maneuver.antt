-- ===== src/Nav/Maneuver.antt =====
-- firmware/main/normalize.c, derive_maneuver: the turn that a text names.
pub mod Roundabout
use open_apex.Base.{
  ℕ, zero, suc, ◌-◌, Bool, true, false, not, ◌||◌, ◌&&◌, if◌then◌else◌, Option, none, some, List,
  [], ◌∷◌, map, take,
}
use open_apex.Nav.{
  NavIcon, straight, turn_left, turn_right, slight_left, slight_right, sharp_left, sharp_right,
  roundabout_left, roundabout_right, roundabout_straight, u_turn, arrived, icon_unknown,
  destination,
}
use open_apex.Packet.{raw_title_str_len}
use open_apex.Nav.Text.{codes, tolower, strstr}

-- `to_lower` into a buffer of `len` bytes.
unfoldable pub to_lower : List ℕ → ℕ → List ℕ
unfolding tolower
to_lower src len = map tolower (take (len - 1) src)

unfoldable pub contains : List ℕ → List ℕ → Bool
unfolding strstr
contains haystack needle = elim (strstr haystack needle) [ none ↦ false | some i ↦ true ]

-- The text up to its street.
unfoldable pub clause_of : List ℕ → List ℕ
unfolding strstr
clause_of lower = elim (strstr lower (codes " onto ")) [
  | some i ↦ take i lower
  | none ↦ elim (strstr lower (codes " on ")) [ some i ↦ take i lower | none ↦ lower ]
]

unfoldable pub arrival_of : List ℕ → NavIcon
unfolding contains
arrival_of lower =
    if contains lower (codes "on the left") || contains lower (codes "on your left")
    then turn_left
    else if contains lower (codes "on the right") || contains lower (codes "on your right")
    then turn_right
    else destination

unfoldable pub roundabout_of : List ℕ → NavIcon
unfolding contains
roundabout_of clause =
    if contains clause (codes "straight")
    then roundabout_straight
    else if contains clause (codes "left")
    then roundabout_left
    else if contains clause (codes "right")
    then roundabout_right
    else icon_unknown

unfoldable pub any : List ℕ → List (List ℕ) → Bool
unfolding contains
any text [] = false
any text (w ∷ words) = contains text w || any text words

abbrev pub slight_right_words : List (List ℕ)
slight_right_words =
    codes "slight right"
    ∷ codes "slightly right"
    ∷ codes "keep right"
    ∷ codes "exit right"
    ∷ codes "fork right"
    ∷ codes "merge right"
    ∷ codes "ramp on the right"
    ∷ []

abbrev pub slight_left_words : List (List ℕ)
slight_left_words =
    codes "slight left"
    ∷ codes "slightly left"
    ∷ codes "keep left"
    ∷ codes "exit left"
    ∷ codes "fork left"
    ∷ codes "merge left"
    ∷ codes "ramp on the left"
    ∷ []

abbrev pub straight_words : List (List ℕ)
straight_words =
    codes "straight" ∷ codes "continue" ∷ codes "head " ∷ codes "depart" ∷ codes "merge" ∷ []

unfoldable pub ramp : List ℕ → Bool
unfolding contains
ramp clause =
    contains clause (codes "lane")
    && (contains clause (codes "exit") || contains clause (codes "ramp"))

-- From "sharp right" on.
unfoldable pub turn_of : List ℕ → NavIcon
unfolding contains any ramp
turn_of clause =
    let right = contains clause (codes "right") in
    let left = contains clause (codes "left") in
    if contains clause (codes "sharp right")
    then sharp_right
    else if contains clause (codes "sharp left")
    then sharp_left
    else if any clause slight_right_words
    then slight_right
    else if any clause slight_left_words
    then slight_left
    else if ramp clause && right
    then slight_right
    else if ramp clause && left
    then slight_left
    else if right
    then turn_right
    else if left
    then turn_left
    else if any clause straight_words
    then straight
    else icon_unknown

unfoldable pub maneuver_of : List ℕ → NavIcon
unfolding contains clause_of arrival_of roundabout_of turn_of
maneuver_of lower =
    let clause = clause_of lower in
    if contains lower (codes "arrived") || contains lower (codes "reached")
    then arrived
    else if contains lower (codes "arriv") || contains lower (codes "destination")
    then arrival_of lower
    else if contains clause (codes "u-turn") || contains clause (codes "u turn")
    then u_turn
    else if contains clause (codes "roundabout")
    then roundabout_of clause
    else turn_of clause

unfoldable pub derive_maneuver : List ℕ → NavIcon
unfolding maneuver_of to_lower
derive_maneuver text = maneuver_of (to_lower text raw_title_str_len)

unfoldable pub title_is_roundabout : List ℕ → Bool
unfolding to_lower contains
title_is_roundabout text = contains (to_lower text raw_title_str_len) (codes "roundabout")

abbrev pub is_roundabout : NavIcon → Bool
is_roundabout roundabout_left = true
is_roundabout roundabout_right = true
is_roundabout roundabout_straight = true
is_roundabout icon = false
