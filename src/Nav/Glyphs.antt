-- ===== src/Nav/Glyphs.antt =====
-- firmware/main/normalize.c and normalize.h, the glyph tables: which turn a rotation angle names.
pub mod Nearest
use open_apex.Base.{
  ℕ, zero, suc, ◌+◌, ◌-◌, ◌%◌, ◌^◌, Bool, true, false, ◌&&◌, ltb, leb, ◌==◌, if◌then◌else◌, List,
  [], ◌∷◌,
}
use open_apex.Nav.{
  NavIcon, straight, turn_left, turn_right, slight_left, sharp_right, roundabout_left,
  roundabout_right, roundabout_straight, icon_unknown, destination,
}

abbrev pub glyph_angle_tolerance_deg : ℕ
glyph_angle_tolerance_deg = 3

pub record GlyphEntry : Type 0 where
  pub angle_deg : ℕ
  pub icon : NavIcon

abbrev entry : ℕ → NavIcon → GlyphEntry
entry a i = record { angle_deg = a; icon = i }

abbrev pub maneuver_glyphs : List GlyphEntry
maneuver_glyphs =
    entry 0 straight
    ∷ entry 113 turn_left
    ∷ entry 133 destination
    ∷ entry 181 straight
    ∷ entry 247 turn_right
    ∷ entry 283 sharp_right
    ∷ entry 325 slight_left
    ∷ []

abbrev pub roundabout_glyphs : List GlyphEntry
roundabout_glyphs =
    entry 169 roundabout_straight
    ∷ entry 87 roundabout_right
    ∷ entry 208 roundabout_right
    ∷ entry 135 roundabout_left
    ∷ []

-- Of two bearings that are not negative, as the lookup calls it. The remainder of C has the sign of
-- the difference; a negative one has 360 added.
unfoldable pub angle_separation : ℕ → ℕ → ℕ
angle_separation a b =
    let m = (b - a) % 360 in
    let d = if leb b a then (a - b) % 360 else if m == 0 then 0 else 360 - m in
    if ltb 180 d then 360 - d else d

-- The `int16_t` is a bit pattern; this is its remainder, made positive.
unfoldable pub bearing_of : ℕ → ℕ
bearing_of angle =
    let m = (2 ^ 16 - angle) % 360 in
    if ltb angle (2 ^ 15) then angle % 360 else if m == 0 then 0 else 360 - m

-- The loop.
unfoldable pub nearest_from : List GlyphEntry → ℕ → NavIcon → ℕ → NavIcon
unfolding angle_separation
nearest_from [] a best best_sep = best
nearest_from (e ∷ table) a best best_sep =
    let sep = angle_separation a e.angle_deg in
    let nearer = leb sep glyph_angle_tolerance_deg && ltb sep best_sep in
    nearest_from table a (if nearer then e.icon else best) (if nearer then sep else best_sep)

unfoldable pub glyph_lookup : List GlyphEntry → ℕ → NavIcon → NavIcon
unfolding nearest_from bearing_of
glyph_lookup table angle fallback =
    nearest_from table (bearing_of angle) fallback (glyph_angle_tolerance_deg + 1)

unfoldable pub derive_maneuver_from_angle : ℕ → NavIcon
unfolding glyph_lookup
derive_maneuver_from_angle angle = glyph_lookup maneuver_glyphs angle icon_unknown

unfoldable pub derive_roundabout_direction : ℕ → NavIcon
unfolding glyph_lookup
derive_roundabout_direction angle = glyph_lookup roundabout_glyphs angle roundabout_straight
