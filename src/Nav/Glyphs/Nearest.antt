-- ===== src/Nav/Glyphs/Nearest.antt =====
-- firmware/main/normalize.c, glyph_lookup: the tolerance never turns one turn into another.
use open_apex.Base.{
  ℕ, ◌+◌, ◌*◌, ◌≤◌, ◌<◌, ◌≡◌, refl, arith, true, false, ltb, leb, List, [], ◌∷◌, All,
}
use open_apex.Nav.{NavIcon, icon_unknown, roundabout_straight}
use open_apex.Nav.Glyphs.{
  glyph_angle_tolerance_deg, GlyphEntry, maneuver_glyphs, roundabout_glyphs, angle_separation,
  bearing_of, nearest_from, glyph_lookup, derive_maneuver_from_angle, derive_roundabout_direction,
}

-- Of three bearings, the distances add up.
separation_triangle :
    (a b c : ℕ)
    → a < 360
    → b < 360
    → c < 360
    → angle_separation b c ≤ angle_separation a b + angle_separation a c
unfolding angle_separation
separation_triangle a b c h k l = ground arith

-- The entries stand more than twice the tolerance from each other.
abbrev pub Separable : List GlyphEntry → Type 0
Separable [] = Unit
Separable (e ∷ table) =
    (e.angle_deg < 360)
    × All
        (λ f.
          (f.angle_deg < 360)
          × (2 * glyph_angle_tolerance_deg < angle_separation e.angle_deg f.angle_deg))
        table
    × Separable table

-- What an identification by the nearest entry promises of an answer: an entry within the tolerance
-- is the answer, and the fallback is when there is none.
abbrev pub Identifies : List GlyphEntry → ℕ → NavIcon → NavIcon → Type 0
Identifies table a fallback answer =
    All (λ e. angle_separation a e.angle_deg ≤ glyph_angle_tolerance_deg → answer ≡ e.icon) table
    × (All (λ e. glyph_angle_tolerance_deg < angle_separation a e.angle_deg) table
        → answer ≡ fallback)

nearest_from-far :
    (table : List GlyphEntry) (a best_sep : ℕ) (best : NavIcon)
    → All (λ e. (glyph_angle_tolerance_deg < angle_separation a e.angle_deg)) table
    → nearest_from table a best best_sep ≡ best
unfolding nearest_from
nearest_from-far [] a best_sep best h = refl
nearest_from-far (e ∷ table) a best_sep best (far, h) =
    let out : leb (angle_separation a e.angle_deg) glyph_angle_tolerance_deg ≡ false =
      ground arith in
    rw out (nearest_from-far table a best_sep best h)

All-weaken :
    (P Q : GlyphEntry → Type 0) (table : List GlyphEntry)
    → ((e : GlyphEntry) → P e → Q e)
    → All P table
    → All Q table
All-weaken P Q [] f h = tt
All-weaken P Q (e ∷ table) f (h, k) = (f e h, All-weaken P Q table f k)

All-both :
    (P Q : GlyphEntry → Type 0) (table : List GlyphEntry)
    → All P table
    → All Q table
    → All (λ e. P e × Q e) table
All-both P Q [] h k = tt
All-both P Q (e ∷ table) (h, hs) (k, ks) = ((h, k), All-both P Q table hs ks)

outside : (sep : ℕ) → glyph_angle_tolerance_deg < sep → leb sep glyph_angle_tolerance_deg ≡ false
outside sep h = ground arith

nearest_from-near :
    (table : List GlyphEntry) (a : ℕ) (fallback : NavIcon)
    → a < 360
    → Separable table
    → All
        (λ e.
          angle_separation a e.angle_deg ≤ glyph_angle_tolerance_deg
          → nearest_from table a fallback (glyph_angle_tolerance_deg + 1) ≡ e.icon)
        table
unfolding nearest_from
nearest_from-near [] a fallback h k = tt
nearest_from-near (x ∷ table) a fallback h (in_range, apart, k) = (
  λ near.
      let within : leb (angle_separation a x.angle_deg) glyph_angle_tolerance_deg ≡ true =
        ground arith in
      let first : ltb (angle_separation a x.angle_deg) 4 ≡ true = ground arith in
      rw (within, first)
        (nearest_from-far table a (angle_separation a x.angle_deg) x.icon (
          All-weaken
            (λ f.
              (f.angle_deg < 360)
              × (2 * glyph_angle_tolerance_deg < angle_separation x.angle_deg f.angle_deg))
            (λ f. glyph_angle_tolerance_deg < angle_separation a f.angle_deg) table
            (λ f (fits, far).
              omega
                (arith, near, far, separation_triangle a x.angle_deg f.angle_deg h in_range fits))
            apart)),
  All-weaken
      (λ f.
        ((f.angle_deg < 360)
          × (2 * glyph_angle_tolerance_deg < angle_separation x.angle_deg f.angle_deg))
        × (angle_separation a f.angle_deg ≤ glyph_angle_tolerance_deg
            → nearest_from table a fallback (glyph_angle_tolerance_deg + 1) ≡ f.icon))
      (λ f.
        angle_separation a f.angle_deg ≤ glyph_angle_tolerance_deg
        → nearest_from (x ∷ table) a fallback (glyph_angle_tolerance_deg + 1) ≡ f.icon)
      table
      (λ f both near.
        let out : leb (angle_separation a x.angle_deg) glyph_angle_tolerance_deg ≡ false =
          outside (angle_separation a x.angle_deg) (
            omega (
              arith,
              near,
              both.0.1,
              separation_triangle a x.angle_deg f.angle_deg h in_range both.0.0,
            )) in
        rw out (both.1 near))
      (All-both
        (λ f.
          (f.angle_deg < 360)
          × (2 * glyph_angle_tolerance_deg < angle_separation x.angle_deg f.angle_deg))
        (λ f.
          angle_separation a f.angle_deg ≤ glyph_angle_tolerance_deg
          → nearest_from table a fallback (glyph_angle_tolerance_deg + 1) ≡ f.icon)
        table apart (nearest_from-near table a fallback h k)),
)

bearing_of-lt : (angle : ℕ) → bearing_of angle < 360
unfolding bearing_of
bearing_of-lt angle = ground arith

pub glyph_lookup-Identifies :
    (table : List GlyphEntry) (angle : ℕ) (fallback : NavIcon)
    → Separable table
    → Identifies table (bearing_of angle) fallback (glyph_lookup table angle fallback)
unfolding glyph_lookup
glyph_lookup-Identifies table angle fallback h = (
  nearest_from-near table (bearing_of angle) fallback (bearing_of-lt angle) h,
  λ far. nearest_from-far table (bearing_of angle) (glyph_angle_tolerance_deg + 1) fallback far,
)

maneuver_glyphs-Separable : Separable maneuver_glyphs
unfolding angle_separation
maneuver_glyphs-Separable = ground arith

roundabout_glyphs-Separable : Separable roundabout_glyphs
unfolding angle_separation
roundabout_glyphs-Separable = ground arith

-- In both tables the entries stand more than twice the tolerance apart, so an angle within the
-- tolerance of an entry is given the turn of that entry, whatever else the table holds; an angle
-- within the tolerance of none is an unknown turn, or a roundabout that goes straight on.
pub glyph_tables-Identifies :
    (angle : ℕ)
    → (Identifies maneuver_glyphs
        (bearing_of angle)
        icon_unknown
        (derive_maneuver_from_angle angle))
      × (Identifies roundabout_glyphs
          (bearing_of angle)
          roundabout_straight
          (derive_roundabout_direction angle))
unfolding derive_maneuver_from_angle derive_roundabout_direction
glyph_tables-Identifies angle = (
  glyph_lookup-Identifies maneuver_glyphs angle icon_unknown maneuver_glyphs-Separable,
  glyph_lookup-Identifies roundabout_glyphs angle roundabout_straight roundabout_glyphs-Separable,
)
