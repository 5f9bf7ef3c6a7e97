-- ===== src/Nav/Normalize/Icon.antt =====
-- firmware/main/normalize.c, normalize_packet: a roundabout is never shown as a plain turn.
use open_apex.Base.{
  ℕ, ◌+◌, ◌≡◌, refl, Bool, true, false, not, ◌&&◌, Bool-cases, inl, inr, ltb, leb, ◌==◌,
  if◌then◌else◌, List, [], ◌∷◌, All,
}
use open_apex.Packet.Merge.{raw_i16_unknown}
use open_apex.Nav.{NavIcon, roundabout_straight, icon_unknown, is_unknown}
use open_apex.Nav.Glyphs.{
  glyph_angle_tolerance_deg, GlyphEntry, maneuver_glyphs, roundabout_glyphs, angle_separation,
  bearing_of, nearest_from, glyph_lookup, derive_maneuver_from_angle, derive_roundabout_direction,
}
use open_apex.Nav.Maneuver.{derive_maneuver, title_is_roundabout, is_roundabout}
use open_apex.Nav.Maneuver.Roundabout.{derive_maneuver-is_roundabout}
use open_apex.Nav.Normalize.{icon_of}

-- A lookup answers with an entry of its table or with its fallback.
nearest_from-is_roundabout :
    (b : Bool) (table : List GlyphEntry) (a best_sep : ℕ) (best : NavIcon)
    → All (λ e. is_roundabout e.icon ≡ b) table
    → is_roundabout best ≡ b
    → is_roundabout (nearest_from table a best best_sep) ≡ b
unfolding nearest_from
nearest_from-is_roundabout b [] a best_sep best h k = k
nearest_from-is_roundabout b (e ∷ table) a best_sep best (h, hs) k =
    let sep = angle_separation a e.angle_deg in
    elim (Bool-cases (leb sep glyph_angle_tolerance_deg && ltb sep best_sep)) [
      | inl nearer ↦ rw nearer (nearest_from-is_roundabout b table a sep e.icon hs h)
      | inr not_nearer ↦ rw not_nearer (nearest_from-is_roundabout b table a best_sep best hs k)
    ]

roundabout_direction : (angle : ℕ) → is_roundabout (derive_roundabout_direction angle) ≡ true
unfolding derive_roundabout_direction glyph_lookup
roundabout_direction angle =
    nearest_from-is_roundabout true roundabout_glyphs (bearing_of angle)
      (glyph_angle_tolerance_deg + 1) roundabout_straight (refl, (refl, (refl, (refl, tt)))) refl

plain_glyph : (angle : ℕ) → is_roundabout (derive_maneuver_from_angle angle) ≡ false
unfolding derive_maneuver_from_angle glyph_lookup
plain_glyph angle =
    nearest_from-is_roundabout false maneuver_glyphs (bearing_of angle)
      (glyph_angle_tolerance_deg + 1) icon_unknown
      (refl, (refl, (refl, (refl, (refl, (refl, (refl, tt))))))) refl

if-is_roundabout :
    (b c : Bool) (x y : NavIcon)
    → (b ≡ true → is_roundabout x ≡ c)
    → (b ≡ false → is_roundabout y ≡ c)
    → is_roundabout (if b then x else y) ≡ c
if-is_roundabout true c x y h k = h refl
if-is_roundabout false c x y h k = k refl

-- A packet whose title names a roundabout is shown as a roundabout, whatever its text and its glyph
-- say of the direction, and no other packet is.
pub icon_of-is_roundabout :
    (title : List ℕ) (rotation : ℕ)
    → is_roundabout (icon_of title rotation) ≡ title_is_roundabout title
unfolding icon_of
icon_of-is_roundabout title rotation =
    let text_icon = derive_maneuver title in
    let turned = not (rotation == raw_i16_unknown) in
    elim (Bool-cases (title_is_roundabout title)) [
      | inl on ↦ rw on (
          if-is_roundabout (is_roundabout text_icon) true text_icon
            (if turned then derive_roundabout_direction rotation else roundabout_straight) (λ h. h)
            (λ h.
              if-is_roundabout turned true (derive_roundabout_direction rotation)
                roundabout_straight (λ k. roundabout_direction rotation) (λ k. refl)))
      | inr off ↦ rw off (
          if-is_roundabout (not (is_unknown text_icon)) false text_icon
            (if turned then derive_maneuver_from_angle rotation else icon_unknown)
            (λ h. derive_maneuver-is_roundabout title off)
            (λ h.
              if-is_roundabout turned false (derive_maneuver_from_angle rotation) icon_unknown
                (λ k. plain_glyph rotation) (λ k. refl)))
    ]
