-- ===== src/Nav/Tests.antt =====
-- Texts, glyphs and packets as a phone sends them.
use open_apex.Base.{
  ℕ, ◌-◌, ◌+◌, ◌*◌, ◌^◌, ◌||◌, ◌==◌, ◌≤◌, ◌≡◌, refl, arith, true, false, List, [], ◌∷◌, ◌++◌,
  length, u32, byte_at,
}
use open_apex.Packet.{Segment, RawNotif}
use open_apex.Packet.Merge.{zero_packet}
use open_apex.Nav.{
  roundabout_right, roundabout_straight, icon_unknown, nav_eta_len, nav_traffic_max_spans,
  traffic_slow,
}
use open_apex.Nav.Text.{codes, isdigit, strrchr}
use open_apex.Nav.Glyphs.{
  maneuver_glyphs, roundabout_glyphs, bearing_of, derive_maneuver_from_angle,
  derive_roundabout_direction,
}
use open_apex.Nav.Glyphs.Nearest.{Identifies, glyph_tables-Identifies}
use open_apex.Nav.Traffic.{normalize_traffic_color, traffic_spans}
use open_apex.Nav.Traffic.Colours.{Says, normalize_traffic_color-Says}
use open_apex.Nav.Traffic.Spans.{Consecutive, Drawn, traffic_spans-Consecutive}
use open_apex.Nav.Distance.{is_separator, normalize_parse_distance_metres}
use open_apex.Nav.Distance.Digits.{value, Digits}
use open_apex.Nav.Distance.Read.{normalize_parse_distance_metres-Reads}
use open_apex.Nav.Maneuver.{derive_maneuver, title_is_roundabout, is_roundabout}
use open_apex.Nav.Street.{
  prefer_name, normalize_street_max_len, truncate_street, abbreviate_street, fit_name, suffix_of,
  head_in, cut_name,
}
use open_apex.Nav.Normalize.{icon_of, shorten_eta, normalize_packet}
use open_apex.Nav.Normalize.Icon.{icon_of-is_roundabout}
use open_apex.Nav.Normalize.Model.{Trip, normalize_packet-Bounded}

-- Two degrees beside the right exit of a roundabout.
glyph_tables-Identifies_example :
    (Identifies maneuver_glyphs (bearing_of 89) icon_unknown (derive_maneuver_from_angle 89))
    × (Identifies roundabout_glyphs
        (bearing_of 89)
        roundabout_straight
        (derive_roundabout_direction 89))
glyph_tables-Identifies_example = glyph_tables-Identifies 89

normalize_traffic_color-Says_example : Says (normalize_traffic_color 255 140 0) 255 140 0
normalize_traffic_color-Says_example = normalize_traffic_color-Says 255 140 0

orange : normalize_traffic_color 255 140 0 ≡ traffic_slow
unfolding normalize_traffic_color
orange = refl

abbrev segment : ℕ → Segment
segment e = record { end_permille = e; r = 0; g = 154; b = 166 }

-- The third runs backwards.
abbrev three : List Segment
three = segment 200 ∷ segment 700 ∷ segment 650 ∷ []

traffic_spans-Consecutive_example :
    Consecutive 0 (traffic_spans 3 three)
    × (length (traffic_spans 3 three) ≤ nav_traffic_max_spans)
    × (length (traffic_spans 3 three) ≤ 3)
    × Drawn three (traffic_spans 3 three)
traffic_spans-Consecutive_example = traffic_spans-Consecutive 3 three

two_drawn : length (traffic_spans 3 three) ≡ 2
unfolding traffic_spans
two_drawn = refl

-- "12" before a unit.
twelve : Digits (b'1' ∷ b'2' ∷ [])
unfolding isdigit
twelve = (refl, (refl, tt))

normalize_parse_distance_metres-Reads_example :
    (isdigit (byte_at (b' ' ∷ codes "km") 0) ≡ false
      → is_separator (byte_at (codes "km") 0) ≡ false
      → (byte_at (b' ' ∷ codes "km") 0 == b'.' || byte_at (b' ' ∷ codes "km") 0 == b',') ≡ false
      → (byte_at (codes "km") 0 == b'k' || byte_at (codes "km") 0 == b'K') ≡ false
      → normalize_parse_distance_metres (codes "12 km") ≡ 12)
    × ((byte_at (codes "km") 0 == b'k' || byte_at (codes "km") 0 == b'K') ≡ true
        → normalize_parse_distance_metres (codes "12 km") ≡ u32 (12 * 1000))
    × ((point j : ℕ) (frac : List ℕ)
        → (point == b'.' || point == b',') ≡ true
        → 3 ≡ length frac + j
        → Digits frac
        → (byte_at (codes "km") 0 == b'k' || byte_at (codes "km") 0 == b'K') ≡ true
        → normalize_parse_distance_metres (codes "12" ++ (point ∷ (frac ++ codes " km")))
          ≡ u32 (12 * 1000 + value 0 frac * 10 ^ j))
normalize_parse_distance_metres-Reads_example =
    normalize_parse_distance_metres-Reads b'1' (b'2' ∷ []) (b' ' ∷ []) (codes "km") twelve
      (refl, tt) (omega arith)

kilometre : normalize_parse_distance_metres (codes "1.1 km") ≡ 1100
unfolding normalize_parse_distance_metres
kilometre = refl

-- A fourth digit after the point hides the k.
fourth_digit : normalize_parse_distance_metres (codes "1.2345 km") ≡ 1
unfolding normalize_parse_distance_metres
fourth_digit = refl

two_km : normalize_parse_distance_metres (codes "2 km") ≡ 2000
unfolding normalize_parse_distance_metres
two_km = refl

abbrev exit_title : List ℕ
exit_title = codes "At the roundabout, take the 1st exit"

icon_of-is_roundabout_example :
    is_roundabout (icon_of exit_title 208) ≡ title_is_roundabout exit_title
icon_of-is_roundabout_example = icon_of-is_roundabout exit_title 208

exit_right : icon_of exit_title 208 ≡ roundabout_right
unfolding icon_of title_is_roundabout derive_maneuver derive_roundabout_direction
exit_right = refl

abbrev turn : RawNotif
turn = record zero_packet {
  title_str = codes "Turn left onto Wellington Harbour Esplanade Road";
  eta_str = codes "Arrive at 12:45";
  progress = 250;
  progress_max = 1000;
  segment_count = 3;
  segments = three;
}

normalize_packet-Bounded_example :
    let m = normalize_packet prefer_name turn in
    (length m.street_name ≤ normalize_street_max_len)
    × (length m.eta ≤ nav_eta_len - 1)
    × Consecutive 0 m.traffic
    × (length m.traffic ≤ nav_traffic_max_spans)
    × Trip turn m
normalize_packet-Bounded_example = normalize_packet-Bounded prefer_name turn

shown_street :
    truncate_street (abbreviate_street (codes "Wellington Harbour Esplanade Road"))
    ≡ codes "Wellington Rd"
unfolding truncate_street abbreviate_street strrchr fit_name suffix_of head_in cut_name
shown_street = refl

shown_eta : shorten_eta (codes "Arrive at 12:45") ≡ codes "12:45"
unfolding shorten_eta
shown_eta = refl
