-- ===== src/Nav/Normalize.antt =====
-- firmware/main/normalize.c, normalize_packet: the page's model of one packet.
pub mod Fuel
pub mod Icon
pub mod Model
use open_apex.Base.{
  ℕ, zero, suc, ◌+◌, ◌-◌, ◌*◌, ◌/◌, ◌^◌, Bool, true, false, not, ◌||◌, ◌&&◌, ltb, leb, ◌==◌,
  if◌then◌else◌, List, [], ◌∷◌, ◌++◌, map, length, take, u16,
}
use open_apex.Packet.{RawNotif}
use open_apex.Packet.Merge.{raw_i16_unknown}
use open_apex.Nav.{
  NavIcon, roundabout_straight, icon_unknown, nav_u16_unknown, nav_street_len, nav_eta_len,
  NavModel, is_unknown,
}
use open_apex.Nav.Text.{codes, tolower, starts, same}
use open_apex.Nav.Glyphs.{derive_maneuver_from_angle, derive_roundabout_direction}
use open_apex.Nav.Traffic.{traffic_spans}
use open_apex.Nav.Distance.{distance_unknown, normalize_parse_distance_metres}
use open_apex.Nav.Maneuver.{derive_maneuver, title_is_roundabout, is_roundabout}
use open_apex.Nav.Street.{
  StreetPref, skip_blanks, word_of, extract_street, pick_street_name, abbreviate_street,
  truncate_street,
}

-- The loop of `shorten_eta`: `out` is what stands in the buffer, the `bool` is `found`. Each round
-- takes a byte or more of the text, so its length is enough fuel.
unfoldable pub eta_from : ℕ → Bool → Bool → List ℕ → List ℕ → Bool × List ℕ
unfolding skip_blanks word_of tolower starts same
eta_from zero found drop_at out s = (found, out)
eta_from (suc fuel) found drop_at out s =
    let (word, rest) = word_of (skip_blanks s) in
    let lower = map tolower word in
    let arrive = starts lower (codes "arriv") in
    let at = drop_at && same lower (codes "at") in
    let spaced =
      if ltb 0 (length out) && ltb (length out) (nav_eta_len - 1)
      then out ++ (b' ' ∷ [])
      else out in
    let longer = spaced ++ take (nav_eta_len - 1 - length spaced) word in
    let next = eta_from fuel (found || arrive) arrive (if arrive || at then out else longer) rest in
    if length word == 0 then (found, out) else next

unfoldable pub shorten_eta : List ℕ → List ℕ
unfolding eta_from
shorten_eta eta =
    let (found, rest) = eta_from (suc (length eta)) false false [] eta in
    if found then take (nav_eta_len - 1) rest else eta

-- The `if` chain over the two witnesses of the turn.
unfoldable pub icon_of : List ℕ → ℕ → NavIcon
icon_of title rotation =
    let text_icon = derive_maneuver title in
    if title_is_roundabout title
    then (if is_roundabout text_icon
        then text_icon
        else if not (rotation == raw_i16_unknown)
        then derive_roundabout_direction rotation
        else roundabout_straight)
    else if not (is_unknown text_icon)
    then text_icon
    else if not (rotation == raw_i16_unknown)
    then derive_maneuver_from_angle rotation
    else icon_unknown

-- An `int32_t` below 0.
abbrev pub negative : ℕ → Bool
negative n = leb (2 ^ 31) n

unfoldable pub distance_of : List ℕ → List ℕ → ℕ
distance_of distance_str title_str =
    let d = normalize_parse_distance_metres distance_str in
    if negative d then normalize_parse_distance_metres title_str else d

-- `progress >= 0 && progress_max > 0 && progress <= progress_max`.
abbrev pub has_progress : ℕ → ℕ → Bool
has_progress progress progress_max =
    not (negative progress)
    && (not (negative progress_max) && ltb 0 progress_max)
    && leb progress progress_max

unfoldable pub remaining_of : ℕ → ℕ → ℕ
remaining_of progress progress_max =
    if has_progress progress progress_max then progress_max - progress else distance_unknown

unfoldable pub permille_of : ℕ → ℕ → ℕ
permille_of progress progress_max =
    if has_progress progress progress_max
    then u16 (progress * 1000 / progress_max)
    else nav_u16_unknown

-- The static street preference is the first argument.
unfoldable pub normalize_packet : StreetPref → RawNotif → NavModel
normalize_packet pref raw = record {
  icon_type = icon_of raw.title_str raw.icon_rotation_deg;
  distance_meters = distance_of raw.distance_str raw.title_str;
  remaining_meters = remaining_of raw.progress raw.progress_max;
  speed_kmh_x10 = raw.speed_kmh_x10;
  heading_deg = raw.heading_deg;
  battery_percent = raw.battery_percent;
  gnss_fix_valid = raw.gnss_fix_valid;
  notification_age_ms = 0;
  sequence = raw.sequence;
  street_name =
      truncate_street
        (abbreviate_street (pick_street_name pref (extract_street raw.title_str nav_street_len)));
  eta = shorten_eta (take (nav_eta_len - 1) raw.eta_str);
  traffic = traffic_spans raw.segment_count raw.segments;
  trip_progress_permille = permille_of raw.progress raw.progress_max;
}
