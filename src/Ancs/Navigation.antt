-- ===== src/Ancs/Navigation.antt =====
-- firmware/main/ancs_nav.h and ancs_nav.c: which notification is navigation, and the packet that it
-- becomes. The pointers are not NULL, and a text is the list of its bytes before the NUL.
pub mod Dates
pub mod Digits
pub mod Lines
use open_apex.Base.{
  ℕ, zero, suc, ◌+◌, ◌-◌, ◌*◌, ◌^◌, Bool, true, false, not, ◌||◌, ◌&&◌, ltb, leb, ◌==◌,
  if◌then◌else◌, Option, none, some, List, [], ◌∷◌, length, take, drop, byte_at, replicate,
}
use open_apex.Packet.{
  raw_dist_str_len, raw_eta_str_len, raw_title_str_len, raw_group_nav, raw_u32_unknown, RawNotif,
}
use open_apex.Packet.Merge.{
  raw_u8_unknown, raw_u16_unknown, raw_i16_unknown, raw_i32_unknown, zero_packet,
}
use open_apex.Ancs.{Notification}
use open_apex.Nav.Text.{codes, tolower}
use open_apex.Nav.Distance.{is_separator, skip_separators}

abbrev pub ancs_category_incoming_call : ℕ
ancs_category_incoming_call = 1

abbrev pub ancs_category_missed_call : ℕ
ancs_category_missed_call = 2

abbrev pub ancs_category_location : ℕ
ancs_category_location = 10

pub data NavSource : Type 0 where
  source_unknown : NavSource
  source_google_maps : NavSource
  source_waze : NavSource
  source_apple_maps : NavSource

-- `s_permissive` before and after.
abbrev pub ancs_nav_set_permissive : Bool → Bool → Bool
ancs_nav_set_permissive old permissive = permissive

unfoldable pub ieq : List ℕ → List ℕ → Bool
ieq [] [] = true
ieq [] (d ∷ b) = false
ieq (c ∷ a) [] = false
ieq (c ∷ a) (d ∷ b) = tolower c == tolower d && ieq a b

abbrev pub apps : List (List ℕ × NavSource)
apps =
    (codes "com.google.maps", source_google_maps)
    ∷ (codes "com.waze.iphone", source_waze)
    ∷ (codes "com.apple.maps", source_apple_maps)
    ∷ []

-- The loop over the table.
unfoldable pub classify_from : List (List ℕ × NavSource) → List ℕ → NavSource
classify_from [] app_id = source_unknown
classify_from ((app, source) ∷ table) app_id =
    let rest = classify_from table app_id in if ieq app_id app then source else rest

unfoldable pub ancs_nav_classify_app : List ℕ → NavSource
ancs_nav_classify_app app_id =
    if length app_id == 0 then source_unknown else classify_from apps app_id

-- The end of `ancs_nav_is_navigation`, by the source.
unfoldable pub shows_source : Bool → ℕ → NavSource → Bool
shows_source permissive category source_google_maps = true
shows_source permissive category source_waze = true
shows_source permissive category source_apple_maps = permissive
shows_source permissive category source_unknown =
    if category == ancs_category_location then true else permissive

unfoldable pub ancs_nav_is_navigation : Bool → Notification → Bool
ancs_nav_is_navigation permissive n =
    if n.category == ancs_category_incoming_call || n.category == ancs_category_missed_call
    then false
    else shows_source permissive n.category (ancs_nav_classify_app n.app_id)

abbrev pub is_digit : ℕ → Bool
is_digit c = leb b'0' c && leb c b'9'

unfoldable pub skip_tabs : List ℕ → List ℕ
skip_tabs [] = []
skip_tabs (c ∷ s) = let rest = skip_tabs s in if c == b' ' || c == 9 then rest else c ∷ s

unfoldable pub skip_number : List ℕ → List ℕ
skip_number [] = []
skip_number (c ∷ s) =
    let rest = skip_number s in if is_digit c || c == b'.' || c == b',' then rest else c ∷ s

abbrev pub unit_names : List (List ℕ)
unit_names =
    codes "km"
    ∷ codes "m"
    ∷ codes "kilometres"
    ∷ codes "kilometers"
    ∷ codes "metres"
    ∷ codes "meters"
    ∷ []

-- One unit: what follows it, when the text begins with it.
unfoldable pub after_unit : List ℕ → List ℕ → Option (List ℕ)
after_unit [] p = some p
after_unit (u ∷ unit) [] = none
after_unit (u ∷ unit) (c ∷ p) =
    let rest = after_unit unit p in if tolower c == u then rest else none

abbrev pub is_letter : ℕ → Bool
is_letter c = leb b'a' c && leb c b'z' || leb b'A' c && leb c b'Z'

-- The unit ends on the boundary of a word.
unfoldable pub states_unit : List ℕ → List ℕ → Bool
states_unit unit p = elim (after_unit unit p) [
  | none ↦ false
  | some rest ↦ not (is_letter (byte_at rest 0))
]

-- The loop over the units.
unfoldable pub any_unit : List (List ℕ) → List ℕ → Bool
any_unit [] p = false
any_unit (unit ∷ table) p = states_unit unit p || any_unit table p

unfoldable pub line_states_distance : List ℕ → Bool
line_states_distance s =
    let p = skip_tabs s in
    if not (is_digit (byte_at p 0))
    then false
    else any_unit unit_names (skip_separators (skip_number p))

abbrev pub copy_bounded : ℕ → List ℕ → List ℕ
copy_bounded cap src = take (cap - 1) src

-- The packet before the texts.
abbrev pub bare_packet : ℕ → RawNotif
bare_packet sequence = record zero_packet {
  sequence = sequence;
  source_groups = raw_group_nav;
  source_is_ios = true;
  gnss_fix_valid = false;
  speed_kmh_x10 = raw_u16_unknown;
  heading_deg = raw_u16_unknown;
  battery_percent = raw_u8_unknown;
  progress = 2 ^ 32 - 1;
  progress_max = 2 ^ 32 - 1;
  icon_rotation_deg = raw_i16_unknown;
  bearing_accuracy_deg_x10 = raw_u16_unknown;
  yaw_deg = raw_u16_unknown;
  yaw_rate_dps_x10 = raw_i16_unknown;
  epoch_s = raw_u32_unknown;
  tz_offset_min = raw_i16_unknown;
  segment_count = 0;
  lat_e7 = raw_i32_unknown;
  lon_e7 = raw_i32_unknown;
  h_accuracy_m = raw_u16_unknown;
  accel_mg = replicate 3 raw_i16_unknown;
  gyro_mdps = replicate 3 raw_i16_unknown;
}

-- The two lines under the title: the distance and the arrival time.
unfoldable pub lines_of : List ℕ → List ℕ → List ℕ × List ℕ
lines_of subtitle message =
    if line_states_distance subtitle
    then (copy_bounded raw_dist_str_len subtitle, copy_bounded raw_eta_str_len message)
    else if line_states_distance message
    then (copy_bounded raw_dist_str_len message, copy_bounded raw_eta_str_len subtitle)
    else (
      [],
      copy_bounded raw_eta_str_len (if not (length subtitle == 0) then subtitle else message),
    )

unfoldable pub ancs_nav_to_raw : Notification → ℕ → Option RawNotif
ancs_nav_to_raw n sequence =
    let lines = lines_of n.subtitle n.message in
    if length n.title == 0 && (length n.subtitle == 0 && length n.message == 0)
    then none
    else some (record (bare_packet sequence) {
      title_str = copy_bounded raw_title_str_len n.title;
      distance_str = lines.0;
      eta_str = lines.1;
    })

infixl 20 ◌>>=◌
abbrev pub ◌>>=◌ {ℓ κ} : {A : Type ℓ} {B : Type κ} → Option A → (A → Option B) → Option B
none >>= f = none
(some a) >>= f = f a

-- The loop of `digits`, over the first `n` bytes.
unfoldable pub digits_from : ℕ → ℕ → List ℕ → Option ℕ
digits_from zero v s = some v
digits_from (suc n) v s =
    let rest = digits_from n (v * 10 + (byte_at s 0 - b'0')) (drop 1 s) in
    if is_digit (byte_at s 0) then rest else none

unfoldable pub digits : List ℕ → ℕ → Option ℕ
digits s n = digits_from n 0 s

pub record NavDate : Type 0 where
  pub year : ℕ
  pub month : ℕ
  pub day : ℕ
  pub hour : ℕ
  pub minute : ℕ
  pub second : ℕ

abbrev pub out_of_range : NavDate → Bool
out_of_range d =
    ltb d.month 1
    || ltb 12 d.month
    || ltb d.day 1
    || ltb 31 d.day
    || ltb 23 d.hour
    || ltb 59 d.minute
    || ltb 60 d.second

unfoldable pub ancs_nav_parse_date : List ℕ → Option NavDate
ancs_nav_parse_date date =
    if ltb (length date) 15 || not (byte_at date 8 == b'T') then none else (do
      y ← digits date 4
      mo ← digits (drop 4 date) 2
      d ← digits (drop 6 date) 2
      h ← digits (drop 9 date) 2
      mi ← digits (drop 11 date) 2
      s ← digits (drop 13 date) 2
      let t : NavDate = record { year = y; month = mo; day = d; hour = h; minute = mi; second = s }
      if out_of_range t then none else some t)
