-- ===== src/Nav.antt =====
-- firmware/main/nav_model.h: what the pages show of a turn.
pub mod Text
pub mod Glyphs
pub mod Traffic
pub mod Distance
pub mod Maneuver
pub mod Street
pub mod Normalize
mod Tests
use open_apex.Base.{ℕ, Bool, true, false, List, [], ◌∷◌}

pub data NavIcon : Type 0 where
  straight : NavIcon
  turn_left : NavIcon
  turn_right : NavIcon
  slight_left : NavIcon
  slight_right : NavIcon
  sharp_left : NavIcon
  sharp_right : NavIcon
  roundabout_left : NavIcon
  roundabout_right : NavIcon
  roundabout_straight : NavIcon
  u_turn : NavIcon
  arrived : NavIcon
  icon_unknown : NavIcon
  destination : NavIcon

abbrev pub nav_u16_unknown : ℕ
nav_u16_unknown = 0xFFFF

abbrev pub nav_street_len : ℕ
nav_street_len = 64

abbrev pub nav_eta_len : ℕ
nav_eta_len = 32

abbrev pub nav_traffic_max_spans : ℕ
nav_traffic_max_spans = 8

pub data TrafficLevel : Type 0 where
  traffic_unknown : TrafficLevel
  traffic_free : TrafficLevel
  traffic_slow : TrafficLevel
  traffic_heavy : TrafficLevel
  traffic_stopped : TrafficLevel

pub record TrafficSpan : Type 0 where
  pub start_permille : ℕ
  pub end_permille : ℕ
  pub level : TrafficLevel

-- `traffic` holds the first `traffic_count` spans.
pub record NavModel : Type 0 where
  pub icon_type : NavIcon
  pub distance_meters : ℕ
  pub remaining_meters : ℕ
  pub speed_kmh_x10 : ℕ
  pub heading_deg : ℕ
  pub battery_percent : ℕ
  pub gnss_fix_valid : Bool
  pub notification_age_ms : ℕ
  pub sequence : ℕ
  pub street_name : List ℕ
  pub eta : List ℕ
  pub traffic : List TrafficSpan
  pub trip_progress_permille : ℕ

-- `icon != NAV_ICON_UNKNOWN`, negated.
abbrev pub is_unknown : NavIcon → Bool
is_unknown icon_unknown = true
is_unknown icon = false
