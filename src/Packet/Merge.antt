-- ===== src/Packet/Merge.antt =====
-- firmware/main/packet_merge.c: one packet out of producers that each know half of it. The pointers
-- are not NULL; the static variables are the record `MergeState`.
pub mod Halves
pub mod History
use open_apex.Base.{
  ℕ, zero, suc, ◌+◌, ◌-◌, ◌%◌, ◌^◌, Bool, true, false, not, ◌||◌, ◌&&◌, leb, ◌==◌, if◌then◌else◌,
  Option, none, some, List, [], ◌∷◌, replicate, bit_and, sub32,
}
use open_apex.Packet.{
  raw_group_nav, raw_group_telemetry, raw_max_segments, raw_u32_unknown, Segment, RawNotif,
}

abbrev pub packet_merge_nav_hold_ms : ℕ
packet_merge_nav_hold_ms = 10000

abbrev pub packet_merge_telemetry_hold_ms : ℕ
packet_merge_telemetry_hold_ms = 5000

abbrev pub raw_u8_unknown : ℕ
raw_u8_unknown = 0xFF

abbrev pub raw_u16_unknown : ℕ
raw_u16_unknown = 0xFFFF

abbrev pub raw_i16_unknown : ℕ
raw_i16_unknown = 0x7FFF

abbrev pub raw_i32_unknown : ℕ
raw_i32_unknown = 0x7FFFFFFF

abbrev zero_segment : Segment
zero_segment = record { end_permille = 0; r = 0; g = 0; b = 0 }

-- `memset`; also what the static packet holds before the first reset.
abbrev pub zero_packet : RawNotif
zero_packet = record {
  sequence = 0;
  gnss_fix_valid = false;
  speed_kmh_x10 = 0;
  heading_deg = 0;
  battery_percent = 0;
  progress = 0;
  progress_max = 0;
  distance_str = [];
  eta_str = [];
  title_str = [];
  accel_mg = replicate 3 0;
  gyro_mdps = replicate 3 0;
  icon_rotation_deg = 0;
  bearing_accuracy_deg_x10 = 0;
  yaw_deg = 0;
  yaw_rate_dps_x10 = 0;
  epoch_s = 0;
  tz_offset_min = 0;
  segment_count = 0;
  segments = replicate raw_max_segments zero_segment;
  lat_e7 = 0;
  lon_e7 = 0;
  h_accuracy_m = 0;
  source_groups = 0;
  source_is_ios = false;
}

abbrev pub clear_nav : RawNotif → RawNotif
clear_nav p = record p {
  distance_str = [];
  eta_str = [];
  title_str = [];
  progress = 2 ^ 32 - 1;
  progress_max = 2 ^ 32 - 1;
  icon_rotation_deg = raw_i16_unknown;
  segment_count = 0;
  segments = replicate raw_max_segments zero_segment;
}

abbrev pub clear_telemetry : RawNotif → RawNotif
clear_telemetry p = record p {
  gnss_fix_valid = false;
  speed_kmh_x10 = raw_u16_unknown;
  heading_deg = raw_u16_unknown;
  battery_percent = raw_u8_unknown;
  bearing_accuracy_deg_x10 = raw_u16_unknown;
  yaw_deg = raw_u16_unknown;
  yaw_rate_dps_x10 = raw_i16_unknown;
  epoch_s = raw_u32_unknown;
  tz_offset_min = raw_i16_unknown;
  lat_e7 = raw_i32_unknown;
  lon_e7 = raw_i32_unknown;
  h_accuracy_m = raw_u16_unknown;
  accel_mg = replicate 3 raw_i16_unknown;
  gyro_mdps = replicate 3 raw_i16_unknown;
}

abbrev pub copy_nav : RawNotif → RawNotif → RawNotif
copy_nav dst src = record dst {
  distance_str = src.distance_str;
  eta_str = src.eta_str;
  title_str = src.title_str;
  progress = src.progress;
  progress_max = src.progress_max;
  icon_rotation_deg = src.icon_rotation_deg;
  segment_count = src.segment_count;
  segments = src.segments;
}

abbrev pub copy_telemetry : RawNotif → RawNotif → RawNotif
copy_telemetry dst src = record dst {
  gnss_fix_valid = src.gnss_fix_valid;
  speed_kmh_x10 = src.speed_kmh_x10;
  heading_deg = src.heading_deg;
  battery_percent = src.battery_percent;
  bearing_accuracy_deg_x10 = src.bearing_accuracy_deg_x10;
  yaw_deg = src.yaw_deg;
  yaw_rate_dps_x10 = src.yaw_rate_dps_x10;
  epoch_s = src.epoch_s;
  tz_offset_min = src.tz_offset_min;
  lat_e7 = src.lat_e7;
  lon_e7 = src.lon_e7;
  h_accuracy_m = src.h_accuracy_m;
  accel_mg = src.accel_mg;
  gyro_mdps = src.gyro_mdps;
}

pub record MergeState : Type 0 where
  pub held : RawNotif
  pub init : Bool
  pub nav_ms : ℕ
  pub telemetry_ms : ℕ
  pub nav_held : Bool
  pub telemetry_held : Bool

-- The static variables at boot.
abbrev pub merge_start : MergeState
merge_start = record {
  held = zero_packet;
  init = false;
  nav_ms = 0;
  telemetry_ms = 0;
  nav_held = false;
  telemetry_held = false;
}

unfoldable pub packet_merge_reset : MergeState → MergeState
packet_merge_reset s = record s {
  held = clear_telemetry (clear_nav zero_packet);
  init = true;
  nav_held = false;
  telemetry_held = false;
}

abbrev pub hold_fresh : Bool → ℕ → ℕ → ℕ → Bool
hold_fresh held stamp hold now_ms = held && leb (sub32 now_ms stamp) hold

-- Of RAW_GROUP_NAV, and of the other group.
abbrev pub nav_fresh : MergeState → ℕ → Bool
nav_fresh s now_ms = hold_fresh s.nav_held s.nav_ms packet_merge_nav_hold_ms now_ms

abbrev pub telemetry_fresh : MergeState → ℕ → Bool
telemetry_fresh s now_ms =
    hold_fresh s.telemetry_held s.telemetry_ms packet_merge_telemetry_hold_ms now_ms

pub packet_merge_group_fresh : MergeState → ℕ → ℕ → Bool
packet_merge_group_fresh s group now_ms =
    if group == raw_group_nav then nav_fresh s now_ms else telemetry_fresh s now_ms

-- `(in->source_groups & group) != 0`.
abbrev pub claims : RawNotif → ℕ → Bool
claims p group = not (bit_and p.source_groups group == 0)

unfoldable pub merge_nav : MergeState → RawNotif → ℕ → MergeState
merge_nav s p now_ms =
    if claims p raw_group_nav
    then record s { held = copy_nav s.held p; nav_ms = now_ms; nav_held = true }
    else if not (nav_fresh s now_ms)
    then record s { held = clear_nav s.held; nav_held = false }
    else s

unfoldable pub merge_telemetry : MergeState → RawNotif → ℕ → MergeState
merge_telemetry s p now_ms =
    if claims p raw_group_telemetry
    then record s { held = copy_telemetry s.held p; telemetry_ms = now_ms; telemetry_held = true }
    else if not (telemetry_fresh s now_ms)
    then record s { held = clear_telemetry s.held; telemetry_held = false }
    else s

-- The last lines: whoever wrote last.
abbrev pub sign : RawNotif → RawNotif → RawNotif
sign held p = record held {
  sequence = p.sequence;
  source_groups = p.source_groups;
  source_is_ios = p.source_is_ios;
}

-- The result is `*out`; `none` is `false`.
unfoldable pub packet_merge_accept : MergeState → RawNotif → ℕ → MergeState × Option RawNotif
unfolding merge_nav merge_telemetry packet_merge_reset
packet_merge_accept s p now_ms =
    if not (claims p (raw_group_nav + raw_group_telemetry))
    then (s, none)
    else let s0 = if not s.init then packet_merge_reset s else s in
      let s1 = merge_telemetry (merge_nav s0 p now_ms) p now_ms in
      let out = sign s1.held p in (record s1 { held = out }, some out)
