-- ===== src/Packet.antt =====
-- firmware/main/packet.c: the phone's packet. A signed field is its bit pattern, a terminated `char`
-- array the bytes in front of its NUL.
pub mod Bounds
pub mod Merge
mod Tests
use open_apex.Base.{
  ℕ, zero, suc, ◌+◌, ◌-◌, ◌*◌, ◌%◌, ◌/◌, ◌^◌, Bool, true, false, not, ◌||◌, ◌&&◌, ltb, leb, ◌==◌,
  if◌then◌else◌, Option, none, some, List, [], ◌∷◌, length, drop, byte_at, bit_and, bit_or, ◌<<<◌,
}

abbrev pub raw_notif_packet_size : ℕ
raw_notif_packet_size = 210

abbrev pub raw_notif_version : ℕ
raw_notif_version = 6

abbrev pub raw_notif_version_min : ℕ
raw_notif_version_min = 5

abbrev pub raw_max_segments : ℕ
raw_max_segments = 8

abbrev pub raw_u32_unknown : ℕ
raw_u32_unknown = 0xFFFFFFFF

-- RAW_GROUP_NAV and RAW_GROUP_TELEMETRY.
abbrev pub raw_group_nav : ℕ
raw_group_nav = 0x01

abbrev pub raw_group_telemetry : ℕ
raw_group_telemetry = 0x02

abbrev pub raw_dist_str_len : ℕ
raw_dist_str_len = 16

abbrev pub raw_eta_str_len : ℕ
raw_eta_str_len = 32

abbrev pub raw_title_str_len : ℕ
raw_title_str_len = 64

pub record Segment : Type 0 where
  pub end_permille : ℕ
  pub r : ℕ
  pub g : ℕ
  pub b : ℕ

pub record RawNotif : Type 0 where
  pub sequence : ℕ
  pub gnss_fix_valid : Bool
  pub speed_kmh_x10 : ℕ
  pub heading_deg : ℕ
  pub battery_percent : ℕ
  pub progress : ℕ
  pub progress_max : ℕ
  pub distance_str : List ℕ
  pub eta_str : List ℕ
  pub title_str : List ℕ
  pub accel_mg : List ℕ
  pub gyro_mdps : List ℕ
  pub icon_rotation_deg : ℕ
  pub bearing_accuracy_deg_x10 : ℕ
  pub yaw_deg : ℕ
  pub yaw_rate_dps_x10 : ℕ
  pub epoch_s : ℕ
  pub tz_offset_min : ℕ
  pub segment_count : ℕ
  pub segments : List Segment
  pub lat_e7 : ℕ
  pub lon_e7 : ℕ
  pub h_accuracy_m : ℕ
  pub source_groups : ℕ
  pub source_is_ios : Bool

-- The reads at `&data[at]`.
pub read_u16 : List ℕ → ℕ → ℕ
read_u16 buf at = bit_or (byte_at buf at) (byte_at buf (at + 1) <<< 8)

pub read_u32 : List ℕ → ℕ → ℕ
read_u32 buf at =
    bit_or
      (bit_or (bit_or (byte_at buf at) (byte_at buf (at + 1) <<< 8)) (byte_at buf (at + 2) <<< 16))
      (byte_at buf (at + 3) <<< 24)

pub read_i16 : List ℕ → ℕ → ℕ
read_i16 buf at = bit_or (byte_at buf at) (byte_at buf (at + 1) <<< 8)

-- The loop: `room` is `dst_len - 1 - n`.
pub copy_str : ℕ → List ℕ → List ℕ
copy_str zero src = []
copy_str (suc room) [] = []
copy_str (suc room) (c ∷ src) = let rest = copy_str room src in if c == 0 then [] else c ∷ rest

-- -1 where the phone sends that it does not know; its bit pattern is the same.
pub progress_of : ℕ → ℕ
progress_of progress = if progress == raw_u32_unknown then 2 ^ 32 - 1 else progress

-- The loop over the segment table, from segment `i` with `left` to go.
pub read_segments : ℕ → List ℕ → ℕ → List Segment
unfolding read_u16
read_segments zero buf i = []
read_segments (suc left) buf i =
    let at = 159 + i * 5 in
    record {
      end_permille = read_u16 buf at;
      r = byte_at buf (at + 2);
      g = byte_at buf (at + 3);
      b = byte_at buf (at + 4);
    }
    ∷ read_segments left buf (i + 1)

-- A flag of byte 1 that only version 6 may set.
pub v6_flag : List ℕ → ℕ → Bool
v6_flag buf flag = leb 6 (byte_at buf 0) && not (bit_and (byte_at buf 1) flag == 0)

pub source_groups_of : List ℕ → ℕ
unfolding v6_flag
source_groups_of buf =
    if v6_flag buf 0x02 then raw_group_telemetry else bit_or raw_group_telemetry raw_group_nav

-- The fields, once the packet is accepted.
pub read_packet : List ℕ → RawNotif
unfolding read_u16 read_u32 read_i16 copy_str progress_of read_segments v6_flag source_groups_of
read_packet buf = record {
  sequence = read_u32 buf 2;
  gnss_fix_valid = not (bit_and (byte_at buf 1) 0x01 == 0);
  speed_kmh_x10 = read_u16 buf 6;
  heading_deg = read_u16 buf 8;
  battery_percent = byte_at buf 10;
  progress = progress_of (read_u32 buf 11);
  progress_max = progress_of (read_u32 buf 15);
  distance_str = copy_str (raw_dist_str_len - 1) (drop 19 buf);
  eta_str = copy_str (raw_eta_str_len - 1) (drop 35 buf);
  title_str = copy_str (raw_title_str_len - 1) (drop 67 buf);
  accel_mg = read_i16 buf 131 ∷ read_i16 buf 133 ∷ read_i16 buf 135 ∷ [];
  gyro_mdps = read_i16 buf 137 ∷ read_i16 buf 139 ∷ read_i16 buf 141 ∷ [];
  icon_rotation_deg = read_i16 buf 143;
  bearing_accuracy_deg_x10 = read_u16 buf 145;
  yaw_deg = read_u16 buf 147;
  yaw_rate_dps_x10 = read_i16 buf 149;
  epoch_s = read_u32 buf 152;
  tz_offset_min = read_i16 buf 156;
  segment_count = if leb (byte_at buf 158) raw_max_segments then byte_at buf 158 else 0;
  segments = read_segments raw_max_segments buf 0;
  lat_e7 = read_u32 buf 200;
  lon_e7 = read_u32 buf 204;
  h_accuracy_m = read_u16 buf 208;
  source_groups = source_groups_of buf;
  source_is_ios = v6_flag buf 0x04;
}

unfoldable pub packet_decode : List ℕ → Option RawNotif
unfolding read_packet
packet_decode buf =
    if ltb (length buf) raw_notif_packet_size
    then none
    else if ltb (byte_at buf 0) raw_notif_version_min || ltb raw_notif_version (byte_at buf 0)
    then none
    else some (read_packet buf)
