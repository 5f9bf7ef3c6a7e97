-- ===== src/Packet/Merge/Halves.antt =====
-- firmware/main/packet_merge.c: the merge as two registers that do not know of each other.
use open_apex.Base.{
  ℕ, ◌+◌, ◌≡◌, refl, Bool, true, false, not, Bool-cases, inl, inr, leb, if◌then◌else◌, Option, none,
  some, List, [], ◌∷◌, sub32,
}
use open_apex.Packet.{raw_group_nav, raw_group_telemetry, Segment, RawNotif}
use open_apex.Packet.Merge.{
  packet_merge_nav_hold_ms, packet_merge_telemetry_hold_ms, zero_packet, clear_nav, clear_telemetry,
  MergeState, hold_fresh, nav_fresh, telemetry_fresh, claims, merge_nav, merge_telemetry,
}

-- The two halves of a packet.
pub record NavHalf : Type 0 where
  pub distance_str : List ℕ
  pub eta_str : List ℕ
  pub title_str : List ℕ
  pub progress : ℕ
  pub progress_max : ℕ
  pub icon_rotation_deg : ℕ
  pub segment_count : ℕ
  pub segments : List Segment

pub record TelemetryHalf : Type 0 where
  pub gnss_fix_valid : Bool
  pub speed_kmh_x10 : ℕ
  pub heading_deg : ℕ
  pub battery_percent : ℕ
  pub bearing_accuracy_deg_x10 : ℕ
  pub yaw_deg : ℕ
  pub yaw_rate_dps_x10 : ℕ
  pub epoch_s : ℕ
  pub tz_offset_min : ℕ
  pub lat_e7 : ℕ
  pub lon_e7 : ℕ
  pub h_accuracy_m : ℕ
  pub accel_mg : List ℕ
  pub gyro_mdps : List ℕ

abbrev pub nav_half : RawNotif → NavHalf
nav_half p = record {
  distance_str = p.distance_str;
  eta_str = p.eta_str;
  title_str = p.title_str;
  progress = p.progress;
  progress_max = p.progress_max;
  icon_rotation_deg = p.icon_rotation_deg;
  segment_count = p.segment_count;
  segments = p.segments;
}

abbrev pub telemetry_half : RawNotif → TelemetryHalf
telemetry_half p = record {
  gnss_fix_valid = p.gnss_fix_valid;
  speed_kmh_x10 = p.speed_kmh_x10;
  heading_deg = p.heading_deg;
  battery_percent = p.battery_percent;
  bearing_accuracy_deg_x10 = p.bearing_accuracy_deg_x10;
  yaw_deg = p.yaw_deg;
  yaw_rate_dps_x10 = p.yaw_rate_dps_x10;
  epoch_s = p.epoch_s;
  tz_offset_min = p.tz_offset_min;
  lat_e7 = p.lat_e7;
  lon_e7 = p.lon_e7;
  h_accuracy_m = p.h_accuracy_m;
  accel_mg = p.accel_mg;
  gyro_mdps = p.gyro_mdps;
}

-- The halves of which nothing is known.
abbrev pub nav_unknown : NavHalf
nav_unknown = nav_half (clear_nav zero_packet)

abbrev pub telemetry_unknown : TelemetryHalf
telemetry_unknown = telemetry_half (clear_telemetry zero_packet)

-- A packet that claims a half or both.
abbrev pub speaks : RawNotif → Bool
speaks p = claims p (raw_group_nav + raw_group_telemetry)

-- A register: the last half that was written and when. A write replaces it; any other packet that
-- speaks forgets it when it has grown older than the hold.
module _ {ℓ} {A : Type ℓ} where
  abbrev pub keep : ℕ → ℕ → Option (A × ℕ) → Option (A × ℕ)
  keep hold now_ms none = none
  keep hold now_ms (some (a, at_ms)) =
      if leb (sub32 now_ms at_ms) hold then some (a, at_ms) else none

  abbrev pub reading : Option (A × ℕ) → A → A
  reading none unknown = unknown
  reading (some (a, at_ms)) unknown = a

  abbrev pub register : (RawNotif → A) → ℕ → ℕ → List (RawNotif × ℕ) → Option (A × ℕ)
  register half group hold [] = none
  register half group hold ((p, now_ms) ∷ earlier) =
      let before = register half group hold earlier in
      if speaks p
      then (if claims p group then some (half p, now_ms) else keep hold now_ms before)
      else before

  -- What the code keeps of a half: the flag, the time and the half itself.
  unfoldable pub step : ℕ → Bool → A → A → ℕ → Bool × ℕ × A → Bool × ℕ × A
  step hold written a unknown now_ms v =
      if written
      then (true, now_ms, a)
      else (if not (hold_fresh v.0 v.1 hold now_ms) then (false, v.1, unknown) else v)

  -- It agrees with the register.
  unfoldable pub Agrees : A → Bool × ℕ × A → Option (A × ℕ) → Type ℓ
  Agrees unknown v none = (v.0 ≡ false) × (v.2 ≡ unknown)
  Agrees unknown v (some (a, at_ms)) = (v.0 ≡ true) × (v.1 ≡ at_ms) × (v.2 ≡ a)

  pub step-Agrees :
      (hold : ℕ) (written : Bool) (a unknown : A) (now_ms : ℕ) (v : Bool × ℕ × A)
      (r : Option (A × ℕ))
      → Agrees unknown v r
      → Agrees unknown
          (step hold written a unknown now_ms v)
          (if written then some (a, now_ms) else keep hold now_ms r)
  unfolding step Agrees
  step-Agrees hold true a unknown now_ms v r h = (refl, refl, refl)
  step-Agrees hold false a unknown now_ms (f, t, b) none (off, e) = rw off (refl, refl)
  step-Agrees hold false a unknown now_ms (f, t, b) (some (c, s)) (on, at, e) =
      elim (Bool-cases (leb (sub32 now_ms s) hold)) [
        | inl young ↦ rw (on, at, young) (refl, refl, e)
        | inr old ↦ rw (on, at, old) (refl, refl)
      ]

abbrev pub nav_view : MergeState → Bool × ℕ × NavHalf
nav_view s = (s.nav_held, s.nav_ms, nav_half s.held)

abbrev pub telemetry_view : MergeState → Bool × ℕ × TelemetryHalf
telemetry_view s = (s.telemetry_held, s.telemetry_ms, telemetry_half s.held)

pub merge_nav-view :
    (s : MergeState) (p : RawNotif) (now_ms : ℕ)
    → nav_view (merge_nav s p now_ms)
      ≡ step packet_merge_nav_hold_ms
          (claims p raw_group_nav)
          (nav_half p)
          nav_unknown
          now_ms
          (nav_view s)
unfolding merge_nav step
merge_nav-view s p now_ms = elim (Bool-cases (claims p raw_group_nav)) [
  | inl on ↦ rw on refl
  | inr off ↦ elim (Bool-cases (nav_fresh s now_ms)) [
    | inl young ↦ rw (off, young) refl
    | inr old ↦ rw (off, old) refl
  ]
]

pub merge_nav-other :
    (s : MergeState) (p : RawNotif) (now_ms : ℕ)
    → telemetry_view (merge_nav s p now_ms) ≡ telemetry_view s
unfolding merge_nav
merge_nav-other s p now_ms = elim (Bool-cases (claims p raw_group_nav)) [
  | inl on ↦ rw on refl
  | inr off ↦ elim (Bool-cases (nav_fresh s now_ms)) [
    | inl young ↦ rw (off, young) refl
    | inr old ↦ rw (off, old) refl
  ]
]

pub merge_telemetry-view :
    (s : MergeState) (p : RawNotif) (now_ms : ℕ)
    → telemetry_view (merge_telemetry s p now_ms)
      ≡ step packet_merge_telemetry_hold_ms
          (claims p raw_group_telemetry)
          (telemetry_half p)
          telemetry_unknown
          now_ms
          (telemetry_view s)
unfolding merge_telemetry step
merge_telemetry-view s p now_ms = elim (Bool-cases (claims p raw_group_telemetry)) [
  | inl on ↦ rw on refl
  | inr off ↦ elim (Bool-cases (telemetry_fresh s now_ms)) [
    | inl young ↦ rw (off, young) refl
    | inr old ↦ rw (off, old) refl
  ]
]

pub merge_telemetry-other :
    (s : MergeState) (p : RawNotif) (now_ms : ℕ)
    → nav_view (merge_telemetry s p now_ms) ≡ nav_view s
unfolding merge_telemetry
merge_telemetry-other s p now_ms = elim (Bool-cases (claims p raw_group_telemetry)) [
  | inl on ↦ rw on refl
  | inr off ↦ elim (Bool-cases (telemetry_fresh s now_ms)) [
    | inl young ↦ rw (off, young) refl
    | inr old ↦ rw (off, old) refl
  ]
]
