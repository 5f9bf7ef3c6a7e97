-- ===== src/Packet/Bounds.antt =====
-- firmware/main/packet.c: what every packet that decodes keeps to, whatever its bytes.
use open_apex.Base.{
  ℕ, zero, suc, ◌+◌, ◌≡◌, ◌≢◌, ◌≤◌, refl, arith, ap, Bool, true, false, ◌||◌, ◌⊎◌, inl, inr,
  Bool-cases, ltb, leb, ◌==◌, if◌then◌else◌, none, some, List, [], ◌∷◌, length, drop, All, byte_at,
}
use open_apex.Packet.{
  raw_max_segments, raw_group_nav, raw_group_telemetry, raw_notif_packet_size, raw_notif_version,
  raw_notif_version_min, RawNotif, copy_str, read_segments, v6_flag, source_groups_of, read_packet,
  packet_decode,
}

-- The text of a field: no longer than its array allows, no NUL inside.
abbrev pub Text : ℕ → List ℕ → Type 0
Text room s = (length s ≤ room) × All (λ c. c ≢ 0) s

copy_str-Text : (room : ℕ) (src : List ℕ) → Text room (copy_str room src)
unfolding copy_str
copy_str-Text zero src = (omega arith, tt)
copy_str-Text (suc room) [] = (omega arith, tt)
copy_str-Text (suc room) (c ∷ src) = elim (Bool-cases (c == 0)) [
  | inl nul ↦ rw nul (omega arith, tt)
  | inr char ↦
      let rest = copy_str-Text room src in
      rw char (omega (arith, rest.0), (ground (arith, char), rest.1))
]

length-read_segments : (left : ℕ) (buf : List ℕ) (i : ℕ) → length (read_segments left buf i) ≡ left
unfolding read_segments
length-read_segments zero buf i = refl
length-read_segments (suc left) buf i = ap suc (length-read_segments left buf (i + 1))

count_le : (n : ℕ) → (if leb n raw_max_segments then n else 0) ≤ raw_max_segments
count_le n = ground arith

groups :
    (b : Bool)
    → ((if b then raw_group_telemetry else 3) ≡ raw_group_telemetry)
      ⊎ ((if b then raw_group_telemetry else 3) ≡ raw_group_telemetry + raw_group_nav)
groups true = inl refl
groups false = inr refl

no_packet : {r : RawNotif} → none ≡ some r → ⊥
no_packet e = cc

the_packet : {r q : RawNotif} → some r ≡ some q → r ≡ q
the_packet e = cc

long_enough : (n : ℕ) → ltb n raw_notif_packet_size ≡ false → raw_notif_packet_size ≤ n
long_enough n h = ground arith

version_cases :
    (n : ℕ) → (ltb n raw_notif_version_min || ltb raw_notif_version n) ≡ false → (n ≡ 5) ⊎ (n ≡ 6)
version_cases n h = ground arith

-- The two early returns passed: the result is the fields read.
packet_decode-cases :
    (buf : List ℕ) (r : RawNotif)
    → packet_decode buf ≡ some r
    → (raw_notif_packet_size ≤ length buf)
      × ((byte_at buf 0 ≡ 5) ⊎ (byte_at buf 0 ≡ 6))
      × (read_packet buf ≡ r)
unfolding packet_decode
packet_decode-cases buf r h = elim (Bool-cases (ltb (length buf) raw_notif_packet_size)) [
  | inl short ↦ absurd (no_packet (rw short at h))
  | inr long ↦
      elim (Bool-cases
        (ltb (byte_at buf 0) raw_notif_version_min || ltb raw_notif_version (byte_at buf 0))) [
          | inl old ↦ absurd (no_packet (rw (long, old) at h))
          | inr good ↦ (
            long_enough (length buf) long,
            version_cases (byte_at buf 0) good,
            the_packet (rw (long, good) at h),
          )
        ]
]

-- Whatever its bytes, a packet that decodes has at least 210 bytes and version 5 or 6; its texts have
-- at most 15, 31 and 63 bytes and no NUL inside; it names at most eight segments and its segment table
-- has eight entries; and it speaks for the telemetry, alone or with the navigation.
pub packet_decode-Bounded :
    (buf : List ℕ) (r : RawNotif)
    → packet_decode buf ≡ some r
    → (raw_notif_packet_size ≤ length buf)
      × ((byte_at buf 0 ≡ 5) ⊎ (byte_at buf 0 ≡ 6))
      × (Text 15 r.distance_str × Text 31 r.eta_str × Text 63 r.title_str)
      × (r.segment_count ≤ raw_max_segments)
      × (length r.segments ≡ raw_max_segments)
      × ((r.source_groups ≡ raw_group_telemetry)
          ⊎ (r.source_groups ≡ raw_group_telemetry + raw_group_nav))
unfolding read_packet source_groups_of
packet_decode-Bounded buf r h =
    let (long, version, same) = packet_decode-cases buf r h in
    (
      long,
      version,
      rw (← same) (
        copy_str-Text 15 (drop 19 buf),
        copy_str-Text 31 (drop 35 buf),
        copy_str-Text 63 (drop 67 buf),
      ),
      rw (← same) (count_le (byte_at buf 158)),
      rw (← same) (length-read_segments raw_max_segments buf 0),
      rw (← same) (groups (v6_flag buf 0x02)),
    )

-- A version 5 packet is read as carrying both halves and as not from an iPhone, whatever its flags.
pub packet_decode_version_5 :
    (buf : List ℕ) (r : RawNotif)
    → packet_decode buf ≡ some r
    → byte_at buf 0 ≡ 5
    → (r.source_groups ≡ raw_group_telemetry + raw_group_nav) × (r.source_is_ios ≡ false)
unfolding read_packet source_groups_of v6_flag
packet_decode_version_5 buf r h five =
    let (long, version, same) = packet_decode-cases buf r h in
    rw (← same) (rw five refl, rw five refl)
