-- ===== src/Packet/Tests.antt =====
-- A version 5 packet of 210 bytes whose flags would, in version 6, name an iPhone.
use mathlib.Core.Option as O
use open_apex.Base.{
  ℕ, ◌+◌, ◌≡◌, ◌≤◌, ◌⊎◌, refl, false, true, none, some, List, [], ◌∷◌, length, replicate, byte_at,
}
use open_apex.Packet.{
  read_packet, packet_decode, raw_group_nav, raw_group_telemetry, raw_max_segments, RawNotif,
  raw_notif_packet_size,
}
use open_apex.Packet.Merge.{zero_packet, packet_merge_accept}
use open_apex.Packet.Merge.Halves.{
  nav_half, telemetry_half, nav_unknown, telemetry_unknown, speaks, reading,
}
use open_apex.Packet.Merge.History.{
  after, nav_register, telemetry_register, signature, packet_merge_accept-registers,
}
use open_apex.Packet.Bounds.{Text, packet_decode-Bounded}

abbrev packet : List ℕ
packet = 5 ∷ 7 ∷ replicate 208 0x41

packet_decodes : packet_decode packet ≡ some (read_packet packet)
unfolding packet_decode
packet_decodes = refl

packet_decode-Bounded_example :
    (raw_notif_packet_size ≤ length packet)
    × ((byte_at packet 0 ≡ 5) ⊎ (byte_at packet 0 ≡ 6))
    × (Text 15 (read_packet packet).distance_str
        × Text 31 (read_packet packet).eta_str
        × Text 63 (read_packet packet).title_str)
    × ((read_packet packet).segment_count ≤ raw_max_segments)
    × (length (read_packet packet).segments ≡ raw_max_segments)
    × (((read_packet packet).source_groups ≡ raw_group_telemetry)
        ⊎ ((read_packet packet).source_groups ≡ raw_group_telemetry + raw_group_nav))
packet_decode-Bounded_example = packet_decode-Bounded packet (read_packet packet) packet_decodes

-- The phone writes both halves at 1000 and only its telemetry at 20000, after the hold.
abbrev whole : RawNotif
whole = record zero_packet { sequence = 1; distance_str = 0x31 ∷ []; source_groups = 3 }

abbrev ride : RawNotif
ride = record zero_packet { sequence = 2; speed_kmh_x10 = 250; source_groups = raw_group_telemetry }

abbrev earlier : List (RawNotif × ℕ)
earlier = (whole, 1000) ∷ []

packet_merge_accept-registers_example :
    (speaks ride ≡ true
      → let out = (packet_merge_accept (after earlier) ride 20000).1 in
        let h = (ride, 20000) ∷ earlier in
        (O.map nav_half out ≡ some (reading (nav_register h) nav_unknown))
        × (O.map telemetry_half out ≡ some (reading (telemetry_register h) telemetry_unknown))
        × (O.map signature out ≡ some (signature ride)))
    × (speaks ride ≡ false → packet_merge_accept (after earlier) ride 20000 ≡ (after earlier, none))
packet_merge_accept-registers_example = packet_merge_accept-registers earlier ride 20000

-- The stale direction is gone from what is reading.
ride_shows : nav_register ((ride, 20000) ∷ earlier) ≡ none
ride_shows = refl
