-- ===== src/Nav/Normalize/Model.antt =====
-- firmware/main/normalize.c, normalize_packet: the bounds of what the pages get.
use native.Mathlib.Nat.{div-le_of_le-mul}
use open_apex.Base.{
  length-take_le, ℕ, suc, ◌+◌, ◌-◌, ◌*◌, ◌/◌, ◌^◌, ◌≤◌, ◌<◌, ◌≡◌, ◌⊎◌, refl, arith, false,
  Bool-cases, inl, inr, List, [], length, take,
}
use open_apex.Packet.{RawNotif}
use open_apex.Nav.{nav_u16_unknown, nav_eta_len, nav_traffic_max_spans, NavModel}
use open_apex.Nav.Traffic.Spans.{Consecutive, traffic_spans-Consecutive}
use open_apex.Nav.Distance.{distance_unknown}
use open_apex.Nav.Street.{
  StreetPref, normalize_street_max_len, extract_street, pick_street_name, abbreviate_street,
}
use open_apex.Nav.Street.Fits.{length-truncate_street}
use open_apex.Nav.{nav_street_len}
use open_apex.Nav.Normalize.{
  shorten_eta, eta_from, has_progress, remaining_of, permille_of, normalize_packet,
}

length-shorten_eta :
    (eta : List ℕ) → length eta ≤ nav_eta_len - 1 → length (shorten_eta eta) ≤ nav_eta_len - 1
unfolding shorten_eta
length-shorten_eta eta h =
    let (found, rest) = eta_from (suc (length eta)) false false [] eta in
    elim (Bool-cases found) [
      | inl on ↦ rw on (length-take_le (nav_eta_len - 1) rest)
      | inr off ↦ rw off h
    ]

permille_le :
    (progress progress_max : ℕ) → progress ≤ progress_max → progress * 1000 / progress_max ≤ 1000
permille_le progress progress_max h = div-le_of_le-mul progress_max (omega arith)

-- The trip's progress, known or not.
abbrev pub Trip : RawNotif → NavModel → Type 0
Trip raw m =
    ((m.remaining_meters ≡ distance_unknown) × (m.trip_progress_permille ≡ nav_u16_unknown))
    ⊎ ((raw.progress + m.remaining_meters ≡ raw.progress_max)
        × (raw.progress_max < 2 ^ 31)
        × (m.trip_progress_permille ≤ 1000))

normalize_packet-Trip : (pref : StreetPref) (raw : RawNotif) → Trip raw (normalize_packet pref raw)
unfolding normalize_packet remaining_of permille_of
normalize_packet-Trip pref raw = elim (Bool-cases (has_progress raw.progress raw.progress_max)) [
  | inl known ↦
      let ordered : raw.progress ≤ raw.progress_max = ground (arith, known) in
      let small : raw.progress_max < 2 ^ 31 = ground (arith, known) in
      let bound = permille_le raw.progress raw.progress_max ordered in
      rw known (inr (omega (arith, ordered), small, omega (arith, bound)))
  | inr unknown ↦ rw unknown (inl (refl, refl))
]

-- Whatever packet arrives, the street fits its eighteen characters and the arrival time its 31, the
-- traffic spans follow each other from the start of the trip and are at most eight, and either the
-- trip is unknown in both fields, or what is left and what is done make the whole and the share
-- done is at most 1000 per mille.
pub normalize_packet-Bounded :
    (pref : StreetPref) (raw : RawNotif)
    → let m = normalize_packet pref raw in
      (length m.street_name ≤ normalize_street_max_len)
      × (length m.eta ≤ nav_eta_len - 1)
      × Consecutive 0 m.traffic
      × (length m.traffic ≤ nav_traffic_max_spans)
      × Trip raw m
unfolding normalize_packet
normalize_packet-Bounded pref raw =
    let (consecutive, room, counted, drawn) =
      traffic_spans-Consecutive raw.segment_count raw.segments in
    (
      length-truncate_street
          (abbreviate_street (pick_street_name pref (extract_street raw.title_str nav_street_len))),
      length-shorten_eta (take (nav_eta_len - 1) raw.eta_str)
          (length-take_le (nav_eta_len - 1) raw.eta_str),
      consecutive,
      room,
      normalize_packet-Trip pref raw,
    )
