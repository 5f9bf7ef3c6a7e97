-- ===== src/Ancs/Tests.antt =====
-- Two notifications announced while the first is being fetched, and its response in three pieces.
use open_apex.Base.{
  take, drop, ℕ, ◌≡◌, ◌↔◌, refl, arith, true, false, inl, some, List, [], ◌∷◌, replicate,
}
use mathlib.Core.Option as O
use open_apex.Ancs.{Notification}
use open_apex.Ancs.Navigation.{skip_tabs, any_unit, states_unit, after_unit, skip_number}
use open_apex.Nav.Distance.{skip_separators}
use open_apex.Nav.Text.{tolower}
use open_apex.Packet.{RawNotif, raw_group_telemetry}
use open_apex.Packet.Merge.{zero_packet, packet_merge_telemetry_hold_ms, packet_merge_accept}
use open_apex.Packet.Merge.Halves.{nav_half, telemetry_half, telemetry_unknown, keep, reading}
use open_apex.Packet.Merge.History.{after, telemetry_register}
use open_apex.Ancs.Navigation.{
  NavDate, bare_packet, lines_of, line_states_distance, ancs_nav_to_raw, ancs_nav_parse_date,
  digits, digits_from,
}
use open_apex.Ancs.Navigation.Dates.{written, IsDate, ancs_nav_parse_date-written}
use open_apex.Ancs.Navigation.Lines.{ancs_nav_to_raw-merged}
use open_apex.Ancs.{
  store, ancs_requested_attr_count, blank_notification, parse_attributes, parse_complete,
}
use open_apex.Ancs.Parse.{Answers, Attribute, response, told}
use open_apex.Ancs.Parse.Whole.{parse_attributes-response}
use open_apex.Ancs.Core.{
  AncsCore, Output, to_notification, ancs_core_init, fill, tracked_at,
  ancs_core_on_notification_source, ancs_core_on_data_source, waiting_from,
}
use open_apex.Ancs.Core.Reassembly.{feed, untapped, ancs_core_on_data_source-split}
use open_apex.Ancs.Core.Pending.{Served, waits}
use open_apex.Ancs.Core.Reached.{started, noticed, Reached-Served}
use open_apex.Ancs.Core.Stranded.{writes, on_notification_source-strands}
use open_apex.Ancs.Core.Refused.{GivenUp, ancs_core_on_data_source-GivenUp}

abbrev attribute : ℕ → List ℕ → Attribute
attribute i v = record { id = i; value = v }

-- The message first and an attribute that was not asked for between.
abbrev answer : List Attribute
answer =
    attribute 3 (0x35 ∷ 0x30 ∷ 0x6D ∷ [])
    ∷ attribute 0 (0x63 ∷ [])
    ∷ attribute 4 (0x33 ∷ [])
    ∷ attribute 1 (0x4C ∷ [])
    ∷ attribute 2 []
    ∷ attribute 5 []
    ∷ []

fits : Answers ancs_requested_attr_count answer
fits = (omega arith, (omega arith, (omega arith, (omega arith, (omega arith, (omega arith, tt))))))

parse_attributes-response_example :
    parse_attributes true (response 7 answer)
    ≡ parse_complete (told (record blank_notification { uid = 7 }) answer) 29
parse_attributes-response_example = parse_attributes-response 7 answer (omega arith) fits

abbrev added_7 : List ℕ
added_7 = 0 ∷ 0 ∷ 10 ∷ 1 ∷ 7 ∷ 0 ∷ 0 ∷ 0 ∷ []

abbrev added_9 : List ℕ
added_9 = 0 ∷ 0 ∷ 10 ∷ 1 ∷ 9 ∷ 0 ∷ 0 ∷ 0 ∷ []

abbrev removed_7 : List ℕ
removed_7 = 2 ∷ 0 ∷ 10 ∷ 1 ∷ 7 ∷ 0 ∷ 0 ∷ 0 ∷ []

abbrev asking : AncsCore
asking = (ancs_core_on_notification_source (ancs_core_init true true) added_7).0

abbrev both : AncsCore
both = (ancs_core_on_notification_source asking added_9).0

both_waits : waiting_from 0 both.tracked ≡ some 1
unfolding ancs_core_on_notification_source ancs_core_init waiting_from
both_waits = refl

asking_active : asking.request_active ≡ true
unfolding ancs_core_on_notification_source ancs_core_init
asking_active = refl

abbrev pieces : List (List ℕ)
pieces =
    take 4 (response 7 answer)
    ∷ take 9 (drop 4 (response 7 answer))
    ∷ drop 13 (response 7 answer)
    ∷ []

ancs_core_on_data_source-split_example :
    let n = told (record blank_notification { uid = 7 }) answer in
    ((feed asking pieces).0 ≡ (feed asking (response 7 answer ∷ [])).0)
    × ((feed asking pieces).1 ≡ true)
    × (untapped (feed asking pieces).2 ≡ untapped (feed asking (response 7 answer ∷ [])).2)
    × ((rest : List Output) × (untapped (feed asking pieces).2
          ≡ to_notification (fill asking.tracked n) false ∷ rest))
unfolding ancs_core_on_notification_source ancs_core_init
ancs_core_on_data_source-split_example =
    ancs_core_on_data_source-split asking 7 answer pieces (omega arith) fits (omega arith) refl refl
      refl refl

Reached-Served_example : Served both
unfolding ancs_core_on_notification_source ancs_core_init
Reached-Served_example =
    Reached-Served both
      (noticed asking added_9 refl (noticed (ancs_core_init true true) added_7 refl (started true)))

on_notification_source-strands_example :
    let (d, ok, outs) = ancs_core_on_notification_source both removed_7 in
    (d.request_active ≡ false) × (waits (tracked_at d.tracked 1) ≡ true) × (writes outs ≡ false)
unfolding ancs_core_on_notification_source ancs_core_init
on_notification_source-strands_example =
    on_notification_source-strands both removed_7 1 (omega arith) refl refl (ground arith)

-- 449 bytes are more than the buffer holds.
ancs_core_on_data_source-GivenUp_example :
    let (d, ok, outs) = ancs_core_on_data_source both (0 ∷ replicate 448 0) in
    (ok ≡ false) × GivenUp both d outs
unfolding ancs_core_on_notification_source ancs_core_init
ancs_core_on_data_source-GivenUp_example =
    ancs_core_on_data_source-GivenUp both 0 (replicate 448 0) refl (inl (omega arith))

abbrev new_year : NavDate
new_year = record { year = 2026; month = 1; day = 31; hour = 23; minute = 5; second = 59 }

-- "20260131T230559Z", with a zone behind the shape.
abbrev stamp : List ℕ
stamp = written new_year (b'Z' ∷ [])

stamp_reads : ancs_nav_parse_date stamp ≡ some new_year
unfolding ancs_nav_parse_date digits digits_from
stamp_reads = refl

ancs_nav_parse_date-written_example :
    (ancs_nav_parse_date stamp ≡ some new_year)
    ↔ IsDate new_year × (stamp ≡ written new_year (drop 15 stamp))
ancs_nav_parse_date-written_example = ancs_nav_parse_date-written stamp new_year

-- The distance stands in the message, as in the answer above.
abbrev notice : Notification
notice = told (record blank_notification { uid = 7 }) answer

abbrev notice_packet : RawNotif
notice_packet = record (bare_packet 4) {
  title_str = 0x4C ∷ [];
  distance_str = 0x35 ∷ 0x30 ∷ 0x6D ∷ [];
}

notice_becomes : ancs_nav_to_raw notice 4 ≡ some notice_packet
unfolding ancs_nav_to_raw store lines_of line_states_distance skip_tabs any_unit states_unit
    after_unit skip_separators skip_number tolower
notice_becomes = refl

-- The speed that the companion app sent two seconds before.
abbrev earlier_ride : List (RawNotif × ℕ)
earlier_ride =
    (record zero_packet { speed_kmh_x10 = 500; source_groups = raw_group_telemetry }, 1000) ∷ []

ancs_nav_to_raw-merged_example :
    let out = (packet_merge_accept (after earlier_ride) notice_packet 3000).1 in
    (O.map nav_half out ≡ some (nav_half notice_packet))
    × (O.map telemetry_half out
        ≡ some (
            reading
              (keep packet_merge_telemetry_hold_ms 3000 (telemetry_register earlier_ride))
              telemetry_unknown))
ancs_nav_to_raw-merged_example =
    ancs_nav_to_raw-merged earlier_ride notice 4 notice_packet 3000 notice_becomes
