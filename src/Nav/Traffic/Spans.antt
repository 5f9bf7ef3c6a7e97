-- ===== src/Nav/Traffic/Spans.antt =====
-- firmware/main/normalize.c, normalize_packet: the traffic table that the pages draw.
use open_apex.Base.{
  length-take_le, length-take_whole, ℕ, zero, suc, ◌≤◌, ◌<◌, ◌≡◌, refl, arith, Bool-cases, inl, inr,
  ◌||◌, ltb, leb, List, [], ◌∷◌, length, take,
}
use open_apex.Packet.{Segment}
use open_apex.Nav.{nav_traffic_max_spans, TrafficSpan}
use open_apex.Nav.Traffic.{spans_from, traffic_spans, normalize_traffic_color}

-- Spans that follow each other without a gap from `start`, each with a length, up to the end of the
-- trip.
abbrev pub Consecutive : ℕ → List TrafficSpan → Type 0
Consecutive start [] = Unit
Consecutive start (s ∷ spans) =
    (s.start_permille ≡ start)
    × (start < s.end_permille)
    × (s.end_permille ≤ 1000)
    × Consecutive s.end_permille spans

-- Each span has the end and the colour of the segment in its place.
abbrev pub Drawn : List Segment → List TrafficSpan → Type 0
Drawn segments [] = Unit
Drawn [] (s ∷ spans) = ⊥
Drawn (g ∷ segments) (s ∷ spans) =
    (s.end_permille ≡ g.end_permille)
    × (s.level ≡ normalize_traffic_color g.r g.g g.b)
    × Drawn segments spans

spans_from-Consecutive :
    (start : ℕ) (segments : List Segment) → Consecutive start (spans_from start segments)
unfolding spans_from
spans_from-Consecutive start [] = tt
spans_from-Consecutive start (s ∷ segments) =
    elim (Bool-cases (leb s.end_permille start || ltb 1000 s.end_permille)) [
      | inl bad ↦ rw bad tt
      | inr good ↦
          rw good (refl, ground arith, ground arith, spans_from-Consecutive s.end_permille segments)
    ]

spans_from-Drawn :
    (start : ℕ) (segments : List Segment) → Drawn segments (spans_from start segments)
unfolding spans_from
spans_from-Drawn start [] = tt
spans_from-Drawn start (s ∷ segments) =
    elim (Bool-cases (leb s.end_permille start || ltb 1000 s.end_permille)) [
      | inl bad ↦ rw bad tt
      | inr good ↦ rw good (refl, refl, spans_from-Drawn s.end_permille segments)
    ]

length-spans_from :
    (start : ℕ) (segments : List Segment) → length (spans_from start segments) ≤ length segments
unfolding spans_from
length-spans_from start [] = omega arith
length-spans_from start (s ∷ segments) = ground (arith, length-spans_from s.end_permille segments)

Drawn-take :
    (n : ℕ) (segments : List Segment) (spans : List TrafficSpan)
    → Drawn (take n segments) spans
    → Drawn segments spans
Drawn-take n segments [] h = tt
Drawn-take zero segments (s ∷ spans) h = elim h [ ]
Drawn-take (suc n) [] (s ∷ spans) h = elim h [ ]
Drawn-take (suc n) (g ∷ segments) (s ∷ spans) (e, l, h) = (e, l, Drawn-take n segments spans h)

-- Whatever the packet's segments are, the spans follow each other without a gap from the start of
-- the trip, each of some length and none past its end, there are at most eight and at most as many
-- as the packet counts, and each has the end and the colour of the segment in its place.
pub traffic_spans-Consecutive :
    (segment_count : ℕ) (segments : List Segment)
    → Consecutive 0 (traffic_spans segment_count segments)
      × (length (traffic_spans segment_count segments) ≤ nav_traffic_max_spans)
      × (length (traffic_spans segment_count segments) ≤ segment_count)
      × Drawn segments (traffic_spans segment_count segments)
unfolding traffic_spans
traffic_spans-Consecutive segment_count segments =
    let reached = take nav_traffic_max_spans (take segment_count segments) in
    (
      spans_from-Consecutive 0 reached,
      omega (
        arith,
        length-spans_from 0 reached,
        length-take_le nav_traffic_max_spans (take segment_count segments),
      ),
      omega (
        arith,
        length-spans_from 0 reached,
        length-take_whole nav_traffic_max_spans (take segment_count segments),
        length-take_le segment_count segments,
      ),
      Drawn-take segment_count segments (spans_from 0 reached) (
          Drawn-take nav_traffic_max_spans (take segment_count segments) (spans_from 0 reached)
            (spans_from-Drawn 0 reached)),
    )
