-- ===== src/Nav/Traffic.antt =====
-- firmware/main/normalize.c, the traffic along the route: normalize_traffic_color and the spans that
-- normalize_packet draws from the packet's segments.
pub mod Colours
pub mod Spans
use open_apex.Base.{
  ℕ, zero, suc, ◌+◌, ◌-◌, ◌*◌, ◌/◌, ◌%◌, Bool, true, false, ◌||◌, ◌&&◌, ltb, leb, ◌==◌,
  if◌then◌else◌, List, [], ◌∷◌, take,
}
use open_apex.Packet.{Segment}
use open_apex.Nav.{
  nav_traffic_max_spans, TrafficLevel, traffic_unknown, traffic_free, traffic_slow, traffic_heavy,
  traffic_stopped, TrafficSpan,
}

-- `r > g ? (r > b ? r : b) : (g > b ? g : b)`, and the same for the least.
unfoldable pub greatest : ℕ → ℕ → ℕ → ℕ
greatest r g b = if ltb g r then (if ltb b r then r else b) else (if ltb b g then g else b)

unfoldable pub least : ℕ → ℕ → ℕ → ℕ
least r g b = if ltb r g then (if ltb r b then r else b) else (if ltb g b then g else b)

-- `60 * (x - y) / chroma + base`; the quotient of a negative number is towards zero.
unfoldable pub turned : ℕ → ℕ → ℕ → ℕ → ℕ
turned base chroma x y =
    if leb y x then base + 60 * (x - y) / chroma else base - 60 * (y - x) / chroma

unfoldable pub hue_of : ℕ → ℕ → ℕ → ℕ → ℕ → ℕ
unfolding turned
hue_of max chroma r g b =
    if max == r
    then turned 360 chroma g b % 360
    else if max == g
    then turned 120 chroma b r
    else turned 240 chroma r g

unfoldable pub level_of : ℕ → ℕ → TrafficLevel
level_of max hue =
    if leb 80 hue && ltb hue 280
    then traffic_free
    else if leb 18 hue && ltb hue 80
    then traffic_slow
    else if leb 280 hue && ltb hue 330
    then traffic_unknown
    else if leb 0xC0 max
    then traffic_heavy
    else traffic_stopped

unfoldable pub normalize_traffic_color : ℕ → ℕ → ℕ → TrafficLevel
unfolding greatest least hue_of level_of
normalize_traffic_color r g b =
    let max = greatest r g b in
    let chroma = max - least r g b in
    if ltb max 48 || ltb (chroma * 4) max
    then traffic_unknown
    else level_of max (hue_of max chroma r g b)

-- The loop, over the segments that `segment_count` and the room for spans let it reach.
unfoldable pub spans_from : ℕ → List Segment → List TrafficSpan
unfolding normalize_traffic_color
spans_from start [] = []
spans_from start (s ∷ segments) =
    let rest = spans_from s.end_permille segments in
    if leb s.end_permille start || ltb 1000 s.end_permille
    then []
    else record {
      start_permille = start;
      end_permille = s.end_permille;
      level = normalize_traffic_color s.r s.g s.b;
    }
      ∷ rest

unfoldable pub traffic_spans : ℕ → List Segment → List TrafficSpan
unfolding spans_from
traffic_spans segment_count segments =
    spans_from 0 (take nav_traffic_max_spans (take segment_count segments))
