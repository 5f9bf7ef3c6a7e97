-- ===== src/Nav/Traffic/Colours.antt =====
-- firmware/main/normalize.c, normalize_traffic_color: what each level says of the colour.
use native.Mathlib.Nat.{div-le_of_le-mul}
use open_apex.Base.{
  ◌⊎◌, ◌≢◌, ℕ, ◌+◌, ◌-◌, ◌*◌, ◌/◌, ◌≤◌, ◌<◌, ◌≡◌, arith, ◌||◌, Bool-cases, inl, inr, ltb,
}
use open_apex.Nav.{
  TrafficLevel, traffic_unknown, traffic_free, traffic_slow, traffic_heavy, traffic_stopped,
}
use open_apex.Nav.Traffic.{greatest, least, turned, hue_of, level_of, normalize_traffic_color}

-- A sixth of the circle at most.
sixth : (x y chroma : ℕ) → x - y ≤ chroma → 60 * (x - y) / chroma ≤ 60
sixth x y chroma h = div-le_of_le-mul chroma (omega arith)

-- What each level says of the three components.
abbrev pub Says : TrafficLevel → ℕ → ℕ → ℕ → Type 0
Says traffic_unknown r g b = Unit
Says traffic_free r g b = (r < g) ⊎ (r < b)
Says traffic_slow r g b = (b ≤ r) × (b ≤ g)
Says traffic_heavy r g b = (g ≤ r) × (b ≤ r) × (0xC0 ≤ r)
Says traffic_stopped r g b = (g ≤ r) × (b ≤ r) × (r < 0xC0)

red_hue :
    (chroma r g b : ℕ)
    → g - b ≤ chroma
    → b - g ≤ chroma
    → ((hue_of r chroma r g b ≤ 60) × (b ≤ g))
      ⊎ (300 ≤ hue_of r chroma r g b)
      ⊎ (hue_of r chroma r g b ≡ 0)
unfolding hue_of turned
red_hue chroma r g b h k = ground (arith, sixth g b chroma h, sixth b g chroma k)

green_hue :
    (max chroma r g b : ℕ)
    → max ≢ r
    → max ≡ g
    → b - r ≤ chroma
    → r - b ≤ chroma
    → (60 ≤ hue_of max chroma r g b)
      × (hue_of max chroma r g b ≤ 180)
      × (hue_of max chroma r g b < 120 → b ≤ r)
unfolding hue_of turned
green_hue max chroma r g b n e h k = ground (arith, sixth b r chroma h, sixth r b chroma k)

blue_hue :
    (max chroma r g b : ℕ)
    → max ≢ r
    → max ≢ g
    → r - g ≤ chroma
    → g - r ≤ chroma
    → (180 ≤ hue_of max chroma r g b) × (hue_of max chroma r g b ≤ 300)
unfolding hue_of turned
blue_hue max chroma r g b n e h k = ground (arith, sixth r g chroma h, sixth g r chroma k)

greatest_lem :
    (r g b : ℕ)
    → (r ≤ greatest r g b)
      × (g ≤ greatest r g b)
      × (b ≤ greatest r g b)
      × ((greatest r g b ≡ r) ⊎ (greatest r g b ≡ g) ⊎ (greatest r g b ≡ b))
unfolding greatest
greatest_lem r g b = ground arith

least_lem : (r g b : ℕ) → (least r g b ≤ r) × (least r g b ≤ g) × (least r g b ≤ b)
unfolding least
least_lem r g b = ground arith

-- The level of a hue, by which component is the greatest.
level_red :
    (hue r g b : ℕ)
    → g ≤ r
    → b ≤ r
    → ((hue ≤ 60) × (b ≤ g)) ⊎ (300 ≤ hue) ⊎ (hue ≡ 0)
    → Says (level_of r hue) r g b
unfolding level_of
level_red hue r g b h k l = ground arith

level_green :
    (max hue r g b : ℕ)
    → r < g
    → b ≤ g
    → 60 ≤ hue
    → hue ≤ 180
    → (hue < 120 → b ≤ r)
    → Says (level_of max hue) r g b
unfolding level_of
level_green max hue r g b h k l m n = ground (arith, n)

level_blue : (max hue r g b : ℕ) → r < b → 180 ≤ hue → hue ≤ 300 → Says (level_of max hue) r g b
unfolding level_of
level_blue max hue r g b h k l = ground arith

dec_eq : (a b : ℕ) → (a ≡ b) ⊎ (a ≢ b)
dec_eq a b = ground arith

level_of-Says :
    (max chroma r g b : ℕ)
    → r ≤ max
    → g ≤ max
    → b ≤ max
    → (max ≡ r) ⊎ (max ≡ g) ⊎ (max ≡ b)
    → max ≤ chroma + r
    → max ≤ chroma + g
    → max ≤ chroma + b
    → Says (level_of max (hue_of max chroma r g b)) r g b
level_of-Says max chroma r g b hr hg hb top lr lg lb = elim (dec_eq max r) [
  | inl e ↦ rw e (
      level_red (hue_of r chroma r g b) r g b (omega arith) (omega arith)
        (red_hue chroma r g b (omega arith) (omega arith)))
  | inr n ↦ elim (dec_eq max g) [
    | inl e ↦
        let (low, high, side) = green_hue max chroma r g b n e (omega arith) (omega arith) in
        level_green max (hue_of max chroma r g b) r g b (omega (arith, e, n)) (omega arith) low high
          side
    | inr m ↦
        let (low, high) = blue_hue max chroma r g b n m (omega arith) (omega arith) in
        level_blue max (hue_of max chroma r g b) r g b (ground (arith, n, m, top)) low high
  ]
]

-- A free road is never shown for a colour in which red is the greatest component, a slow one only
-- where blue is the least, heavy and stopped traffic only where red is the greatest, heavy from
-- 0xC0 on and stopped below.
pub normalize_traffic_color-Says : (r g b : ℕ) → Says (normalize_traffic_color r g b) r g b
unfolding normalize_traffic_color
normalize_traffic_color-Says r g b =
    let max = greatest r g b in
    let chroma = max - least r g b in
    let (hr, hg, hb, top) = greatest_lem r g b in
    let (lr, lg, lb) = least_lem r g b in
    elim (Bool-cases (ltb max 48 || ltb (chroma * 4) max)) [
      | inl grey ↦ rw grey tt
      | inr vivid ↦ rw vivid (
          level_of-Says max chroma r g b hr hg hb top (omega (arith, lr)) (omega (arith, lg))
            (omega (arith, lb)))
    ]
