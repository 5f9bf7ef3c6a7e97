-- ===== src/Mesh/Core/Position.antt =====
-- firmware/main/mesh_core.c and mesh_proto.c, signal strength and position: the smoothed RSSI, our
-- own fix at an earlier time, and the smoothed offset to a friend. The arithmetic is that of the
-- `Floats` interface, in the order of the code.
use open_apex.Base.{
  ℕ, ◌-◌, ◌^◌, Bool, true, not, ◌||◌, ◌&&◌, ltb, ◌==◌, if◌then◌else◌, Option, none, some, List, [],
  ◌∷◌, length, get_or, drop, ◌++◌, sub32,
}
use open_apex.Mesh.Proto.{MeshPos}
use open_apex.Mesh.Floats.{Floats}
use open_apex.Mesh.Core.{fresh, mesh_own_fixes, MeshFix, MeshPeer, MeshCore}

-- INT8_MIN.
abbrev pub mesh_rssi_unknown : ℕ
mesh_rssi_unknown = 128

abbrev pub mesh_own_pos_max_age_ms : ℕ
mesh_own_pos_max_age_ms = 5000

abbrev pub mesh_offset_max_age_ms : ℕ
mesh_offset_max_age_ms = 5000

-- `(int32_t)(a - b) > 0`.
abbrev later : ℕ → ℕ → Bool
later a b = not (a == b) && ltb (sub32 a b) (2 ^ 31)

abbrev zero_fix : MeshFix
zero_fix = record { lat_e7 = 0; lon_e7 = 0; t_ms = 0 }

module _ ⦃fl : Floats⦄ where
  open fl use {
    Float, Double, float_lit, float_of_i8, float_of_u32, float_of_double, float_neg, float_add,
    float_sub, float_mul, float_div, float_lt, expf, double_lit, double_of_i32, double_of_u32,
    i32_of_double, double_neg, double_add, double_sub, double_mul, double_div, double_lt, double_le,
    cos,
  }

  -- ema.h.
  pub ema_alpha : Float → Float → Float
  ema_alpha dt_s tau_s =
      if float_lt (float_lit 0 0) dt_s
      then float_sub (float_lit 1 0) (expf (float_div (float_neg dt_s) tau_s))
      else float_lit 1 0

  pub ema_blend : Float → Float → Float → Float
  ema_blend prev sample alpha =
      float_add (float_mul prev (float_sub (float_lit 1 0) alpha)) (float_mul sample alpha)

  pub note_rssi : MeshPeer → ℕ → MeshPeer
  note_rssi p rssi = if rssi == mesh_rssi_unknown then p else record p {
    rssi_dbm =
        if p.has_rssi
        then float_add p.rssi_dbm
            (float_mul (float_lit 3 1) (float_sub (float_of_i8 rssi) p.rssi_dbm))
        else float_of_i8 rssi;
    has_rssi = true;
  }

  pub record Offset : Type 0 where
    pub east_m : Float
    pub north_m : Float

  -- `mesh_offset`, the wrapped difference of longitudes first.
  pub wrap_lon : Double → Double
  wrap_lon dlon =
      let down =
        if double_le (double_lit 180 0) dlon then double_sub dlon (double_lit 360 0) else dlon in
      if double_lt down (double_neg (double_lit 180 0))
      then double_add down (double_lit 360 0)
      else down

  pub mesh_offset : ℕ → ℕ → ℕ → ℕ → Offset
  unfolding wrap_lon
  mesh_offset a_lat a_lon b_lat b_lon =
      let earth = double_lit 6371000 0 in
      let deg = double_div (double_lit 314159265358979323846 20) (double_lit 180 0) in
      let lat_mid =
        double_mul
          (double_mul (double_add (double_of_i32 a_lat) (double_of_i32 b_lat)) (double_lit 5 8))
          deg in
      let dlon =
        wrap_lon
          (double_mul (double_sub (double_of_i32 b_lon) (double_of_i32 a_lon)) (double_lit 1 7)) in
      record {
        east_m =
            float_of_double (double_mul (double_mul (double_mul dlon deg) (cos lat_mid)) earth);
        north_m = float_of_double (
            double_mul
              (double_mul
                (double_mul (double_sub (double_of_i32 b_lat) (double_of_i32 a_lat))
                  (double_lit 1 7))
                deg)
              earth);
      }

  pub record Place : Type 0 where
    pub lat : Double
    pub lon : Double

  place_of : MeshFix → Place
  place_of f = record { lat = double_of_i32 f.lat_e7; lon = double_of_i32 f.lon_e7 }

  -- Between two neighbouring fixes.
  between : MeshFix → MeshFix → ℕ → Place
  between f g t_ms =
      let span = sub32 g.t_ms f.t_ms in
      let frac =
        if span == 0
        then double_lit 1 0
        else double_div (double_of_u32 (sub32 t_ms f.t_ms)) (double_of_u32 span) in
      record {
        lat =
            double_add (double_of_i32 f.lat_e7)
              (double_mul (double_sub (double_of_i32 g.lat_e7) (double_of_i32 f.lat_e7)) frac);
        lon =
            double_add (double_of_i32 f.lon_e7)
              (double_mul (double_sub (double_of_i32 g.lon_e7) (double_of_i32 f.lon_e7)) frac);
      }

  -- The loop: `f` is the fix at `i`, the list the fixes behind it.
  own_between : MeshFix → List MeshFix → ℕ → Place
  unfolding between place_of
  own_between f [] t_ms = place_of f
  own_between f (g ∷ gs) t_ms =
      let rest = own_between g gs t_ms in if later t_ms g.t_ms then rest else between f g t_ms

  pub own_at : List MeshFix → ℕ → Option Place
  unfolding own_between place_of
  own_at [] t_ms = none
  own_at (f ∷ fs) t_ms =
      some (if not (later t_ms f.t_ms) then place_of f else own_between f fs t_ms)

  -- The smoothing at the end of `update_offset`.
  blend_offset : MeshPeer → Offset → ℕ → MeshPeer
  unfolding ema_alpha ema_blend
  blend_offset p o now_ms =
      let raw = float_div (float_of_u32 (sub32 now_ms p.off_ms)) (float_lit 1000 0) in
      let dt_s = if float_lt (float_lit 5 0) raw then float_lit 5 0 else raw in
      let alpha = ema_alpha dt_s (float_lit 3 0) in
      let smooth =
        if not p.has_off || not (fresh now_ms p.off_ms mesh_offset_max_age_ms)
        then record p { off_east_m = o.east_m; off_north_m = o.north_m }
        else record p {
          off_east_m = ema_blend p.off_east_m o.east_m alpha;
          off_north_m = ema_blend p.off_north_m o.north_m alpha;
        } in
      record smooth { has_off = true; off_ms = now_ms }

  -- The newest of our fixes, if there is one and it is recent.
  recent_fix : List MeshFix → ℕ → Bool
  recent_fix fixes now_ms =
      not (length fixes == 0)
      && fresh now_ms (get_or fixes (length fixes - 1) zero_fix).t_ms mesh_own_pos_max_age_ms

  pub update_offset : MeshCore → MeshPeer → MeshPos → ℕ → ℕ → MeshPeer
  unfolding own_at mesh_offset blend_offset recent_fix
  update_offset c p pos age_ms now_ms =
      if not (recent_fix c.fixes now_ms) || ltb mesh_own_pos_max_age_ms age_ms
      then p
      else elim (own_at c.fixes (sub32 now_ms age_ms)) [
        | none ↦ p
        | some here ↦
            blend_offset p
              (mesh_offset (i32_of_double here.lat) (i32_of_double here.lon) pos.lat_e7 pos.lon_e7)
              now_ms
      ]

  -- `mesh_core_set_own_pos`: the history keeps the last six fixes, the newest last.
  pub mesh_core_set_own_pos : MeshCore → MeshPos → ℕ → MeshCore
  mesh_core_set_own_pos c pos now_ms =
      let kept = if length c.fixes == mesh_own_fixes then drop 1 c.fixes else c.fixes in
      record c {
        own_pos = pos;
        own_pos_ms = now_ms;
        has_own_pos = true;
        fixes = kept ++ (record { lat_e7 = pos.lat_e7; lon_e7 = pos.lon_e7; t_ms = now_ms } ∷ []);
      }
