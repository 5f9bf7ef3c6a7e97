-- ===== src/Mesh/Core/Range.antt =====
-- firmware/main/mesh_core.c, `mesh_core_friends_in_range`: what the compass draws, and mesh_geo of
-- mesh_proto.c, which measures in the same way. With it the tests
-- and the rank of the card of riders nearby; the sorting of that card is not modelled.
pub mod Bounds
use open_apex.Base.{
  ℕ, zero, suc, ◌+◌, ◌-◌, ◌≡◌, ◌≤◌, refl, arith, Bool, true, false, not, ◌||◌, ◌&&◌, Bool-cases,
  inl, inr, leb, ◌==◌, if◌then◌else◌, List, [], ◌∷◌, length,
}
use open_apex.Mesh.Floats.{Floats}
use open_apex.Mesh.Core.{mesh_no_friend, req_sent, hs_eq, fresh, MeshPeer, MeshCore}
use open_apex.Mesh.Core.Peers.{friend_of}
use open_apex.Mesh.Core.Position.{mesh_offset}
use open_apex.Mesh.Core.Menu.{mesh_core_peer_waiting, mesh_peer_timeout_ms}

abbrev pub mesh_offset_show_ms : ℕ
mesh_offset_show_ms = 30000

module _ ⦃fl : Floats⦄ where
  open fl use {
    Float, Double, float_lit, float_of_i8, float_neg, float_le, float_of_double, hypotf, double_lit,
    double_of_float, double_add, double_mul, double_div, double_lt, atan2,
  }

  -- The friend is an index of the list.
  pub record MeshFriendFix : Type 0 where
    pub friend : ℕ
    pub bearing_deg : Float
    pub dist_m : Float

  pub bearing : Float → Float → Float
  bearing east_m north_m =
      let b =
        double_div
          (double_mul (atan2 (double_of_float east_m) (double_of_float north_m)) (double_lit 180 0))
          (double_lit 314159265358979323846 20) in
      float_of_double (if double_lt b (double_lit 0 0) then double_add b (double_lit 360 0) else b)

  -- Bearing and distance, in this order.
  pub mesh_geo : ℕ → ℕ → ℕ → ℕ → Float × Float
  unfolding bearing
  mesh_geo a_lat a_lon b_lat b_lon =
      let o = mesh_offset a_lat a_lon b_lat b_lon in
      (bearing o.east_m o.north_m, hypotf o.east_m o.north_m)

  abbrev pub shown : MeshCore → MeshPeer → ℕ → Bool
  shown c p now_ms =
      p.used
      && p.has_off
      && fresh now_ms p.off_ms mesh_offset_show_ms
      && not (friend_of c p == mesh_no_friend)

  -- The loop, with room for `cap` entries.
  pub in_range : MeshCore → ℕ → ℕ → List MeshPeer → List MeshFriendFix
  unfolding bearing
  in_range c now_ms cap [] = []
  in_range c now_ms zero (p ∷ ps) = []
  in_range c now_ms (suc cap) (p ∷ ps) =
      let without = in_range c now_ms (suc cap) ps in
      let rest = in_range c now_ms cap ps in
      if shown c p now_ms
      then record {
        friend = friend_of c p;
        bearing_deg = bearing p.off_east_m p.off_north_m;
        dist_m = hypotf p.off_east_m p.off_north_m;
      }
        ∷ rest
      else without

  pub mesh_core_friends_in_range : MeshCore → ℕ → ℕ → List MeshFriendFix
  unfolding in_range
  mesh_core_friends_in_range c now_ms cap =
      if not c.enabled then [] else in_range c now_ms cap c.peers

  pub candidate_ok : MeshCore → MeshPeer → ℕ → Bool
  candidate_ok c p now_ms =
      if not p.used
        || not (fresh now_ms p.heard_ms mesh_peer_timeout_ms)
        || not (friend_of c p == mesh_no_friend)
      then false
      else if mesh_core_peer_waiting p || hs_eq p.hs req_sent
      then true
      else if not p.has_look || not p.public_look
      then false
      else not p.has_rssi || float_le (float_of_i8 c.pair_min_rssi) p.rssi_dbm

  pub card_rank : MeshPeer → Float
  card_rank p =
      if mesh_core_peer_waiting p
      then float_lit 1000 0
      else if p.has_rssi
      then p.rssi_dbm
      else float_neg (float_lit 1000 0)
