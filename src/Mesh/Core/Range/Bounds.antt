-- ===== src/Mesh/Core/Range/Bounds.antt =====
-- firmware/main/mesh_core.c, `mesh_core_friends_in_range`: which peers the compass gets, and as whom.
use open_apex.Base.{
  ℕ, zero, suc, ◌≤◌, ◌<◌, ◌≡◌, refl, arith, sym, ◌∙◌, Bool, true, false, not, ◌&&◌, Bool-cases,
  true≢false, inl, inr, ◌⊎◌, ◌==◌, leb, if◌then◌else◌, List, [], ◌∷◌, length, get_or, All, sub32,
}
use open_apex.Mesh.Floats.{Floats}
use open_apex.Mesh.Core.{mesh_no_friend, zero_friend, fresh, MeshPeer, MeshCore}
use open_apex.Mesh.Core.Friends.{friend_count}
use open_apex.Mesh.Core.Friends.Invariant.{FriendsValid}
use open_apex.Mesh.Core.Peers.{friend_of}
use open_apex.Mesh.Core.Peers.Links.{Owns, Unowned, LinkValid, LinksValid, friend_of-cases}
use open_apex.Mesh.Core.Range.{
  mesh_offset_show_ms, MeshFriendFix, bearing, shown, in_range, mesh_core_friends_in_range,
}

recent : (a b : ℕ) → leb a b ≡ true → a ≤ b
recent a b h = ground (arith, h)

old : (a b : ℕ) → leb a b ≡ false → b < a
old a b h = ground (arith, h)

module _ ⦃fl : Floats⦄ where
  open fl use {hypotf}

  -- The entry is that peer: a peer in use, with an offset at most thirty seconds old, under the index
  -- of a friend of the list whose key made its pseudonym.
  abbrev pub IsFix : MeshCore → ℕ → MeshPeer → MeshFriendFix → Type 0
  IsFix c now_ms p f =
      (p.used ≡ true)
      × (p.has_off ≡ true)
      × (sub32 now_ms p.off_ms ≤ mesh_offset_show_ms)
      × (f.friend < friend_count c)
      × Owns (get_or c.friends f.friend zero_friend) p.id
      × (f.bearing_deg ≡ bearing p.off_east_m p.off_north_m)
      × (f.dist_m ≡ hypotf p.off_east_m p.off_north_m)

  -- The peer is not drawn: not in use, without an offset, out of date, or no friend.
  abbrev pub Passed : MeshCore → ℕ → MeshPeer → Type 0
  Passed c now_ms p =
      (p.used ≡ false)
      ⊎ (p.has_off ≡ false)
      ⊎ (mesh_offset_show_ms < sub32 now_ms p.off_ms)
      ⊎ Unowned c.friends p.id

  -- The entries for a table of peers, in its order, with room for a number of entries.
  pub data Draws (c : MeshCore) (now_ms : ℕ) : ℕ → List MeshPeer → List MeshFriendFix → Type 0 where
    none_left : {cap : ℕ} → Draws c now_ms cap [] []
    full : {ps : List MeshPeer} → Draws c now_ms 0 ps []
    pass :
        {cap : ℕ} {p : MeshPeer} {ps : List MeshPeer} {fs : List MeshFriendFix}
        → Passed c now_ms p
        → Draws c now_ms cap ps fs
        → Draws c now_ms cap (p ∷ ps) fs
    draw :
        {cap : ℕ} {p : MeshPeer} {f : MeshFriendFix} {ps : List MeshPeer} {fs : List MeshFriendFix}
        → IsFix c now_ms p f
        → Draws c now_ms cap ps fs
        → Draws c now_ms (suc cap) (p ∷ ps) (f ∷ fs)

  parts :
      (a b d e : Bool)
      → (a && b && d && not e) ≡ true
      → (a ≡ true) × (b ≡ true) × (d ≡ true) × (e ≡ false)
  parts a b d e h = ground (arith, h)

  missing :
      (a b d e : Bool)
      → e ≡ false
      → (a && b && d && not e) ≡ false
      → (a ≡ false) ⊎ (b ≡ false) ⊎ (d ≡ false)
  missing a b d e k h = ground (arith, h, k)

  shown-IsFix :
      (c : MeshCore) (now_ms : ℕ) (p : MeshPeer)
      → FriendsValid c
      → LinkValid c p
      → shown c p now_ms ≡ true
      → IsFix c now_ms p (record {
        friend = friend_of c p;
        bearing_deg = bearing p.off_east_m p.off_north_m;
        dist_m = hypotf p.off_east_m p.off_north_m;
      })
  shown-IsFix c now_ms p valid link h =
      let (u, o, l, k) =
        parts p.used p.has_off (fresh now_ms p.off_ms mesh_offset_show_ms)
          (friend_of c p == mesh_no_friend) h in
      elim (friend_of-cases c p valid link) [
        | inl (unknown, unowned) ↦ absurd (true≢false (sym unknown ∙ k))
        | inr (known, lt, owns) ↦
            (u, o, recent (sub32 now_ms p.off_ms) mesh_offset_show_ms l, lt, owns, refl, refl)
      ]

  shown-Passed :
      (c : MeshCore) (now_ms : ℕ) (p : MeshPeer)
      → FriendsValid c
      → LinkValid c p
      → shown c p now_ms ≡ false
      → Passed c now_ms p
  shown-Passed c now_ms p valid link h = elim (friend_of-cases c p valid link) [
    | inl (unknown, unowned) ↦ inr (inr (inr unowned))
    | inr (known, lt, owns) ↦
        elim (missing p.used p.has_off (fresh now_ms p.off_ms mesh_offset_show_ms)
          (friend_of c p == mesh_no_friend) known h) [
            | inl u ↦ inl u
            | inr (inl o) ↦ inr (inl o)
            | inr (inr l) ↦ inr (inr (inl (old (sub32 now_ms p.off_ms) mesh_offset_show_ms l)))
          ]
  ]

  in_range-Draws :
      (c : MeshCore) (now_ms cap : ℕ) (ps : List MeshPeer)
      → FriendsValid c
      → All (LinkValid c) ps
      → Draws c now_ms cap ps (in_range c now_ms cap ps)
  unfolding in_range
  in_range-Draws c now_ms cap [] valid links = none_left
  in_range-Draws c now_ms zero (p ∷ ps) valid links = full
  in_range-Draws c now_ms (suc cap) (p ∷ ps) valid (link, links) =
      elim (Bool-cases (shown c p now_ms)) [
        | inl drawn ↦ rw drawn (
            draw (shown-IsFix c now_ms p valid link drawn)
              (in_range-Draws c now_ms cap ps valid links))
        | inr other ↦ rw other (
            pass (shown-Passed c now_ms p valid link other)
              (in_range-Draws c now_ms (suc cap) ps valid links))
      ]

  Draws-length :
      {c : MeshCore} {now_ms cap : ℕ} {ps : List MeshPeer} {fs : List MeshFriendFix}
      → Draws c now_ms cap ps fs
      → length fs ≤ cap
  Draws-length none_left = omega arith
  Draws-length full = omega arith
  Draws-length (pass h rest) = Draws-length rest
  Draws-length (draw h rest) = omega (arith, Draws-length rest)

  gated :
      (c : MeshCore) (now_ms cap : ℕ) (ps : List MeshPeer) (on : Bool) (fs : List MeshFriendFix)
      → Draws c now_ms cap ps fs
      → (length (if not on then [] else fs) ≤ cap)
        × (on ≡ true → Draws c now_ms cap ps (if not on then [] else fs))
        × (on ≡ false → (if not on then [] else fs) ≡ [])
  gated c now_ms cap ps true fs d = (Draws-length d, (λ e. d), λ off. cc)
  gated c now_ms cap ps false fs d =
      (omega arith, (λ on. absurd (true≢false (sym on))), λ off. refl)

  -- What the compass is given, on a mesh with a valid friend list and with valid cached links: while
  -- the mesh is on, going through the peers in the order of their table, every peer in use that has an
  -- offset at most thirty seconds old and a pseudonym made with the key of a friend, as long as
  -- there is room, and no other peer. Each entry has the index of such a friend, below the number of
  -- friends, and the bearing and distance of the peer's offset, and there are at most as many as
  -- there is room for. While the mesh is off there is none.
  pub mesh_core_friends_in_range-Drawn :
      (c : MeshCore) (now_ms cap : ℕ)
      → FriendsValid c
      → LinksValid c
      → (length (mesh_core_friends_in_range c now_ms cap) ≤ cap)
        × (c.enabled ≡ true → Draws c now_ms cap c.peers (mesh_core_friends_in_range c now_ms cap))
        × (c.enabled ≡ false → mesh_core_friends_in_range c now_ms cap ≡ [])
  unfolding mesh_core_friends_in_range
  mesh_core_friends_in_range-Drawn c now_ms cap valid links =
      gated c now_ms cap c.peers c.enabled (in_range c now_ms cap c.peers)
        (in_range-Draws c now_ms cap c.peers valid links)
