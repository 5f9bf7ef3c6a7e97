-- ===== src/Mesh/Core/Peers.antt =====
-- firmware/main/mesh_core.c, peers: the table of terminals heard, and whose pseudonym is a friend's.
pub mod Laws
pub mod Links
use open_apex.Base.{
  ℕ, zero, suc, ◌+◌, Bool, true, false, not, ◌||◌, ◌&&◌, ltb, ◌==◌, if◌then◌else◌, Option, none,
  some, List, [], ◌∷◌, set, sub32,
}
use open_apex.Mesh.Crypto.{mesh_pseudonym_match}
use open_apex.Mesh.Floats.{Floats}
use open_apex.Mesh.Core.{
  mesh_no_friend, mesh_look_push_tries, id_eq, MeshPeer, blank_peer, MeshCore, peer_at, put_peer,
}

-- The loop over the tag keys.
pub resolve_from : ℕ → List (List ℕ) → List ℕ → ℕ
resolve_from i [] pseudonym = mesh_no_friend
resolve_from i (k ∷ ks) pseudonym =
    let rest = resolve_from (i + 1) ks pseudonym in
    if mesh_pseudonym_match k pseudonym then i else rest

module _ ⦃fl : Floats⦄ where
  unfoldable pub find_from : ℕ → List MeshPeer → List ℕ → Option ℕ
  find_from i [] id = none
  find_from i (p ∷ ps) id =
      let rest = find_from (i + 1) ps id in if p.used && id_eq p.id id then some i else rest

  -- The pointer that the code returns is an index, `none` its NULL.
  unfoldable pub peer_find : MeshCore → List ℕ → Option ℕ
  unfolding find_from
  peer_find c id = find_from 0 c.peers id

  -- The loop that picks a slot: the first unused one, else the longest silent. `best` and `heard`
  -- are the peer that `p` points to so far.
  pub pick_slot : ℕ → ℕ → ℕ → ℕ → List MeshPeer → ℕ
  pick_slot now_ms i best heard [] = best
  pick_slot now_ms i best heard (q ∷ qs) =
      let longer = ltb (sub32 now_ms heard) (sub32 now_ms q.heard_ms) in
      let rest =
        pick_slot now_ms (i + 1) (if longer then i else best) (if longer then q.heard_ms else heard)
          qs in
      if not q.used then i else rest

  pub peer_touch : MeshCore → List ℕ → ℕ → MeshCore × ℕ
  unfolding peer_find pick_slot
  peer_touch c id now_ms = elim (peer_find c id) [
    | some i ↦ (put_peer c i (record (peer_at c i) { heard_ms = now_ms }), i)
    | none ↦
        let i = pick_slot now_ms 0 0 (peer_at c 0).heard_ms c.peers in
        (
          put_peer c i (record blank_peer {
            used = true;
            friend_idx = mesh_no_friend;
            id = id;
            heard_ms = now_ms;
          }),
          i,
        )
  ]

  -- The index of the friend who owns a pseudonym, or `mesh_no_friend`.
  pub resolve : MeshCore → List ℕ → ℕ
  unfolding resolve_from
  resolve c pseudonym = resolve_from 0 c.tag_keys pseudonym

  pub friend_of : MeshCore → MeshPeer → ℕ
  friend_of c p =
      if p.resolved && p.resolved_gen == c.friends_generation then p.friend_idx else resolve c p.id

  -- The first half of `peer_friend`: the cached link is refreshed when the list has changed.
  refresh_link : MeshCore → MeshPeer → MeshPeer
  refresh_link c p =
      let idx = resolve c p.id in
      if p.resolved && p.resolved_gen == c.friends_generation then p else record p {
        friend_idx = idx;
        resolved_gen = c.friends_generation;
        resolved = true;
        announced = if idx == mesh_no_friend then false else p.announced;
      }

  -- The second: a friend who has just come into range is owed our look.
  pub peer_friend : MeshCore → ℕ → MeshCore × ℕ
  unfolding refresh_link
  peer_friend c i =
      let p = refresh_link c (peer_at c i) in
      if not (p.friend_idx == mesh_no_friend) && not p.announced
      then (
        record (put_peer c i (record p { announced = true })) {
          look_push_left = mesh_look_push_tries;
        },
        p.friend_idx,
      )
      else (put_peer c i p, p.friend_idx)
