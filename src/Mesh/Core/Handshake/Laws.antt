-- ===== src/Mesh/Core/Handshake/Laws.antt =====
-- firmware/main/mesh_core.c, handshake: the steps that leave the friend list alone, and what storing
-- a key does to it.
use open_apex.Base.{
  ℕ, bytes_eq, set, u32, ◌+◌, [], ◌<◌, length, get_or, refl, not, ◌&&◌, inl, inr, ◌==◌,
  if◌then◌else◌, Option-cases, List, Bool-cases,
}
use open_apex.Mesh.Crypto.{mesh_tag_key}
use open_apex.Mesh.Records.{MeshFriend}
use open_apex.Mesh.Floats.{Floats}
use open_apex.Mesh.Core.{
  zero_friend, added, updated, zero_look, Hs, mesh_no_friend, hs_none, req_sent, req_recv,
  accept_sent, keys_sent, hs_eq, waiting, prompt_none, prompt_eq, id_eq, MeshPeer, MeshCore,
  peer_at,
}
use open_apex.Mesh.Core.Peers.{peer_find, peer_friend}
use open_apex.Mesh.Core.Peers.Laws.{Same, if-Same, Same-trans, peer_friend-Same}
use open_apex.Mesh.Core.Friends.Invariant.{FriendsValid, set-Valid, find-cases, friend_ops-Valid}
use open_apex.Mesh.Core.Friends.{push_event, mesh_core_friend_upsert}
use open_apex.Mesh.Core.Friends.Events.{push_event-friends, push_event-tag_keys}
use open_apex.Mesh.Core.Handshake.{
  open_offer, complete, store_keys, show_done, update_key, add_friend, answer_request, on_request,
  lapse, close_prompt,
}

module _ ⦃fl : Floats⦄ where
  pub lapse-Same : (c : MeshCore) (i : ℕ) → Same c (lapse c i)
  unfolding lapse
  lapse-Same c i =
      if-Same c _ _ (prompt_eq c.prompt waiting && id_eq c.prompt_id (peer_at c i).id) (refl, refl)
        (refl, refl)

  pub close_prompt-Same : (c : MeshCore) → Same c (close_prompt c)
  unfolding close_prompt
  close_prompt-Same c = elim (Option-cases (peer_find c c.prompt_id)) [
    | inl e ↦ rw (e, close_prompt) (refl, refl)
    | inr (i, e) ↦ rw (e, close_prompt) (refl, refl)
  ]

  answer_request-Same :
      (c : MeshCore) (i : ℕ) (p : MeshPeer) (hs : Hs) (now_ms : ℕ)
      → Same c (answer_request c i p hs now_ms)
  unfolding answer_request open_offer
  answer_request-Same c i p req_sent now_ms = (refl, refl)
  answer_request-Same c i p hs_none now_ms = if-Same c _ _ _ (refl, refl) (refl, refl)
  answer_request-Same c i p req_recv now_ms = (refl, refl)
  answer_request-Same c i p accept_sent now_ms = (refl, refl)
  answer_request-Same c i p keys_sent now_ms = (refl, refl)

  pub on_request-Same : (c : MeshCore) (i now_ms : ℕ) → Same c (on_request c i now_ms)
  unfolding on_request
  on_request-Same c i now_ms =
      let d = (peer_friend c i).0 in
      let p = peer_at d i in
      let same = peer_friend-Same c i in
      if-Same c _ _ (not ((peer_friend c i).1 == mesh_no_friend))
        (if-Same c _ _ (hs_eq p.hs hs_none) same same)
        (Same-trans c d (answer_request d i p p.hs now_ms) same
          (answer_request-Same d i p p.hs now_ms))

  show_done-Same : (c : MeshCore) (p : MeshPeer) → Same c (show_done c p)
  unfolding show_done
  show_done-Same c p =
      if-Same c _ _ (not (prompt_eq c.prompt prompt_none) && id_eq c.prompt_id p.id) (refl, refl)
        (refl, refl)

  pub Same-Valid : (c d : MeshCore) → Same c d → FriendsValid c → FriendsValid d
  Same-Valid c d same v = rw (same.0, same.1) v

  update_key-Valid :
      (c : MeshCore) (k : ℕ) (key : List ℕ)
      → k < length c.friends
      → FriendsValid c
      → FriendsValid (update_key c k key)
  unfolding update_key
  update_key-Valid c k key h v =
      elim (Bool-cases (bytes_eq (get_or c.friends k zero_friend).key key)) [
        | inl same ↦ rw (same, update_key) v
        | inr other ↦
            let f : MeshFriend = record (get_or c.friends k zero_friend) { key = key } in
            let d = record c {
              friends = set c.friends k f;
              tag_keys = set c.tag_keys k (mesh_tag_key key);
              friends_generation = u32 (c.friends_generation + 1);
            } in
            rw (other, update_key)
              (set-Valid c (push_event d updated f) k f v h refl (push_event-friends d updated f)
                (push_event-tag_keys d updated f))
      ]

  add_friend-Valid :
      (c : MeshCore) (p : MeshPeer) (rider_id key : List ℕ)
      → FriendsValid c
      → FriendsValid (add_friend c p rider_id key).0
  unfolding add_friend
  add_friend-Valid c p rider_id key v =
      let f : MeshFriend = record {
        id = rider_id;
        key = key;
        look = if p.has_look then p.look else zero_look;
      } in
      let d = (mesh_core_friend_upsert c f).0 in
      let valid = (friend_ops-Valid c f [] v).0 in
      elim (Bool-cases (mesh_core_friend_upsert c f).1) [
        | inl stored ↦
            rw (stored, add_friend)
              (Same-Valid d (push_event d added f)
                (push_event-friends d added f, push_event-tag_keys d added f) valid)
        | inr refused ↦ rw (refused, add_friend) valid
      ]

  store_keys-Valid :
      (c : MeshCore) (p : MeshPeer) (rider_id key : List ℕ)
      → FriendsValid c
      → FriendsValid (store_keys c p rider_id key).0
  unfolding store_keys
  store_keys-Valid c p rider_id key v = elim (find-cases c rider_id) [
    | inl (e, absent) ↦ rw (e, store_keys) (add_friend-Valid c p rider_id key v)
    | inr (k, e, h, at) ↦ rw (e, store_keys) (update_key-Valid c k key h v)
  ]

  -- A key that is stored, or not, leaves a valid friend list.
  pub complete-Valid :
      (c : MeshCore) (i : ℕ) (rider_id key : List ℕ)
      → FriendsValid c
      → FriendsValid (complete c i rider_id key).0
  unfolding complete
  complete-Valid c i rider_id key v =
      let p = peer_at c i in
      let d = (store_keys c p rider_id key).0 in
      let valid = store_keys-Valid c p rider_id key v in
      elim (Bool-cases (store_keys c p rider_id key).1) [
        | inl stored ↦
            rw (stored, complete) (Same-Valid d (show_done d p) (show_done-Same d p) valid)
        | inr refused ↦ rw (refused, complete) valid
      ]
