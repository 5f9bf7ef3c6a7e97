-- ===== src/Mesh/Core/Receive/Laws.antt =====
-- firmware/main/mesh_core.c, `mesh_core_rx`: the handlers that leave the friend list as it is.
use open_apex.Base.{
  ℕ, refl, Bool, true, ◌&&◌, Bool-cases, Option-cases, inl, inr, ◌==◌, List, get_or, bytes_eq,
}
use open_apex.Mesh.Fields.{MeshLook}
use open_apex.Mesh.Proto.{Hello, Request, Keys, PosFrame}
use open_apex.Mesh.Floats.{Floats}
use open_apex.Mesh.Core.{
  mesh_no_friend, zero_friend, id_eq, hs_none, accept_sent, keys_sent, prompt_none, prompt_eq,
  hs_eq, MeshCore, peer_at, put_peer,
}
use open_apex.Mesh.Core.Friends.{mesh_core_friend_find}
use open_apex.Mesh.Core.Peers.{peer_find, peer_touch, peer_friend}
use open_apex.Mesh.Core.Peers.Laws.{Same, if-Same, Same-trans, peer_touch-Same, peer_friend-Same}
use open_apex.Mesh.Core.Handshake.{on_request}
use open_apex.Mesh.Core.Handshake.Laws.{on_request-Same}
use open_apex.Mesh.Core.Position.{note_rssi}
use open_apex.Mesh.Core.Receive.{
  keep_look, rx_hello, rx_request, repeat_ack, finish_keys, rx_ack, friend_seen, rx_pos,
}

module _ ⦃fl : Floats⦄ where
  keep_look-Same : (c : MeshCore) (i : ℕ) (look : MeshLook) → Same c (keep_look c i look)
  unfolding keep_look
  keep_look-Same c i look =
      if-Same c _ (peer_friend c i).0 ((peer_friend c i).1 == mesh_no_friend) (peer_friend-Same c i)
        (peer_friend-Same c i)

  pub rx_hello-Same :
      (c : MeshCore) (sender : List ℕ) (x : Hello) (rssi now_ms : ℕ)
      → Same c (rx_hello c sender x rssi now_ms)
  unfolding rx_hello
  rx_hello-Same c sender x rssi now_ms =
      let touched = peer_touch-Same c sender now_ms in
      let (c1, i) = peer_touch c sender now_ms in
      let heard = note_rssi (peer_at c1 i) rssi in
      elim (Option-cases x.look) [
        | inl e ↦ rw (e, rx_hello) touched
        | inr (look, e) ↦
            rw (e, rx_hello)
              (Same-trans c (put_peer c1 i (record heard { public_look = true }))
                (keep_look (put_peer c1 i (record heard { public_look = true })) i look) touched
                (keep_look-Same (put_peer c1 i (record heard { public_look = true })) i look))
      ]

  pub rx_request-Same :
      (c : MeshCore) (sender : List ℕ) (r : Request) (rssi now_ms : ℕ)
      → Same c (rx_request c sender r rssi now_ms)
  unfolding rx_request
  rx_request-Same c sender r rssi now_ms = elim (Bool-cases (id_eq r.target c.pseud)) [
    | inr other ↦ rw (other, rx_request) (refl, refl)
    | inl ours ↦ elim (Option-cases (peer_find c sender)) [
      | inl e ↦ rw (ours, e, rx_request) (refl, refl)
      | inr (i, e) ↦
          let d = put_peer c i (note_rssi (record (peer_at c i) { heard_ms = now_ms }) rssi) in
          rw (ours, e, rx_request)
            (Same-trans c (keep_look d i r.look) (on_request (keep_look d i r.look) i now_ms)
              (keep_look-Same d i r.look) (on_request-Same (keep_look d i r.look) i now_ms))
    ]
  ]

  pub repeat_ack-Same :
      (c : MeshCore) (i : ℕ) (k : Keys) (now_ms : ℕ) → Same c (repeat_ack c i k now_ms)
  unfolding repeat_ack
  repeat_ack-Same c i k now_ms = elim (Option-cases (mesh_core_friend_find c k.rider_id)) [
    | inl e ↦ rw (e, repeat_ack) (refl, refl)
    | inr (f, e) ↦
        rw (e, repeat_ack)
          (if-Same c _ _
            (hs_eq (peer_at c i).hs hs_none && bytes_eq (get_or c.friends f zero_friend).key k.key)
            (refl, refl) (refl, refl))
  ]

  pub finish_keys-Same :
      (c : MeshCore) (i : ℕ) (late : Bool) (now_ms : ℕ) → Same c (finish_keys c i late now_ms)
  unfolding finish_keys
  finish_keys-Same c i late now_ms = elim (Bool-cases (late && prompt_eq c.prompt prompt_none)) [
    | inl h ↦
        rw (h, finish_keys)
          (if-Same c _ _ (hs_eq (peer_at c i).hs accept_sent) (refl, refl) (refl, refl))
    | inr h ↦
        rw (h, finish_keys)
          (if-Same c _ _ (hs_eq (peer_at c i).hs accept_sent) (refl, refl) (refl, refl))
  ]

  pub rx_ack-Same : (c : MeshCore) (sender target : List ℕ) → Same c (rx_ack c sender target)
  unfolding rx_ack
  rx_ack-Same c sender target = elim (Bool-cases (id_eq target c.pseud)) [
    | inr other ↦ rw (other, rx_ack) (refl, refl)
    | inl ours ↦ elim (Option-cases (peer_find c sender)) [
      | inl e ↦ rw (ours, e, rx_ack) (refl, refl)
      | inr (i, e) ↦
          rw (ours, e, rx_ack)
            (if-Same c _ _ (hs_eq (peer_at c i).hs keys_sent) (refl, refl) (refl, refl))
    ]
  ]

  pub friend_seen-Same :
      (c : MeshCore) (sender : List ℕ) (now_ms : ℕ) → Same c (friend_seen c sender now_ms).0
  unfolding friend_seen
  friend_seen-Same c sender now_ms =
      let (c1, i) = peer_touch c sender now_ms in
      Same-trans c c1 (peer_friend c1 i).0 (peer_touch-Same c sender now_ms) (peer_friend-Same c1 i)

  pub rx_pos-Same :
      (c : MeshCore) (sender : List ℕ) (idx : ℕ) (f : PosFrame) (now_ms : ℕ)
      → Same c (rx_pos c sender idx f now_ms)
  unfolding rx_pos
  rx_pos-Same c sender idx f now_ms = friend_seen-Same c sender now_ms
