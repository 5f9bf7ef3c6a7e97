-- ===== src/Mesh/Core/Receive.antt =====
-- firmware/main/mesh_core.c, `mesh_core_rx`: one function for each frame type. Nothing is sent from
-- here, as in the code.
pub mod Laws
pub mod Cases
pub mod Consent
use open_apex.Base.{
  ℕ, zero, suc, ◌+◌, Bool, true, false, not, ◌||◌, ◌&&◌, ltb, ◌==◌, if◌then◌else◌, Option, none,
  some, List, [], ◌∷◌, set, get_or, u32, bytes_eq,
}
use open_apex.Mesh.Fields.{MeshLook}
use open_apex.Mesh.Records.{MeshFriend}
use open_apex.Mesh.Proto.{
  MeshHeader, mesh_decode_header, Hello, mesh_decode_hello, mesh_decode_target, Request,
  mesh_decode_request, Keys, mesh_decode_keys, PosFrame, mesh_decode_pos, mesh_decode_look,
}
use open_apex.Mesh.Floats.{Floats}
use open_apex.Mesh.Core.{
  mesh_no_friend, Hs, hs_none, req_sent, accept_sent, keys_sent, hs_eq, PromptState, prompt_none,
  done, prompt_eq, updated, zero_friend, id_eq, look_eq, MeshPeer, MeshCore, peer_at, put_peer,
}
use open_apex.Mesh.Core.Friends.{mesh_core_friend_find, push_event}
use open_apex.Mesh.Core.Peers.{peer_find, peer_touch, resolve, peer_friend}
use open_apex.Mesh.Core.Handshake.{
  type_hello, type_friend_request, type_friend_accept, type_friend_keys, type_friend_ack, type_pos,
  type_look, defer_hs, defer_ack, lapse, complete, on_request,
}
use open_apex.Mesh.Core.Position.{note_rssi, update_offset}

module _ ⦃fl : Floats⦄ where
  -- A stranger's look is kept for the card.
  pub keep_look : MeshCore → ℕ → MeshLook → MeshCore
  keep_look c i look =
      let (c', idx) = peer_friend c i in
      if idx == mesh_no_friend
      then put_peer c' i (record (peer_at c' i) { look = look; has_look = true })
      else c'

  pub rx_hello : MeshCore → List ℕ → Hello → ℕ → ℕ → MeshCore
  unfolding keep_look
  rx_hello c sender hello rssi now_ms =
      let (c1, i) = peer_touch c sender now_ms in
      let heard = note_rssi (peer_at c1 i) rssi in
      elim hello.look [
        | none ↦ put_peer c1 i (record heard { public_look = false })
        | some look ↦ keep_look (put_peer c1 i (record heard { public_look = true })) i look
      ]

  pub rx_request : MeshCore → List ℕ → Request → ℕ → ℕ → MeshCore
  unfolding keep_look
  rx_request c sender r rssi now_ms =
      if not (id_eq r.target c.pseud) then c else elim (peer_find c sender) [
        | none ↦ c
        | some i ↦
            let heard = note_rssi (record (peer_at c i) { heard_ms = now_ms }) rssi in
            on_request (keep_look (put_peer c i heard) i r.look) i now_ms
      ]

  -- Only a rider we asked, or who is answering us, may hand us a key.
  unfoldable pub accepts_key : Hs → Bool
  accepts_key hs = hs_eq hs req_sent || hs_eq hs accept_sent || hs_eq hs keys_sent

  pub rx_accept : MeshCore → List ℕ → Keys → ℕ → MeshCore
  unfolding accepts_key
  rx_accept c sender k now_ms =
      if not (id_eq k.target c.pseud) then c else elim (peer_find c sender) [
        | none ↦ c
        | some i ↦
            if not (accepts_key (peer_at c i).hs)
            then c
            else let c1 = put_peer c i (record (peer_at c i) { heard_ms = now_ms }) in
              let (c2, stored) = complete c1 i k.rider_id k.key in
              if stored
              then put_peer c2 i (defer_hs (peer_at c2 i) keys_sent now_ms)
              else lapse c2 i
      ]

  -- KEYS from a rider who is done here: a friend we hold, with the same key, gets an ACK again.
  pub repeat_ack : MeshCore → ℕ → Keys → ℕ → MeshCore
  repeat_ack c i k now_ms =
      let p = peer_at c i in
      elim (mesh_core_friend_find c k.rider_id) [
        | none ↦ c
        | some f ↦
            if hs_eq p.hs hs_none && bytes_eq (get_or c.friends f zero_friend).key k.key
            then put_peer c i (defer_ack (record p { heard_ms = now_ms }) now_ms)
            else c
      ]

  -- KEYS that are stored: the ACK is owed, and a page that had given up says "now friends".
  pub finish_keys : MeshCore → ℕ → Bool → ℕ → MeshCore
  finish_keys c i late now_ms =
      let p = defer_ack (peer_at c i) now_ms in
      let c1 = put_peer c i p in
      let c2 =
        if late && prompt_eq c1.prompt prompt_none
        then record c1 {
          prompt = done;
          prompt_id = p.id;
          prompt_look = p.look;
          prompt_done_at_ms = c1.last_tick_ms;
        }
        else c1 in
      if hs_eq p.hs accept_sent then put_peer c2 i (record p { hs = hs_none }) else c2

  pub rx_keys : MeshCore → List ℕ → Keys → ℕ → MeshCore
  unfolding repeat_ack finish_keys
  rx_keys c sender k now_ms =
      if not (id_eq k.target c.pseud) then c else elim (peer_find c sender) [
        | none ↦ c
        | some i ↦
            let p = peer_at c i in
            let late = hs_eq p.hs hs_none && p.consented in
            if not (hs_eq p.hs accept_sent) && not (hs_eq p.hs keys_sent) && not late
            then repeat_ack c i k now_ms
            else let c1 = put_peer c i (record p { heard_ms = now_ms }) in
              let (c2, stored) = complete c1 i k.rider_id k.key in
              if stored then finish_keys c2 i late now_ms else lapse c2 i
      ]

  pub rx_ack : MeshCore → List ℕ → List ℕ → MeshCore
  rx_ack c sender target = if not (id_eq target c.pseud) then c else elim (peer_find c sender) [
    | none ↦ c
    | some i ↦
        if hs_eq (peer_at c i).hs keys_sent
        then put_peer c i (record (peer_at c i) { hs = hs_none })
        else c
  ]

  -- A friend in range, whose look is the friend list's until one has been seen.
  pub friend_seen : MeshCore → List ℕ → ℕ → MeshCore × ℕ
  friend_seen c sender now_ms =
      let (c1, i) = peer_touch c sender now_ms in let (c2, _) = peer_friend c1 i in (c2, i)

  pub rx_pos : MeshCore → List ℕ → ℕ → PosFrame → ℕ → MeshCore
  unfolding friend_seen
  rx_pos c sender idx f now_ms =
      let (c1, i) = friend_seen c sender now_ms in
      let p = peer_at c1 i in
      let shown =
        if p.has_look
        then p
        else record p { look = (get_or c1.friends idx zero_friend).look; has_look = true } in
      let c2 = record c1 { friend_fix = f.pos; has_friend_fix = true } in
      put_peer c2 i (update_offset c2 shown f.pos f.age_ms now_ms)

  pub rx_look : MeshCore → List ℕ → ℕ → MeshLook → ℕ → MeshCore
  unfolding friend_seen
  rx_look c sender idx look now_ms =
      let (c1, i) = friend_seen c sender now_ms in
      let c2 = put_peer c1 i (record (peer_at c1 i) { look = look; has_look = true }) in
      let f = get_or c2.friends idx zero_friend in
      if look_eq f.look look
      then c2
      else push_event
          (record c2 {
            friends = set c2.friends idx (record f { look = look });
            friends_generation = u32 (c2.friends_generation + 1);
          })
          updated (record f { look = look })

  -- What an optional decoding result does to the state; `none` is an early return.
  abbrev pub decoded {ℓ} : {A : Type ℓ} → MeshCore → Option A → (A → MeshCore) → MeshCore
  decoded c none step = c
  decoded c (some a) step = step a

  -- A frame that only a friend's key opens.
  pub rx_friend : MeshCore → List ℕ → MeshHeader → ℕ → ℕ → MeshCore
  unfolding rx_pos rx_look
  rx_friend c frame h idx now_ms =
      let key = (get_or c.friends idx zero_friend).key in
      if idx == mesh_no_friend
      then c
      else if h.type == type_pos
      then decoded c (mesh_decode_pos frame key) (λ f. rx_pos c h.sender idx f now_ms)
      else decoded c (mesh_decode_look frame key) (λ look. rx_look c h.sender idx look now_ms)

  -- The `switch (h.type)`.
  pub rx_frame : MeshCore → List ℕ → MeshHeader → ℕ → ℕ → MeshCore
  unfolding rx_hello rx_request rx_accept rx_keys rx_ack rx_friend
  rx_frame c frame h rssi now_ms =
      if h.type == type_hello
      then decoded c (mesh_decode_hello frame) (λ x. rx_hello c h.sender x rssi now_ms)
      else if h.type == type_friend_request
      then decoded c (mesh_decode_request frame) (λ x. rx_request c h.sender x rssi now_ms)
      else if h.type == type_friend_accept
      then decoded c (mesh_decode_keys frame) (λ x. rx_accept c h.sender x now_ms)
      else if h.type == type_friend_keys
      then decoded c (mesh_decode_keys frame) (λ x. rx_keys c h.sender x now_ms)
      else if h.type == type_friend_ack
      then decoded c (mesh_decode_target frame) (λ x. rx_ack c h.sender x)
      else if h.type == type_pos || h.type == type_look
      then rx_friend c frame h (resolve c h.sender) now_ms
      else c

  pub mesh_core_rx : MeshCore → List ℕ → ℕ → ℕ → MeshCore
  unfolding rx_frame
  mesh_core_rx c frame rssi now_ms =
      if not c.enabled || not c.has_identity
      then c
      else decoded c (mesh_decode_header frame)
          (λ h. if id_eq h.sender c.pseud then c else rx_frame c frame h rssi now_ms)
