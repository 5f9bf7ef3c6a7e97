-- ===== src/Mesh/Core/Receive/Consent.antt =====
-- firmware/main/mesh_core.c, `mesh_core_rx`: what a received frame can do to the friend list.
use open_apex.Base.{
  ℕ, ◌≡◌, refl, sym, ap, ◌∙◌, arith, Bool, true, false, not, ◌&&◌, inl, inr, if◌then◌else◌, some,
  List, get_or, length-set,
}
use open_apex.Mesh.Fields.{MeshLook}
use open_apex.Mesh.Proto.{MeshHeader, mesh_decode_header, Keys}
use open_apex.Mesh.Floats.{Floats}
use open_apex.Mesh.Core.{
  zero_friend, id_eq, Hs, hs_none, req_sent, req_recv, accept_sent, keys_sent, hs_eq, MeshCore,
  peer_at, put_peer,
}
use open_apex.Mesh.Core.Friends.Invariant.{FriendsValid}
use open_apex.Mesh.Core.Peers.{peer_find}
use open_apex.Mesh.Core.Handshake.{lapse, complete}
use open_apex.Mesh.Core.Handshake.Laws.{Same-Valid, complete-Valid, lapse-Same}
use open_apex.Mesh.Core.Receive.{
  accepts_key, repeat_ack, finish_keys, rx_accept, rx_keys, rx_look, mesh_core_rx,
}
use open_apex.Mesh.Core.Receive.Laws.{repeat_ack-Same, finish_keys-Same}
use open_apex.Mesh.Core.Receive.Cases.{
  rx_look-friends, if-ind, found-ind, rx-ind, credentials, credentials-relook, tags-relook,
  Distinct-relook,
}

module _ ⦃fl : Floats⦄ where
  -- The two handlers that may store a key.
  rx_accept-Valid :
      (c : MeshCore) (sender : List ℕ) (k : Keys) (now_ms : ℕ)
      → FriendsValid c
      → FriendsValid (rx_accept c sender k now_ms)
  unfolding rx_accept
  rx_accept-Valid c sender k now_ms v = if-ind FriendsValid _ _ (not (id_eq k.target c.pseud)) v (
      found-ind FriendsValid c _ (peer_find c sender) v (λ i e.
        if-ind FriendsValid _ _ (not (accepts_key (peer_at c i).hs)) v (
          let c1 = put_peer c i (record (peer_at c i) { heard_ms = now_ms }) in
          let valid = complete-Valid c1 i k.rider_id k.key v in
          if-ind FriendsValid _ _ (complete c1 i k.rider_id k.key).1 valid (
            Same-Valid (complete c1 i k.rider_id k.key).0
              (lapse (complete c1 i k.rider_id k.key).0 i)
              (lapse-Same (complete c1 i k.rider_id k.key).0 i) valid))))

  rx_keys-Valid :
      (c : MeshCore) (sender : List ℕ) (k : Keys) (now_ms : ℕ)
      → FriendsValid c
      → FriendsValid (rx_keys c sender k now_ms)
  unfolding rx_keys
  rx_keys-Valid c sender k now_ms v = if-ind FriendsValid _ _ (not (id_eq k.target c.pseud)) v (
      found-ind FriendsValid c _ (peer_find c sender) v (λ i e.
        let p = peer_at c i in
        let late = hs_eq p.hs hs_none && p.consented in
        if-ind FriendsValid _ _
          (not (hs_eq p.hs accept_sent) && not (hs_eq p.hs keys_sent) && not late)
          (Same-Valid c (repeat_ack c i k now_ms) (repeat_ack-Same c i k now_ms) v)
          (let c1 = put_peer c i (record p { heard_ms = now_ms }) in
            let d = (complete c1 i k.rider_id k.key).0 in
            let valid = complete-Valid c1 i k.rider_id k.key v in
            if-ind FriendsValid _ _ (complete c1 i k.rider_id k.key).1
              (Same-Valid d (finish_keys d i late now_ms) (finish_keys-Same d i late now_ms) valid)
              (Same-Valid d (lapse d i) (lapse-Same d i) valid))))

  rx_look-Valid :
      (c : MeshCore) (sender : List ℕ) (idx : ℕ) (look : MeshLook) (now_ms : ℕ)
      → FriendsValid c
      → FriendsValid (rx_look c sender idx look now_ms)
  rx_look-Valid c sender idx look now_ms (few, once, tagged) =
      let (fs, ts) = rx_look-friends c sender idx look now_ms in
      elim fs [
        | inl e ↦ rw (e, ts) (few, once, tagged)
        | inr e ↦ (
          rw e (
              omega (
                arith,
                few,
                length-set c.friends idx
                    (record (get_or c.friends idx zero_friend) { look = look }),
              )),
          rw e (Distinct-relook c.friends idx look once),
          rw (e, ts) (tagged ∙ sym (tags-relook c.friends idx look)),
        )
      ]

  -- A frame of any content, at any time, leaves a valid friend list valid: at most sixteen friends,
  -- no two with one id, and every cached tag key the one of its friend's key.
  pub mesh_core_rx-Valid :
      (c : MeshCore) (frame : List ℕ) (rssi now_ms : ℕ)
      → FriendsValid c
      → FriendsValid (mesh_core_rx c frame rssi now_ms)
  mesh_core_rx-Valid c frame rssi now_ms v =
      rx-ind FriendsValid c frame rssi now_ms (λ d same. Same-Valid c d same v)
        (λ h e k. rx_accept-Valid c h.sender k now_ms v)
        (λ h e k. rx_keys-Valid c h.sender k now_ms v)
        (λ sender idx look. rx_look-Valid c sender idx look now_ms v)

  -- The same ids and keys.
  abbrev SameKeys : MeshCore → MeshCore → Type 0
  SameKeys c d = credentials d.friends ≡ credentials c.friends

  if-true {κ} :
      (P : MeshCore → Type κ) (x y : MeshCore) (b : Bool) → b ≡ true → P x → P (if b then x else y)
  if-true P x y true e h = h
  if-true P x y false e h = cc

  rx_look-SameKeys :
      (c : MeshCore) (sender : List ℕ) (idx : ℕ) (look : MeshLook) (now_ms : ℕ)
      → SameKeys c (rx_look c sender idx look now_ms)
  rx_look-SameKeys c sender idx look now_ms =
      let (fs, ts) = rx_look-friends c sender idx look now_ms in
      elim fs [
        | inl e ↦ ap credentials e
        | inr e ↦ ap credentials e ∙ credentials-relook c.friends idx look
      ]

  not_invited : (b : Bool) → b ≡ false → not b ≡ true
  not_invited true e = cc
  not_invited false e = refl

  passed_over :
      (hs : Hs) (consented : Bool)
      → accepts_key hs ≡ false
      → consented ≡ false
      → (not (hs_eq hs accept_sent)
          && not (hs_eq hs keys_sent)
          && not (hs_eq hs hs_none && consented))
        ≡ true
  unfolding accepts_key
  passed_over hs_none true a e = cc
  passed_over hs_none false a e = refl
  passed_over req_recv consented a e = refl
  passed_over req_sent consented a e = cc
  passed_over accept_sent consented a e = cc
  passed_over keys_sent consented a e = cc

  -- No frame from a rider without our rider's consent changes who the friends are, or any of their
  -- keys: if the sender of the frame is unknown, or is a known rider whose handshake is idle or waits
  -- for our rider's answer and to whom our rider has not consented, the list has the same ids with the
  -- same keys, in order, after the frame as before. Looks may differ.
  pub mesh_core_rx-credentials :
      (c : MeshCore) (frame : List ℕ) (rssi now_ms : ℕ)
      → ((h : MeshHeader) (i : ℕ)
          → mesh_decode_header frame ≡ some h
          → peer_find c h.sender ≡ some i
          → (accepts_key (peer_at c i).hs ≡ false) × ((peer_at c i).consented ≡ false))
      → credentials (mesh_core_rx c frame rssi now_ms).friends ≡ credentials c.friends
  unfolding rx_accept rx_keys
  mesh_core_rx-credentials c frame rssi now_ms stranger =
      rx-ind (SameKeys c) c frame rssi now_ms (λ d same. ap credentials same.0) accept keys
        (λ sender idx look. rx_look-SameKeys c sender idx look now_ms)
    where
      accept :
          (h : MeshHeader)
          → mesh_decode_header frame ≡ some h
          → (k : Keys) → SameKeys c (rx_accept c h.sender k now_ms)
      accept h e k = if-ind (SameKeys c) _ _ (not (id_eq k.target c.pseud)) refl (
          found-ind (SameKeys c) c _ (peer_find c h.sender) refl (λ i f.
            if-true (SameKeys c) _ _ (not (accepts_key (peer_at c i).hs))
              (not_invited (accepts_key (peer_at c i).hs) (stranger h i e f).0) refl))

      keys :
          (h : MeshHeader)
          → mesh_decode_header frame ≡ some h
          → (k : Keys) → SameKeys c (rx_keys c h.sender k now_ms)
      keys h e k = if-ind (SameKeys c) _ _ (not (id_eq k.target c.pseud)) refl (
          found-ind (SameKeys c) c _ (peer_find c h.sender) refl (λ i f.
            let p = peer_at c i in
            if-true (SameKeys c) _ _
              (not (hs_eq p.hs accept_sent)
                && not (hs_eq p.hs keys_sent)
                && not (hs_eq p.hs hs_none && p.consented))
              (passed_over p.hs p.consented (stranger h i e f).0 (stranger h i e f).1)
              (ap credentials (repeat_ack-Same c i k now_ms).0)))
