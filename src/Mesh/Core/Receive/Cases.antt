-- ===== src/Mesh/Core/Receive/Cases.antt =====
-- firmware/main/mesh_core.c, `mesh_core_rx`: the cases of a received frame, as an induction principle
-- for properties of the friend list.
use open_apex.Base.{
  ℕ, zero, suc, ◌+◌, ◌≡◌, refl, ap, ◌∙◌, arith, Bool, true, false, not, ◌||◌, Bool-cases, ltb,
  ltb→lt, inl, inr, ◌⊎◌, ◌==◌, if◌then◌else◌, Option, none, some, List, [], ◌∷◌, map, length, set,
  get_or, u32, set_beyond,
}
use open_apex.Mesh.Fields.{MeshLook}
use open_apex.Mesh.Crypto.{mesh_tag_key}
use open_apex.Mesh.Records.{MeshFriend}
use open_apex.Mesh.Proto.{
  MeshHeader, mesh_decode_header, mesh_decode_hello, mesh_decode_target, mesh_decode_request, Keys,
  mesh_decode_keys, mesh_decode_pos, mesh_decode_look,
}
use open_apex.Mesh.Floats.{Floats}
use open_apex.Mesh.Core.{
  mesh_no_friend, zero_friend, look_eq, updated, id_eq, MeshCore, peer_at, put_peer,
}
use open_apex.Mesh.Core.Friends.Laws.{Distinct, Distinct-set}
use open_apex.Mesh.Core.Friends.Events.{push_event-friends, push_event-tag_keys}
use open_apex.Mesh.Core.Friends.Invariant.{tags}
use open_apex.Mesh.Core.Peers.{resolve}
use open_apex.Mesh.Core.Peers.Laws.{Same}
use open_apex.Mesh.Core.Handshake.{
  type_hello, type_friend_request, type_friend_accept, type_friend_keys, type_friend_ack, type_pos,
  type_look,
}
use open_apex.Mesh.Core.Receive.{
  rx_accept, rx_keys, friend_seen, rx_look, decoded, rx_friend, rx_frame, mesh_core_rx,
}
use open_apex.Mesh.Core.Receive.Laws.{
  rx_hello-Same, rx_request-Same, rx_ack-Same, friend_seen-Same, rx_pos-Same,
}

-- The id and the key of each friend.
abbrev pub credentials : List MeshFriend → List (List ℕ × List ℕ)
credentials fs = map (λ (f : MeshFriend). (f.id, f.key)) fs

-- A new look for entry `k`, written as the code does.
abbrev pub relook : List MeshFriend → ℕ → MeshLook → List MeshFriend
relook fs k look = set fs k (record (get_or fs k zero_friend) { look = look })

pub credentials-relook :
    (fs : List MeshFriend) (k : ℕ) (look : MeshLook)
    → credentials (relook fs k look) ≡ credentials fs
credentials-relook [] k look = refl
credentials-relook (f ∷ fs) zero look = refl
credentials-relook (f ∷ fs) (suc k) look = ap (◌∷◌ (f.id, f.key)) (credentials-relook fs k look)

pub tags-relook :
    (fs : List MeshFriend) (k : ℕ) (look : MeshLook) → tags (relook fs k look) ≡ tags fs
tags-relook [] k look = refl
tags-relook (f ∷ fs) zero look = refl
tags-relook (f ∷ fs) (suc k) look = ap (◌∷◌ (mesh_tag_key f.key)) (tags-relook fs k look)

pub Distinct-relook :
    (fs : List MeshFriend) (k : ℕ) (look : MeshLook) → Distinct fs → Distinct (relook fs k look)
Distinct-relook fs k look d = elim (Bool-cases (ltb k (length fs))) [
  | inl h ↦
      Distinct-set fs (record (get_or fs k zero_friend) { look = look }) k d
        (ltb→lt k (length fs) h) refl
  | inr h ↦
      rw (set_beyond fs k (record (get_or fs k zero_friend) { look = look }) (ground (arith, h))) d
]

module _ ⦃fl : Floats⦄ where
  -- The friend list after a look.
  pub rx_look-friends :
      (c : MeshCore) (sender : List ℕ) (idx : ℕ) (look : MeshLook) (now_ms : ℕ)
      → ((rx_look c sender idx look now_ms).friends ≡ c.friends
          ⊎ (rx_look c sender idx look now_ms).friends ≡ relook c.friends idx look)
        × ((rx_look c sender idx look now_ms).tag_keys ≡ c.tag_keys)
  unfolding rx_look
  rx_look-friends c sender idx look now_ms =
      let (c1, i) = friend_seen c sender now_ms in
      let (fs, ts) = friend_seen-Same c sender now_ms in
      let d = put_peer c1 i (record (peer_at c1 i) { look = look; has_look = true }) in
      let f : MeshFriend = get_or c1.friends idx zero_friend in
      let e = record d {
        friends = set c1.friends idx (record f { look = look });
        friends_generation = u32 (d.friends_generation + 1);
      } in
      elim (Bool-cases (look_eq f.look look)) [
        | inl same ↦ (inl (rw (same, rx_look) fs), rw (same, rx_look) ts)
        | inr other ↦ (
          inr (
              rw (other, rx_look)
                (push_event-friends e updated (record f { look = look })
                  ∙ ap (λ (gs : List MeshFriend). relook gs idx look) fs)),
          rw (other, rx_look) (push_event-tag_keys e updated (record f { look = look }) ∙ ts),
        )
      ]

  -- A property of states that holds whatever an optional result and a test decide.
  pub decoded-ind {ℓ κ} :
      {A : Type ℓ} (P : MeshCore → Type κ) (c : MeshCore) (o : Option A) (step : A → MeshCore)
      → P c
      → ((a : A) → o ≡ some a → P (step a))
      → P (decoded c o step)
  decoded-ind P c none step h k = h
  decoded-ind P c (some a) step h k = k a refl

  pub if-ind {κ} :
      (P : MeshCore → Type κ) (x y : MeshCore) (b : Bool) → P x → P y → P (if b then x else y)
  if-ind P x y true h k = h
  if-ind P x y false h k = k

  pub found-ind {κ} :
      (P : MeshCore → Type κ) (x : MeshCore) (f : ℕ → MeshCore) (o : Option ℕ)
      → P x
      → ((i : ℕ) → o ≡ some i → P (f i))
      → P (elim o [ none ↦ x | some i ↦ f i ])
  found-ind P x f none h k = h
  found-ind P x f (some i) h k = k i refl

  -- What holds of the state, of any state with the same friend list, and of what the handlers of
  -- ACCEPT, KEYS and LOOK frames make of it, holds after a frame.
  pub rx-ind :
      (P : MeshCore → Type 0) (c : MeshCore) (frame : List ℕ) (rssi now_ms : ℕ)
      → ((d : MeshCore) → Same c d → P d)
      → ((h : MeshHeader)
          → mesh_decode_header frame ≡ some h
          → (k : Keys) → P (rx_accept c h.sender k now_ms))
      → ((h : MeshHeader)
          → mesh_decode_header frame ≡ some h
          → (k : Keys) → P (rx_keys c h.sender k now_ms))
      → ((sender : List ℕ) (idx : ℕ) (look : MeshLook) → P (rx_look c sender idx look now_ms))
      → P (mesh_core_rx c frame rssi now_ms)
  unfolding mesh_core_rx rx_frame rx_friend
  rx-ind P c frame rssi now_ms same accept keys look =
      if-ind P _ _ (not c.enabled || not c.has_identity) (same c (refl, refl)) (
        decoded-ind P c (mesh_decode_header frame) _ (same c (refl, refl)) (λ h e.
          if-ind P _ _ (id_eq h.sender c.pseud) (same c (refl, refl)) (
            if-ind P _ _ (h.type == type_hello)
              (decoded-ind P c (mesh_decode_hello frame) _ (same c (refl, refl))
                (λ x q. same _ (rx_hello-Same c h.sender x rssi now_ms)))
              (if-ind P _ _ (h.type == type_friend_request)
                (decoded-ind P c (mesh_decode_request frame) _ (same c (refl, refl))
                  (λ x q. same _ (rx_request-Same c h.sender x rssi now_ms)))
                (if-ind P _ _ (h.type == type_friend_accept)
                  (decoded-ind P c (mesh_decode_keys frame) _ (same c (refl, refl))
                    (λ x q. accept h e x))
                  (if-ind P _ _ (h.type == type_friend_keys)
                    (decoded-ind P c (mesh_decode_keys frame) _ (same c (refl, refl))
                      (λ x q. keys h e x))
                    (if-ind P _ _ (h.type == type_friend_ack)
                      (decoded-ind P c (mesh_decode_target frame) _ (same c (refl, refl))
                        (λ x q. same _ (rx_ack-Same c h.sender x)))
                      (if-ind P _ _ (h.type == type_pos || h.type == type_look)
                        (let idx = resolve c h.sender in
                          let key = (get_or c.friends idx zero_friend).key in
                          if-ind P _ _ (idx == mesh_no_friend) (same c (refl, refl)) (
                            if-ind P _ _ (h.type == type_pos)
                              (decoded-ind P c (mesh_decode_pos frame key) _ (same c (refl, refl))
                                (λ x q. same _ (rx_pos-Same c h.sender idx x now_ms)))
                              (decoded-ind P c (mesh_decode_look frame key) _ (same c (refl, refl))
                                (λ x q. look h.sender idx x))))
                        (same c (refl, refl))))))))))
