-- ===== src/Mesh/Core/Menu.antt =====
-- firmware/main/mesh_core.c, menu actions: the rider holds the ring on a card, asks or accepts.
use open_apex.Base.{
  ℕ, Bool, true, false, not, ◌||◌, leb, ◌==◌, if◌then◌else◌, Option, none, some, List, [], map,
}
use open_apex.Mesh.Floats.{Floats}
use open_apex.Mesh.Core.{
  mesh_max_friends, mesh_no_friend, hs_none, req_sent, req_recv, accept_sent, keys_sent, hs_eq,
  prompt_none, offer, waiting, prompt_eq, id_eq, fresh, MeshPeer, MeshCore, peer_at, put_peer,
}
use open_apex.Mesh.Core.Friends.{friend_count}
use open_apex.Mesh.Core.Peers.{peer_find, peer_friend}
use open_apex.Mesh.Core.Handshake.{
  type_friend_accept, mesh_request_retry_ms, mesh_accept_retry_ms, send_request, send_keys, set_hs,
  close_prompt,
}

abbrev pub mesh_peer_timeout_ms : ℕ
mesh_peer_timeout_ms = 10000

module _ ⦃fl : Floats⦄ where
  -- The state, the `bool` and the frames sent.
  pub record Action : Type 0 where
    pub core : MeshCore
    pub ok : Bool
    pub frames : List (List ℕ)

  abbrev refused : MeshCore → Action
  refused c = record { core = c; ok = false; frames = [] }

  pub mesh_core_peer_waiting : MeshPeer → Bool
  mesh_core_peer_waiting p = hs_eq p.hs req_recv

  -- Keys are moving with the rider of the page.
  keys_moving : MeshCore → Bool
  keys_moving c = elim (peer_find c c.prompt_id) [
    | none ↦ false
    | some q ↦ hs_eq (peer_at c q).hs accept_sent || hs_eq (peer_at c q).hs keys_sent
  ]

  -- The page is free, or is freed, for a request to this rider; `none` is `return false`.
  free_page : MeshCore → List ℕ → Option MeshCore
  unfolding keys_moving
  free_page c pseudonym =
      if prompt_eq c.prompt waiting || prompt_eq c.prompt offer
      then if keys_moving c || id_eq c.prompt_id pseudonym then none else some (close_prompt c)
      else if prompt_eq c.prompt prompt_none
      then some c
      else none

  -- The last part of `mesh_core_request`, for the peer at `i`.
  ask : MeshCore → ℕ → ℕ → Action
  ask c i now_ms =
      let c1 = record c {
        peers = map (λ (q : MeshPeer). record q { consented = false }) c.peers;
      } in
      let c2 = set_hs c1 i req_sent mesh_request_retry_ms now_ms in
      let p = peer_at c2 i in
      let c3 = record c2 {
        prompt = waiting;
        prompt_id = p.id;
        prompt_look = p.look;
        prompt_shown_ms = 0;
      } in
      let (c4, frames) = send_request c3 p.id in record { core = c4; ok = true; frames = frames }

  -- The checks on the peer, in the code's order.
  ask_peer : MeshCore → List ℕ → ℕ → Action
  unfolding ask
  ask_peer c pseudonym now_ms = elim (peer_find c pseudonym) [
    | none ↦ refused c
    | some i ↦
        let p = peer_at c i in
        if not (fresh now_ms p.heard_ms mesh_peer_timeout_ms) || not (hs_eq p.hs hs_none)
        then refused c
        else let (c', idx) = peer_friend c i in
          if not (idx == mesh_no_friend) then refused c' else ask c' i now_ms
  ]

  pub mesh_core_request : MeshCore → List ℕ → ℕ → Action
  unfolding free_page ask_peer
  mesh_core_request c pseudonym now_ms =
      if not c.enabled || not c.has_identity || leb mesh_max_friends (friend_count c)
      then refused c
      else elim (free_page c pseudonym) [
        | none ↦ refused c
        | some c' ↦ ask_peer c' pseudonym now_ms
      ]

  -- The last part of `mesh_core_accept`.
  consent : MeshCore → ℕ → ℕ → MeshCore × List (List ℕ)
  consent c i now_ms =
      let c1 = set_hs c i accept_sent mesh_accept_retry_ms now_ms in
      let c2 = put_peer c1 i (record (peer_at c1 i) { consented = true }) in
      send_keys (record c2 { prompt = waiting }) type_friend_accept (peer_at c2 i).id

  pub mesh_core_accept : MeshCore → List ℕ → ℕ → MeshCore × List (List ℕ)
  unfolding consent
  mesh_core_accept c pseudonym now_ms =
      if not (prompt_eq c.prompt offer) || not (id_eq pseudonym c.prompt_id)
      then (c, [])
      else elim (peer_find c pseudonym) [
        | none ↦ (c, [])
        | some i ↦ if not (hs_eq (peer_at c i).hs req_recv) then (c, []) else consent c i now_ms
      ]

  pub mesh_core_hold : MeshCore → List ℕ → ℕ → Action
  unfolding mesh_core_accept mesh_core_request mesh_core_peer_waiting
  mesh_core_hold c pseudonym now_ms = elim (peer_find c pseudonym) [
    | none ↦ refused c
    | some i ↦
        let (c', frames) = mesh_core_accept c pseudonym now_ms in
        if not (mesh_core_peer_waiting (peer_at c i))
        then mesh_core_request c pseudonym now_ms
        else if not (prompt_eq c.prompt offer) || not (id_eq c.prompt_id pseudonym)
        then refused c
        else record { core = c'; ok = true; frames = frames }
  ]
