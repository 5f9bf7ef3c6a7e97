-- ===== src/Mesh/Core/Tick/Laws.antt =====
-- firmware/main/mesh_core.c, `mesh_core_tick`: the phases that run every tick touch neither the
-- friends nor their tag keys.
use open_apex.Base.{
  ℕ, zero, suc, ◌+◌, refl, Bool, true, false, not, ◌||◌, leb, Bool-cases, sub32, Option-cases, inl,
  inr, if◌then◌else◌,
}
use open_apex.Mesh.Floats.{Floats}
use open_apex.Mesh.Core.{
  Hs, hs_none, req_sent, req_recv, accept_sent, keys_sent, prompt_none, done, prompt_eq, id_eq, due,
  waiting, mesh_max_peers, MeshPeer, MeshCore, peer_at,
}
use open_apex.Mesh.Core.Peers.{peer_find}
use open_apex.Mesh.Core.Peers.Laws.{Same, if-Same, if-Same-pair, Same-trans, peer_friend-Same}
use open_apex.Mesh.Core.Handshake.{
  next_header, jitter, send_target, send_request, send_keys, close_prompt, type_friend_accept,
  type_friend_keys,
}
use open_apex.Mesh.Core.Handshake.Laws.{lapse-Same, close_prompt-Same}
use open_apex.Mesh.Core.Tick.{
  expire_peer, expire_peers, periodic, show_prompt, run_open, run_prompt, send_hello, send_ack,
  retry_request, retry_keys, retry, handshake_peer, handshake_peers, send_own_look, send_pos,
  mesh_core_tick,
}

module _ ⦃fl : Floats⦄ where
  expire_peer-Same :
      (c : MeshCore) (near : Bool) (now_ms i : ℕ) → Same c (expire_peer c near now_ms i).0
  unfolding expire_peer
  expire_peer-Same c near now_ms i =
      if-Same-pair c _ _ (not (peer_at c i).used) (refl, refl)
        (if-Same-pair c _ _ _ (refl, refl) (peer_friend-Same c i))

  expire_peers-Same :
      (left : ℕ) (c : MeshCore) (near : Bool) (now_ms i : ℕ)
      → Same c (expire_peers left c near now_ms i).0
  unfolding expire_peers
  expire_peers-Same zero c near now_ms i = (refl, refl)
  expire_peers-Same (suc left) c near now_ms i =
      let (d, near') = expire_peer c near now_ms i in
      Same-trans c d (expire_peers left d near' now_ms (i + 1)).0 (expire_peer-Same c near now_ms i)
        (expire_peers-Same left d near' now_ms (i + 1))

  show_prompt-Same :
      (c : MeshCore) (p : MeshPeer) (dt_ms : ℕ) (allowed : Bool)
      → Same c (show_prompt c p dt_ms allowed)
  unfolding show_prompt
  show_prompt-Same c p dt_ms allowed = if-Same c _ _ _ (close_prompt-Same _) (refl, refl)

  run_open-Same :
      (c : MeshCore) (now_ms dt_ms : ℕ) (allowed : Bool) → Same c (run_open c now_ms dt_ms allowed)
  unfolding run_open
  run_open-Same c now_ms dt_ms allowed = elim (Option-cases (peer_find c c.prompt_id)) [
    | inl e ↦ rw (e, run_open) (close_prompt-Same c)
    | inr (i, e) ↦
        rw (e, run_open)
          (if-Same c (close_prompt c) (show_prompt c (peer_at c i) dt_ms allowed) _
            (close_prompt-Same c) (show_prompt-Same c (peer_at c i) dt_ms allowed))
  ]

  run_prompt-Same :
      (c : MeshCore) (now_ms dt_ms : ℕ) (allowed : Bool)
      → Same c (run_prompt c now_ms dt_ms allowed)
  unfolding run_prompt
  run_prompt-Same c now_ms dt_ms allowed =
      let d = record c { prompt_visible = allowed } in
      if-Same c _ _ (prompt_eq d.prompt done) (if-Same c _ _ _ (refl, refl) (refl, refl)) (
        if-Same c d (run_open d now_ms dt_ms allowed) (prompt_eq d.prompt prompt_none) (refl, refl)
          (run_open-Same d now_ms dt_ms allowed))

  send_hello-Same : (c : MeshCore) (now_ms : ℕ) → Same c (send_hello c now_ms).0
  unfolding send_hello periodic next_header jitter
  send_hello-Same c now_ms = if-Same-pair c _ _ _ (refl, refl) (refl, refl)

  send_ack-Same : (c : MeshCore) (now_ms i : ℕ) → Same c (send_ack c now_ms i).0
  unfolding send_ack send_target next_header
  send_ack-Same c now_ms i = if-Same-pair c _ _ _ (refl, refl) (refl, refl)

  retry_request-Same : (c : MeshCore) (now_ms i : ℕ) → Same c (retry_request c now_ms i).0
  unfolding retry_request send_request next_header jitter
  retry_request-Same c now_ms i =
      let p = peer_at c i in
      elim (Bool-cases (not (prompt_eq c.prompt waiting) || not (id_eq c.prompt_id p.id))) [
        | inl h ↦ rw (h, retry_request) (refl, refl)
        | inr h ↦ elim (Bool-cases (due now_ms p.next_try_ms)) [
          | inl soon ↦ rw (h, soon, retry_request) (refl, refl)
          | inr later ↦ rw (h, later, retry_request) (refl, refl)
        ]
      ]

  retry_keys-Same :
      (c : MeshCore) (now_ms i type tries : ℕ) → Same c (retry_keys c now_ms i type tries).0
  unfolding retry_keys send_keys next_header jitter
  retry_keys-Same c now_ms i type tries =
      let p = peer_at c i in
      elim (Bool-cases (due now_ms p.next_try_ms)) [
        | inr later ↦ rw (later, retry_keys) (refl, refl)
        | inl soon ↦ elim (Bool-cases (leb tries p.tries)) [
          | inl enough ↦ rw (soon, enough, retry_keys) (lapse-Same c i)
          | inr more ↦ rw (soon, more, retry_keys) (refl, refl)
        ]
      ]

  retry-Same : (c : MeshCore) (now_ms i : ℕ) (hs : Hs) → Same c (retry c now_ms i hs).0
  unfolding retry
  retry-Same c now_ms i req_sent = retry_request-Same c now_ms i
  retry-Same c now_ms i accept_sent = retry_keys-Same c now_ms i type_friend_accept _
  retry-Same c now_ms i keys_sent = retry_keys-Same c now_ms i type_friend_keys _
  retry-Same c now_ms i hs_none = (refl, refl)
  retry-Same c now_ms i req_recv = (refl, refl)

  handshake_peer-Same : (c : MeshCore) (now_ms i : ℕ) → Same c (handshake_peer c now_ms i).0
  unfolding handshake_peer
  handshake_peer-Same c now_ms i =
      let d = (send_ack c now_ms i).0 in
      if-Same-pair c _ _ (not (peer_at c i).used) (refl, refl)
        (Same-trans c d (retry d now_ms i (peer_at d i).hs).0 (send_ack-Same c now_ms i)
          (retry-Same d now_ms i (peer_at d i).hs))

  handshake_peers-Same :
      (left : ℕ) (c : MeshCore) (now_ms i : ℕ) → Same c (handshake_peers left c now_ms i).0
  unfolding handshake_peers
  handshake_peers-Same zero c now_ms i = (refl, refl)
  handshake_peers-Same (suc left) c now_ms i =
      let d = (handshake_peer c now_ms i).0 in
      Same-trans c d (handshake_peers left d now_ms (i + 1)).0 (handshake_peer-Same c now_ms i)
        (handshake_peers-Same left d now_ms (i + 1))

  send_own_look-Same :
      (c : MeshCore) (now_ms : ℕ) (near : Bool) → Same c (send_own_look c now_ms near).0
  unfolding send_own_look next_header
  send_own_look-Same c now_ms near = if-Same-pair c _ _ _ (refl, refl) (refl, refl)

  send_pos-Same : (c : MeshCore) (now_ms : ℕ) (near : Bool) → Same c (send_pos c now_ms near).0
  unfolding send_pos periodic next_header jitter
  send_pos-Same c now_ms near = if-Same-pair c _ _ _ (refl, refl) (refl, refl)

  -- A tick at any time changes neither the friends nor their tag keys, whatever it expires, retries,
  -- gives up or sends.
  pub mesh_core_tick-Same :
      (c : MeshCore) (now_ms : ℕ) (allowed : Bool) → Same c (mesh_core_tick c now_ms allowed).0
  unfolding mesh_core_tick
  mesh_core_tick-Same c now_ms allowed =
      let dt = if c.ticked then sub32 now_ms c.last_tick_ms else 0 in
      let c0 = record c { last_tick_ms = now_ms; ticked = true } in
      let (c1, near) = expire_peers mesh_max_peers c0 false now_ms 0 in
      let c2 = run_prompt c1 now_ms dt allowed in
      let c3 = (send_hello c2 now_ms).0 in
      let c4 = (handshake_peers mesh_max_peers c3 now_ms 0).0 in
      let c5 = (send_own_look c4 now_ms near).0 in
      let c6 = (send_pos c5 now_ms near).0 in
      if-Same-pair c _ _ (not c0.enabled || not c0.has_identity) (refl, refl)
        (Same-trans c c1 c6 (expire_peers-Same mesh_max_peers c0 false now_ms 0) (
          Same-trans c1 c2 c6 (run_prompt-Same c1 now_ms dt allowed) (
            Same-trans c2 c3 c6 (send_hello-Same c2 now_ms) (
              Same-trans c3 c4 c6 (handshake_peers-Same mesh_max_peers c3 now_ms 0) (
                Same-trans c4 c5 c6 (send_own_look-Same c4 now_ms near)
                  (send_pos-Same c5 now_ms near))))))
