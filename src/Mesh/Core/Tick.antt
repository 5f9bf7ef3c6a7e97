-- ===== src/Mesh/Core/Tick.antt =====
-- firmware/main/mesh_core.c, `mesh_core_tick`: each phase gives the state and the frames it sends,
-- in order.
pub mod Laws
use open_apex.Base.{
  ℕ, zero, suc, ◌+◌, ◌-◌, ◌%◌, ◌^◌, Bool, true, false, not, ◌||◌, ◌&&◌, ltb, leb, ◌==◌,
  if◌then◌else◌, Option, none, some, List, [], ◌∷◌, ◌++◌, u8, u16, u32, sub32,
}
use open_apex.Mesh.Fields.{MeshLook}
use open_apex.Mesh.Proto.{MeshHeader, mesh_encode_hello, mesh_encode_pos, mesh_encode_look}
use open_apex.Mesh.Floats.{Floats}
use open_apex.Mesh.Core.{
  mesh_no_friend, Hs, hs_none, req_sent, req_recv, accept_sent, keys_sent, hs_eq, PromptState,
  prompt_none, waiting, done, prompt_eq, id_eq, fresh, due, mesh_max_peers, MeshPeer, MeshCore,
  peer_at, put_peer,
}
use open_apex.Mesh.Core.Peers.{peer_find, peer_friend}
use open_apex.Mesh.Core.Handshake.{
  type_hello, type_friend_accept, type_friend_keys, type_friend_ack, type_pos, type_look,
  mesh_frame_max, mesh_request_retry_ms, mesh_accept_retry_ms, mesh_retry_jitter_ms, sent,
  next_header, own_look, send_request, send_target, send_keys, jitter, close_prompt, lapse,
}
use open_apex.Mesh.Core.Position.{mesh_own_pos_max_age_ms}
use open_apex.Mesh.Core.Menu.{mesh_peer_timeout_ms}

abbrev pub mesh_prompt_timeout_ms : ℕ
mesh_prompt_timeout_ms = 20000

abbrev pub mesh_prompt_done_ms : ℕ
mesh_prompt_done_ms = 3000

abbrev pub mesh_hello_period_ms : ℕ
mesh_hello_period_ms = 2000

abbrev pub mesh_pos_period_ms : ℕ
mesh_pos_period_ms = 1000

abbrev pub mesh_look_push_ms : ℕ
mesh_look_push_ms = 1000

abbrev pub mesh_accept_tries : ℕ
mesh_accept_tries = 5

abbrev pub mesh_keys_tries : ℕ
mesh_keys_tries = 12

abbrev pub mesh_prompt_min_turn_m : ℕ
mesh_prompt_min_turn_m = 50

pub mesh_core_prompt_gate : Bool → ℕ → Bool
mesh_core_prompt_gate navigating turn_distance_m =
    not navigating || ltb mesh_prompt_min_turn_m turn_distance_m

module _ ⦃fl : Floats⦄ where
  -- The first loop at one peer: `near` is `friend_near`.
  pub expire_peer : MeshCore → Bool → ℕ → ℕ → MeshCore × Bool
  expire_peer c near now_ms i =
      let p = peer_at c i in
      let recent = fresh now_ms p.heard_ms mesh_peer_timeout_ms in
      if not p.used
      then (c, near)
      else if not recent && not (not (prompt_eq c.prompt prompt_none) && id_eq p.id c.prompt_id)
      then (put_peer c i (record p { used = false }), near)
      else let (c', idx) = peer_friend c i in (c', near || (not (idx == mesh_no_friend) && recent))

  -- The loop over the table from index `i`, with `left` entries to go.
  pub expire_peers : ℕ → MeshCore → Bool → ℕ → ℕ → MeshCore × Bool
  unfolding expire_peer
  expire_peers zero c near now_ms i = (c, near)
  expire_peers (suc left) c near now_ms i =
      let (c', near') = expire_peer c near now_ms i in expire_peers left c' near' now_ms (i + 1)

  -- The page of a rider in range: their look, the time on screen, and the time-out.
  pub show_prompt : MeshCore → MeshPeer → ℕ → Bool → MeshCore
  show_prompt c p dt_ms allowed =
      let shown = if allowed then u32 (c.prompt_shown_ms + dt_ms) else c.prompt_shown_ms in
      let c' = record c { prompt_look = p.look; prompt_shown_ms = shown } in
      if leb mesh_prompt_timeout_ms shown then close_prompt c' else c'

  pub run_open : MeshCore → ℕ → ℕ → Bool → MeshCore
  unfolding show_prompt
  run_open c now_ms dt_ms allowed = elim (peer_find c c.prompt_id) [
    | none ↦ close_prompt c
    | some i ↦
        if not (fresh now_ms (peer_at c i).heard_ms mesh_peer_timeout_ms)
        then close_prompt c
        else show_prompt c (peer_at c i) dt_ms allowed
  ]

  pub run_prompt : MeshCore → ℕ → ℕ → Bool → MeshCore
  unfolding run_open
  run_prompt c now_ms dt_ms allowed =
      let c' = record c { prompt_visible = allowed } in
      if prompt_eq c'.prompt done
      then if leb mesh_prompt_done_ms (sub32 now_ms c'.prompt_done_at_ms)
        then record c' { prompt = prompt_none }
        else c'
      else if prompt_eq c'.prompt prompt_none
      then c'
      else run_open c' now_ms dt_ms allowed

  -- The time of the next periodic frame.
  pub periodic : MeshCore → ℕ → ℕ → MeshCore × ℕ
  periodic c now_ms period_ms = let (c', j) = jitter c in (c', u32 (now_ms + period_ms - 200 + j))

  pub send_hello : MeshCore → ℕ → MeshCore × List (List ℕ)
  unfolding periodic
  send_hello c now_ms =
      if c.hello_started && not (due now_ms c.next_hello_ms)
      then (c, [])
      else let (c1, next) = periodic c now_ms mesh_hello_period_ms in
        let c2 = record c1 { hello_started = true; next_hello_ms = next } in
        let (c3, h) = next_header c2 type_hello in
        let look = if c3.always_discoverable || c3.menu_open then some (own_look c3) else none in
        (c3, sent (mesh_encode_hello h look 0 mesh_frame_max))

  -- An ACK that is owed.
  pub send_ack : MeshCore → ℕ → ℕ → MeshCore × List (List ℕ)
  send_ack c now_ms i =
      let p = peer_at c i in
      if p.ack_due && due now_ms p.ack_at_ms
      then send_target (put_peer c i (record p { ack_due = false })) type_friend_ack p.id
      else (c, [])

  -- A request of ours: dropped when its page has closed, else sent again when due.
  pub retry_request : MeshCore → ℕ → ℕ → MeshCore × List (List ℕ)
  retry_request c now_ms i =
      let p = peer_at c i in
      if not (prompt_eq c.prompt waiting) || not (id_eq c.prompt_id p.id)
      then (put_peer c i (record p { hs = hs_none }), [])
      else if not (due now_ms p.next_try_ms)
      then (c, [])
      else let (c', j) = jitter c in
        send_request
          (put_peer c' i (record p { next_try_ms = u32 (now_ms + mesh_request_retry_ms + j) })) p.id

  -- ACCEPT or KEYS: up to the number of tries, then the handshake lapses.
  pub retry_keys : MeshCore → ℕ → ℕ → ℕ → ℕ → MeshCore × List (List ℕ)
  retry_keys c now_ms i type max_tries =
      let p = peer_at c i in
      if not (due now_ms p.next_try_ms)
      then (c, [])
      else if leb max_tries p.tries
      then (lapse c i, [])
      else let (c', j) = jitter c in
        send_keys
          (put_peer c' i (record p {
            tries = u8 (p.tries + 1);
            next_try_ms = u32 (now_ms + mesh_accept_retry_ms + j);
          }))
          type p.id

  -- The `switch (p->hs)`.
  pub retry : MeshCore → ℕ → ℕ → Hs → MeshCore × List (List ℕ)
  unfolding retry_request retry_keys
  retry c now_ms i req_sent = retry_request c now_ms i
  retry c now_ms i accept_sent = retry_keys c now_ms i type_friend_accept mesh_accept_tries
  retry c now_ms i keys_sent = retry_keys c now_ms i type_friend_keys mesh_keys_tries
  retry c now_ms i _ = (c, [])

  pub handshake_peer : MeshCore → ℕ → ℕ → MeshCore × List (List ℕ)
  unfolding send_ack retry
  handshake_peer c now_ms i =
      if not (peer_at c i).used
      then (c, [])
      else let (c1, acks) = send_ack c now_ms i in
        let (c2, tries) = retry c1 now_ms i (peer_at c1 i).hs in (c2, acks ++ tries)

  pub handshake_peers : ℕ → MeshCore → ℕ → ℕ → MeshCore × List (List ℕ)
  unfolding handshake_peer
  handshake_peers zero c now_ms i = (c, [])
  handshake_peers (suc left) c now_ms i =
      let (c1, first) = handshake_peer c now_ms i in
      let (c2, rest) = handshake_peers left c1 now_ms (i + 1) in (c2, first ++ rest)

  pub send_own_look : MeshCore → ℕ → Bool → MeshCore × List (List ℕ)
  send_own_look c now_ms near =
      if c.look_push_left == 0
        || not near
        || not (c.last_look_ms == 0 || leb mesh_look_push_ms (sub32 now_ms c.last_look_ms))
      then (c, [])
      else let c1 = record c {
        last_look_ms = if now_ms == 0 then 1 else now_ms;
        look_push_left = c.look_push_left - 1;
      } in
        let (c2, h) = next_header c1 type_look in
        (c2, sent (mesh_encode_look h c2.self.key c2.session (own_look c2) mesh_frame_max))

  pub send_pos : MeshCore → ℕ → Bool → MeshCore × List (List ℕ)
  unfolding periodic
  send_pos c now_ms near =
      if not c.has_own_pos
        || not (fresh now_ms c.own_pos_ms mesh_own_pos_max_age_ms)
        || not (due now_ms c.next_pos_ms)
        || not near
      then (c, [])
      else let (c1, next) = periodic c now_ms mesh_pos_period_ms in
        let (c2, h) = next_header (record c1 { next_pos_ms = next }) type_pos in
        (
          c2,
          sent (
              mesh_encode_pos h c2.self.key c2.session c2.own_pos (u16 (sub32 now_ms c2.own_pos_ms))
                0 mesh_frame_max),
        )

  pub mesh_core_tick : MeshCore → ℕ → Bool → MeshCore × List (List ℕ)
  unfolding expire_peers run_prompt send_hello handshake_peers send_own_look send_pos
  mesh_core_tick c now_ms prompt_allowed =
      let dt = if c.ticked then sub32 now_ms c.last_tick_ms else 0 in
      let c0 = record c { last_tick_ms = now_ms; ticked = true } in
      if not c0.enabled || not c0.has_identity
      then (c0, [])
      else let (c1, near) = expire_peers mesh_max_peers c0 false now_ms 0 in
        let c2 = run_prompt c1 now_ms dt prompt_allowed in
        let (c3, hellos) = send_hello c2 now_ms in
        let (c4, steps) = handshake_peers mesh_max_peers c3 now_ms 0 in
        let (c5, looks) = send_own_look c4 now_ms near in
        let (c6, poses) = send_pos c5 now_ms near in (c6, hellos ++ (steps ++ (looks ++ poses)))

  -- The prompt to draw, with its rider and look; `prompt_none` while the gate holds it back.
  pub mesh_core_prompt : MeshCore → PromptState
  mesh_core_prompt c = if c.prompt_visible then c.prompt else prompt_none
