-- ===== src/Mesh/Core/Handshake.antt =====
-- firmware/main/mesh_core.c, sending and the friending handshake: headers and sequence numbers,
-- retry times, the prompt, and the steps that a request, an acceptance and the keys make.
pub mod Laws
pub mod Nonces
use open_apex.Base.{
  ℕ, zero, suc, ◌+◌, ◌*◌, ◌%◌, Bool, true, false, not, ◌||◌, ◌&&◌, ltb, leb, ◌==◌, if◌then◌else◌,
  Option, none, some, List, [], ◌∷◌, ◌++◌, set, get_or, u16, u32, ◌>>>◌, bytes_eq,
}
use open_apex.Mesh.Crypto.{mesh_tag_key}
use open_apex.Mesh.Fields.{MeshLook}
use open_apex.Mesh.Records.{MeshFriend}
use open_apex.Mesh.Proto.{MeshHeader, mesh_encode_target, mesh_encode_request, mesh_encode_keys}
use open_apex.Mesh.Floats.{Floats}
use open_apex.Mesh.Core.{
  mesh_max_friends, mesh_no_friend, Hs, hs_none, req_sent, req_recv, accept_sent, keys_sent, hs_eq,
  PromptState, prompt_none, offer, waiting, done, prompt_eq, added, updated, zero_look, zero_friend,
  id_eq, MeshPeer, MeshCore, peer_at, put_peer,
}
use open_apex.Mesh.Core.Friends.{
  mesh_core_friend_find, mesh_core_friend_upsert, push_event, friend_count,
}
use open_apex.Mesh.Core.Peers.{peer_find, peer_friend}

-- Frame types.
module _ where
  abbrev pub type_hello : ℕ
  type_hello = 0x01

  abbrev pub type_friend_request : ℕ
  type_friend_request = 0x02

  abbrev pub type_friend_accept : ℕ
  type_friend_accept = 0x03

  abbrev pub type_pos : ℕ
  type_pos = 0x04

  abbrev pub type_friend_keys : ℕ
  type_friend_keys = 0x05

  abbrev pub type_friend_ack : ℕ
  type_friend_ack = 0x06

  abbrev pub type_look : ℕ
  type_look = 0x07

abbrev pub mesh_frame_max : ℕ
mesh_frame_max = 250

abbrev pub mesh_request_retry_ms : ℕ
mesh_request_retry_ms = 2000

abbrev pub mesh_accept_retry_ms : ℕ
mesh_accept_retry_ms = 1000

abbrev pub mesh_reply_delay_ms : ℕ
mesh_reply_delay_ms = 400

abbrev pub mesh_retry_jitter_ms : ℕ
mesh_retry_jitter_ms = 400

-- `if (n) send(buf, n, ctx);`, as the frames that go out.
abbrev pub sent : Option (List ℕ) → List (List ℕ)
sent none = []
sent (some frame) = frame ∷ []

module _ ⦃fl : Floats⦄ where
  -- The nonce is sender | session | seq: a new session before seq repeats.
  unfoldable pub next_header : MeshCore → ℕ → MeshCore × MeshHeader
  next_header c type =
      let seq = u16 (c.seq + 1) in
      (
        record c {
          seq = seq;
          session = if seq == 0 then u32 (c.session * 1103515245 + 12345) else c.session;
        },
        record { type = type; sender = c.pseud; seq = seq },
      )

  pub own_look : MeshCore → MeshLook
  own_look c = record c.look { name = c.self.name }

  unfoldable pub send_request : MeshCore → List ℕ → MeshCore × List (List ℕ)
  unfolding next_header own_look
  send_request c target =
      let (c', h) = next_header c type_friend_request in
      (c', sent (mesh_encode_request h target (own_look c) mesh_frame_max))

  unfoldable pub send_target : MeshCore → ℕ → List ℕ → MeshCore × List (List ℕ)
  unfolding next_header
  send_target c type target =
      let (c', h) = next_header c type in (c', sent (mesh_encode_target h target mesh_frame_max))

  unfoldable pub send_keys : MeshCore → ℕ → List ℕ → MeshCore × List (List ℕ)
  unfolding next_header
  send_keys c type target =
      let (c', h) = next_header c type in
      (c', sent (mesh_encode_keys h target c.self.id c.self.key mesh_frame_max))

  unfoldable pub jitter : MeshCore → MeshCore × ℕ
  jitter c =
      let rng = u32 (c.rng * 1664525 + 1013904223) in
      (record c { rng = rng }, (rng >>> 16) % mesh_retry_jitter_ms)

  pub set_hs : MeshCore → ℕ → Hs → ℕ → ℕ → MeshCore
  unfolding jitter
  set_hs c i hs base_retry_ms now_ms =
      let (c', j) = jitter c in
      put_peer c' i (record (peer_at c i) {
        hs = hs;
        tries = 1;
        next_try_ms = u32 (now_ms + base_retry_ms + j);
      })

  abbrev pub defer_hs : MeshPeer → Hs → ℕ → MeshPeer
  defer_hs p hs now_ms = record p {
    hs = hs;
    tries = 0;
    next_try_ms = u32 (now_ms + mesh_reply_delay_ms);
  }

  abbrev pub defer_ack : MeshPeer → ℕ → MeshPeer
  defer_ack p now_ms = record p { ack_due = true; ack_at_ms = u32 (now_ms + mesh_reply_delay_ms) }

  -- The peer of a prompt that closes: an unanswered request, ours or theirs, is dropped.
  release_asker : MeshPeer → MeshPeer
  release_asker p =
      if hs_eq p.hs req_sent || hs_eq p.hs req_recv
      then record p { hs = hs_none; consented = false }
      else p

  pub close_prompt : MeshCore → MeshCore
  unfolding release_asker
  close_prompt c =
      record (elim (peer_find c c.prompt_id) [
        | none ↦ c
        | some i ↦ put_peer c i (release_asker (peer_at c i))
      ]) { prompt = prompt_none }

  pub lapse : MeshCore → ℕ → MeshCore
  lapse c i =
      let p = peer_at c i in
      let c' = put_peer c i (record p { hs = hs_none }) in
      if prompt_eq c.prompt waiting && id_eq c.prompt_id p.id
      then record c' { prompt = prompt_none }
      else c'

  -- `have != NULL`: the key of a friend we hold is replaced if it changed.
  update_key : MeshCore → ℕ → List ℕ → MeshCore
  update_key c k key =
      let have = get_or c.friends k zero_friend in
      if bytes_eq have.key key
      then c
      else push_event
          (record c {
            friends = set c.friends k (record have { key = key });
            tag_keys = set c.tag_keys k (mesh_tag_key key);
            friends_generation = u32 (c.friends_generation + 1);
          })
          updated (record have { key = key })

  -- `have == NULL`: a new friend, with the look that was seen. `false` when the list is full.
  add_friend : MeshCore → MeshPeer → List ℕ → List ℕ → MeshCore × Bool
  add_friend c p rider_id key =
      let f : MeshFriend = record {
        id = rider_id;
        key = key;
        look = if p.has_look then p.look else zero_look;
      } in
      let (c', stored) = mesh_core_friend_upsert c f in
      if stored then (push_event c' added f, true) else (c', false)

  store_keys : MeshCore → MeshPeer → List ℕ → List ℕ → MeshCore × Bool
  unfolding update_key add_friend
  store_keys c p rider_id key = elim (mesh_core_friend_find c rider_id) [
    | some k ↦ (update_key c k key, true)
    | none ↦ add_friend c p rider_id key
  ]

  -- "Now friends" on the page, if it is this rider's.
  show_done : MeshCore → MeshPeer → MeshCore
  show_done c p =
      if not (prompt_eq c.prompt prompt_none) && id_eq c.prompt_id p.id
      then record c { prompt = done; prompt_done_at_ms = c.last_tick_ms }
      else c

  pub complete : MeshCore → ℕ → List ℕ → List ℕ → MeshCore × Bool
  unfolding store_keys show_done
  complete c i rider_id key =
      let p = peer_at c i in
      let (c', stored) = store_keys c p rider_id key in
      if stored then (show_done c' p, true) else (c', false)

  -- The page opens with their request.
  open_offer : MeshCore → ℕ → MeshPeer → MeshCore
  open_offer c i p = record (put_peer c i (record p { hs = req_recv })) {
    prompt = offer;
    prompt_id = p.id;
    prompt_look = p.look;
    prompt_shown_ms = 0;
  }

  -- The `switch (p->hs)` of `on_request`.
  answer_request : MeshCore → ℕ → MeshPeer → Hs → ℕ → MeshCore
  unfolding open_offer
  answer_request c i p req_sent now_ms =
      put_peer c i (record (defer_hs p accept_sent now_ms) { consented = true })
  answer_request c i p hs_none now_ms =
      if not (prompt_eq c.prompt prompt_none) || leb mesh_max_friends (friend_count c)
      then c
      else open_offer c i p
  answer_request c i p _ now_ms = c

  pub on_request : MeshCore → ℕ → ℕ → MeshCore
  unfolding answer_request
  on_request c i now_ms =
      let (c', idx) = peer_friend c i in
      let p = peer_at c' i in
      if not (idx == mesh_no_friend)
      then if hs_eq p.hs hs_none then put_peer c' i (defer_hs p accept_sent now_ms) else c'
      else answer_request c' i p p.hs now_ms
