-- ===== src/Mesh/Core/Setup.antt =====
-- firmware/main/mesh_core.c, start and settings: boot, on and off, identity, look, Add friend.
use Prim.Native.Nat.{bit_xor}
use open_apex.Base.{
  ℕ, ◌+◌, ◌*◌, Bool, true, false, not, ◌||◌, ◌&&◌, if◌then◌else◌, Option, none, some, [], replicate,
  u32, bytes_eq,
}
use open_apex.Mesh.Crypto.{mesh_tag_key, mesh_pseudonym_make}
use open_apex.Mesh.Fields.{MeshLook, put_u32}
use open_apex.Mesh.Records.{MeshIdentity}
use open_apex.Mesh.Floats.{Floats}
use open_apex.Mesh.Core.{
  mesh_max_peers, mesh_look_push_tries, mesh_friend_events, hs_eq, req_sent, req_recv, prompt_none,
  offer, waiting, prompt_eq, zero_id, zero_key, zero_look, zero_pos, zero_event, look_eq,
  blank_peer, MeshCore, peer_at,
}
use open_apex.Mesh.Core.Peers.{peer_find}
use open_apex.Mesh.Core.Handshake.{close_prompt}

module _ ⦃fl : Floats⦄ where
  -- `memset`, and the fields that boot sets. MESH_PAIR_MIN_RSSI is -70; the look is not public at
  -- all times. The bytes of `prand` are those of a little-endian `uint32_t`.
  unfoldable pub mesh_core_init : ℕ → MeshCore
  mesh_core_init session_seed = record {
    enabled = true;
    has_identity = false;
    self = record { id = zero_id; key = zero_key; name = [] };
    self_tag_key = zero_key;
    prand = put_u32 (u32 (session_seed * 2654435761 + 0x9E3779B9));
    pseud = zero_id;
    look = zero_look;
    session = session_seed;
    seq = 0;
    rng = bit_xor session_seed 0xA5A5A5A5;
    always_discoverable = false;
    menu_open = false;
    pair_min_rssi = 186;
    cand = [];
    has_own_pos = false;
    own_pos = zero_pos;
    own_pos_ms = 0;
    fixes = [];
    peers = replicate mesh_max_peers blank_peer;
    friends = [];
    tag_keys = [];
    friends_generation = 0;
    prompt = prompt_none;
    prompt_id = zero_id;
    prompt_look = zero_look;
    prompt_shown_ms = 0;
    prompt_done_at_ms = 0;
    prompt_visible = false;
    look_push_left = 0;
    last_look_ms = 0;
    last_tick_ms = 0;
    hello_started = false;
    next_hello_ms = 0;
    next_pos_ms = 0;
    ticked = false;
    has_friend_fix = false;
    friend_fix = zero_pos;
    events = replicate mesh_friend_events zero_event;
    event_head = 0;
    event_count = 0;
  }

  pub mesh_core_set_enabled : MeshCore → Bool → MeshCore
  mesh_core_set_enabled c enabled = record c {
    enabled = enabled;
    prompt = if enabled then c.prompt else prompt_none;
  }

  pub mesh_core_set_identity : MeshCore → Option MeshIdentity → MeshCore
  mesh_core_set_identity c none = record c { has_identity = false }
  mesh_core_set_identity c (some id) =
      let tag_key = mesh_tag_key id.key in
      record c {
        has_identity = true;
        self = id;
        self_tag_key = tag_key;
        pseud = mesh_pseudonym_make tag_key c.prand;
        look_push_left =
            if c.has_identity && not (bytes_eq c.self.name id.name)
            then mesh_look_push_tries
            else c.look_push_left;
      }

  pub mesh_core_set_look : MeshCore → MeshLook → MeshCore
  mesh_core_set_look c look = record c {
    look_push_left = if look_eq c.look look then c.look_push_left else mesh_look_push_tries;
    look = look;
  }

  -- An unanswered request of the page's rider is withdrawn or passed over.
  leave_menu : MeshCore → MeshCore
  leave_menu c = elim (peer_find c c.prompt_id) [
    | none ↦ close_prompt c
    | some i ↦
        if hs_eq (peer_at c i).hs req_sent || hs_eq (peer_at c i).hs req_recv
        then close_prompt c
        else c
  ]

  pub mesh_core_set_menu_open : MeshCore → Bool → MeshCore
  unfolding leave_menu
  mesh_core_set_menu_open c opened =
      let c' =
        if c.menu_open && not opened && (prompt_eq c.prompt offer || prompt_eq c.prompt waiting)
        then leave_menu c
        else c in
      record c' { menu_open = opened; cand = if opened then c'.cand else [] }

  pub mesh_core_set_always_discoverable : MeshCore → Bool → MeshCore
  mesh_core_set_always_discoverable c on = record c { always_discoverable = on }

  pub mesh_core_set_pair_min_rssi : MeshCore → ℕ → MeshCore
  mesh_core_set_pair_min_rssi c dbm = record c { pair_min_rssi = dbm }
