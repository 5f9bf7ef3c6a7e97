-- ===== src/Mesh/Core.antt =====
-- firmware/main/mesh_core.h: the state of the rider mesh. The first `friend_count` entries of
-- `friends` and `tag_keys`, the first `fix_count` of `fixes` and the first `cand_n` of `cand` are
-- lists of that length; nothing reads the slots behind them. `peers` and `events` are whole arrays.
-- A pointer to a peer is its index.
pub mod Friends
pub mod Peers
pub mod Handshake
pub mod Position
pub mod Receive
pub mod Menu
pub mod Tick
pub mod Range
pub mod Setup
mod Tests
use open_apex.Base.{
  ℕ, zero, suc, ◌+◌, ◌-◌, ◌*◌, ◌%◌, ◌/◌, ◌^◌, Bool, true, false, not, ◌||◌, ◌&&◌, ltb, leb, ◌==◌,
  if◌then◌else◌, Option, none, some, List, [], ◌∷◌, ◌++◌, length, take, set, get_or, replicate, u8,
  u32, sub32, bytes_eq, bit_xor, ◌>>>◌,
}
use open_apex.Mesh.Crypto.{mesh_tag_key, mesh_pseudonym_make}
use open_apex.Mesh.Fields.{MeshLook}
use open_apex.Mesh.Records.{MeshIdentity, MeshFriend}
use open_apex.Mesh.Proto.{MeshPos}
use open_apex.Mesh.Floats.{Floats}

abbrev pub mesh_max_peers : ℕ
mesh_max_peers = 8

abbrev pub mesh_max_friends : ℕ
mesh_max_friends = 16

abbrev pub mesh_own_fixes : ℕ
mesh_own_fixes = 6

abbrev pub mesh_look_push_tries : ℕ
mesh_look_push_tries = 3

abbrev pub mesh_friend_events : ℕ
mesh_friend_events = 2

abbrev pub mesh_no_friend : ℕ
mesh_no_friend = 0xFF

-- `mesh_hs_t`.
pub data Hs : Type 0 where
  hs_none req_sent req_recv accept_sent keys_sent : Hs

-- `mesh_prompt_state_t`.
pub data PromptState : Type 0 where
  prompt_none offer waiting done : PromptState

-- `mesh_friend_event_kind_t`.
pub data EventKind : Type 0 where
  added updated : EventKind

-- `p->hs == MESH_HS_…` and `c->prompt == MESH_PROMPT_…`.
abbrev pub hs_eq : Hs → Hs → Bool
hs_eq hs_none hs_none = true
hs_eq req_sent req_sent = true
hs_eq req_recv req_recv = true
hs_eq accept_sent accept_sent = true
hs_eq keys_sent keys_sent = true
hs_eq _ _ = false

abbrev pub prompt_eq : PromptState → PromptState → Bool
prompt_eq prompt_none prompt_none = true
prompt_eq offer offer = true
prompt_eq waiting waiting = true
prompt_eq done done = true
prompt_eq _ _ = false

pub record MeshFriendEvent : Type 0 where
  pub kind : EventKind
  pub friend : MeshFriend  -- `record`

pub record MeshFix : Type 0 where
  pub lat_e7 : ℕ
  pub lon_e7 : ℕ
  pub t_ms : ℕ

abbrev pub zero_id : List ℕ
zero_id = replicate 8 0

abbrev pub zero_key : List ℕ
zero_key = replicate 16 0

abbrev pub zero_look : MeshLook
zero_look = record { avatar = 0; accent_rgb = 0; name = [] }

abbrev pub zero_friend : MeshFriend
zero_friend = record { id = zero_id; key = zero_key; look = zero_look }

abbrev pub zero_event : MeshFriendEvent
zero_event = record { kind = added; friend = zero_friend }

abbrev pub zero_pos : MeshPos
zero_pos = record { lat_e7 = 0; lon_e7 = 0; speed_kmh_x10 = 0; heading_deg_x10 = 0; acc_m = 0 }

-- `memcmp` over a rider id.
abbrev pub id_eq : List ℕ → List ℕ → Bool
id_eq a b = bytes_eq a b

abbrev pub look_eq : MeshLook → MeshLook → Bool
look_eq a b = a.avatar == b.avatar && a.accent_rgb == b.accent_rgb && bytes_eq a.name b.name

abbrev pub fresh : ℕ → ℕ → ℕ → Bool
fresh now_ms at_ms max_age_ms = leb (sub32 now_ms at_ms) max_age_ms

-- `(int32_t)(now_ms - at_ms) >= 0`.
abbrev pub due : ℕ → ℕ → Bool
due now_ms at_ms = ltb (sub32 now_ms at_ms) (2 ^ 31)

module _ ⦃fl : Floats⦄ where
  open fl use {Float, float_lit}

  pub record MeshPeer : Type 0 where
    pub used : Bool
    pub id : List ℕ
    pub heard_ms : ℕ
    pub has_look : Bool
    pub public_look : Bool
    pub look : MeshLook
    pub has_rssi : Bool
    pub rssi_dbm : Float
    pub friend_idx : ℕ
    pub resolved_gen : ℕ
    pub resolved : Bool
    pub announced : Bool
    pub has_off : Bool
    pub off_east_m : Float
    pub off_north_m : Float
    pub off_ms : ℕ
    pub hs : Hs
    pub consented : Bool
    pub tries : ℕ
    pub next_try_ms : ℕ
    pub ack_due : Bool
    pub ack_at_ms : ℕ

  -- `memset(p, 0, sizeof(*p))`.
  abbrev pub blank_peer : MeshPeer
  blank_peer = record {
    used = false;
    id = zero_id;
    heard_ms = 0;
    has_look = false;
    public_look = false;
    look = zero_look;
    has_rssi = false;
    rssi_dbm = float_lit 0 0;
    friend_idx = 0;
    resolved_gen = 0;
    resolved = false;
    announced = false;
    has_off = false;
    off_east_m = float_lit 0 0;
    off_north_m = float_lit 0 0;
    off_ms = 0;
    hs = hs_none;
    consented = false;
    tries = 0;
    next_try_ms = 0;
    ack_due = false;
    ack_at_ms = 0;
  }

  pub record MeshCore : Type 0 where
    pub enabled : Bool
    pub has_identity : Bool
    pub self : MeshIdentity
    pub self_tag_key : List ℕ
    pub prand : List ℕ
    pub pseud : List ℕ
    pub look : MeshLook
    pub session : ℕ
    pub seq : ℕ
    pub rng : ℕ
    pub always_discoverable : Bool
    pub menu_open : Bool
    pub pair_min_rssi : ℕ  -- int8_t, its bit pattern
    pub cand : List (List ℕ)
    pub has_own_pos : Bool
    pub own_pos : MeshPos
    pub own_pos_ms : ℕ
    pub fixes : List MeshFix
    pub peers : List MeshPeer
    pub friends : List MeshFriend
    pub tag_keys : List (List ℕ)
    pub friends_generation : ℕ
    pub prompt : PromptState
    pub prompt_id : List ℕ
    pub prompt_look : MeshLook
    pub prompt_shown_ms : ℕ
    pub prompt_done_at_ms : ℕ
    pub prompt_visible : Bool
    pub look_push_left : ℕ
    pub last_look_ms : ℕ
    pub last_tick_ms : ℕ
    pub hello_started : Bool
    pub next_hello_ms : ℕ
    pub next_pos_ms : ℕ
    pub ticked : Bool
    pub has_friend_fix : Bool
    pub friend_fix : MeshPos
    pub events : List MeshFriendEvent
    pub event_head : ℕ
    pub event_count : ℕ

  -- `c->peers[i]`, and a write through the pointer.
  abbrev pub peer_at : MeshCore → ℕ → MeshPeer
  peer_at c i = get_or c.peers i blank_peer

  abbrev pub put_peer : MeshCore → ℕ → MeshPeer → MeshCore
  put_peer c i p = record c { peers = set c.peers i p }
