-- ===== src/Mesh/Core/Tests.antt =====
-- The mesh core on a concrete state, with exact numbers in place of floating point.
use open_apex.Base.{
  ℕ, zero, length, ◌≤◌, ◌+◌, ◌-◌, ◌*◌, ◌/◌, ◌%◌, ◌^◌, ◌≡◌, ◌≢◌, ◌⊎◌, ◌↔◌, inl, inr, refl, arith,
  true, false, Bool-cases, ltb, leb, if◌then◌else◌, none, some, List, [], ◌∷◌, ◌++◌, replicate,
  bytes_eq,
}
use open_apex.Mesh.Fields.{MeshLook}
use open_apex.Mesh.Records.{MeshFriend}
use open_apex.Mesh.Proto.{MeshHeader, mesh_decode_header}
use open_apex.Mesh.Floats.{Floats}
use open_apex.Mesh.Core.{
  req_recv, added, MeshFriendEvent, blank_peer, MeshCore, peer_at, zero_id, mesh_max_friends,
}
use open_apex.Mesh.Core.Friends.{
  mesh_core_friend_upsert, mesh_core_friend_remove, mesh_core_friend_clear, push_event,
  mesh_core_take_friend_event, friend_count,
}
use open_apex.Mesh.Core.Friends.Laws.{entry}
use open_apex.Mesh.Core.Friends.Invariant.{
  tags, FriendsValid, friend_ops-Valid, entry-upsert, entry-remove,
}
use open_apex.Mesh.Core.Friends.Events.{
  EventsValid, pending, room, pending-push_event, pending-take,
}
use open_apex.Mesh.Core.Peers.{find_from, peer_find, peer_friend, resolve}
use open_apex.Mesh.Core.Peers.Laws.{Same}
use open_apex.Mesh.Core.Peers.Links.{LinksValid, peer_friend-LinksValid}
use open_apex.Mesh.Crypto.{mesh_tag_key, mesh_pseudonym_make}
use open_apex.Mesh.Core.Handshake.Nonces.{headers, headers-ne}
use open_apex.Mesh.Core.Receive.{accepts_key, mesh_core_rx}
use open_apex.Mesh.Core.Receive.Cases.{credentials}
use open_apex.Mesh.Core.Receive.Consent.{mesh_core_rx-Valid, mesh_core_rx-credentials}
use open_apex.Mesh.Core.Range.{mesh_core_friends_in_range}
use open_apex.Mesh.Core.Range.Bounds.{Draws, mesh_core_friends_in_range-Drawn}
use open_apex.Mesh.Core.Setup.{mesh_core_init}
use open_apex.Mesh.Core.Tick.{mesh_core_tick}
use open_apex.Mesh.Core.Tick.Laws.{mesh_core_tick-Same}

instance abbrev exact : Floats
exact = record {
  Float = ℕ;
  Double = ℕ;
  float_lit = λ n k. n;
  float_of_i8 = λ n. n;
  float_of_u32 = λ n. n;
  float_of_double = λ n. n;
  float_neg = λ n. n;
  float_add = ◌+◌;
  float_sub = ◌-◌;
  float_mul = ◌*◌;
  float_div = ◌/◌;
  float_lt = ltb;
  float_le = leb;
  expf = λ n. n;
  hypotf = ◌+◌;
  double_lit = λ n k. n;
  double_of_i32 = λ n. n;
  double_of_u32 = λ n. n;
  double_of_float = λ n. n;
  i32_of_double = λ n. n;
  double_neg = λ n. n;
  double_add = ◌+◌;
  double_sub = ◌-◌;
  double_mul = ◌*◌;
  double_div = ◌/◌;
  double_lt = ltb;
  double_le = leb;
  cos = λ n. n;
  atan2 = ◌+◌;
}

abbrev ada_id : List ℕ
ada_id = 1 ∷ 2 ∷ 3 ∷ 4 ∷ 5 ∷ 6 ∷ 7 ∷ 8 ∷ []

abbrev bob_id : List ℕ
bob_id = replicate 8 9

abbrev look : MeshLook
look = record { avatar = 4; accent_rgb = 0x11_22_33; name = b'A' ∷ [] }

abbrev ada : MeshFriend
ada = record { id = ada_id; key = replicate 16 1; look = look }

abbrev bob : MeshFriend
bob = record { id = bob_id; key = replicate 16 2; look = look }

-- Ada is a friend; a rider with the pseudonym of Bob's id has asked to become one.
core : MeshCore
unfolding mesh_core_init
core = record (mesh_core_init 7) {
  friends = ada ∷ [];
  tag_keys = tags (ada ∷ []);
  has_identity = true;
  peers = record blank_peer { used = true; id = bob_id; hs = req_recv } ∷ replicate 7 blank_peer;
}

core-Valid : FriendsValid core
unfolding core
core-Valid = (omega arith, (tt, tt), refl)

core-EventsValid : EventsValid core
unfolding core mesh_core_init
core-EventsValid = (refl, omega arith, omega arith)

friend_ops-Valid_example :
    FriendsValid (mesh_core_friend_upsert core bob).0
    × FriendsValid (mesh_core_friend_remove core ada_id).0
    × FriendsValid (mesh_core_friend_clear core)
friend_ops-Valid_example = friend_ops-Valid core bob ada_id core-Valid

entry-upsert_example :
    (mesh_core_friend_upsert core bob ≡ (core, false))
      × (friend_count core ≡ mesh_max_friends)
      × (entry bob_id core.friends ≡ none)
    ⊎ ((mesh_core_friend_upsert core bob).1 ≡ true)
      × ((id : List ℕ)
          → entry id (mesh_core_friend_upsert core bob).0.friends
            ≡ (if bytes_eq bob_id id then some bob else entry id core.friends))
entry-upsert_example = entry-upsert core bob core-Valid

entry-remove_example :
    ((other : List ℕ)
      → entry other (mesh_core_friend_remove core ada_id).0.friends
        ≡ (if bytes_eq ada_id other then none else entry other core.friends))
    × ((entry ada_id core.friends ≡ none) ↔ ((mesh_core_friend_remove core ada_id).1 ≡ false))
entry-remove_example = entry-remove core ada_id core-Valid

pending-push_event_example :
    EventsValid (push_event core added bob)
    × (pending (push_event core added bob)
        ≡ room (pending core) ++ (record { kind = added; friend = bob } ∷ []))
pending-push_event_example = pending-push_event core added bob core-EventsValid

pending-take_example :
    EventsValid (mesh_core_take_friend_event (push_event core added bob)).0
    × ((mesh_core_take_friend_event (push_event core added bob) ≡ (push_event core added bob, none))
          × (pending (push_event core added bob) ≡ [])
        ⊎ ((e : MeshFriendEvent) × ((mesh_core_take_friend_event (push_event core added bob)).1
              ≡ some e)
            × (pending (push_event core added bob)
                ≡ e ∷ pending (mesh_core_take_friend_event (push_event core added bob)).0)))
pending-take_example =
    pending-take (push_event core added bob) (pending-push_event core added bob core-EventsValid).0

-- FRIEND_KEYS from the rider who has asked, before our rider has answered.
abbrev keys_frame : List ℕ
keys_frame = b'O' ∷ b'A' ∷ 2 ∷ 5 ∷ (bob_id ++ (1 ∷ 0 ∷ (zero_id ++ (bob_id ++ replicate 16 2))))

mesh_core_rx-Valid_example : FriendsValid (mesh_core_rx core keys_frame 128 1000)
mesh_core_rx-Valid_example = mesh_core_rx-Valid core keys_frame 128 1000 core-Valid

injective : {x y : ℕ} → some x ≡ some y → x ≡ y
injective e = cc

nothing : {x : ℕ} → none ≡ some x → ⊥
nothing e = cc

bob_waits :
    (h : MeshHeader) (i : ℕ)
    → mesh_decode_header keys_frame ≡ some h
    → peer_find core h.sender ≡ some i
    → (accepts_key (peer_at core i).hs ≡ false) × ((peer_at core i).consented ≡ false)
unfolding core peer_find find_from accepts_key
bob_waits h i e f = elim (Bool-cases (bytes_eq bob_id h.sender)) [
  | inl same ↦ let at : zero ≡ i = injective (rw same at f) in rw (← at) (refl, refl)
  | inr other ↦ absurd (nothing (rw other at f))
]

mesh_core_rx-credentials_example :
    credentials (mesh_core_rx core keys_frame 128 1000).friends ≡ credentials core.friends
mesh_core_rx-credentials_example = mesh_core_rx-credentials core keys_frame 128 1000 bob_waits

headers-ne_example :
    ((headers (4 ∷ 7 ∷ []) core).session % 2 ^ 24 ≢ core.session % 2 ^ 24)
    ⊎ ((headers (4 ∷ 7 ∷ []) core).seq ≢ core.seq)
unfolding core mesh_core_init
headers-ne_example = headers-ne (4 ∷ 7 ∷ []) core (omega arith) (omega arith) (omega arith)

mesh_core_tick-Same_example : Same core (mesh_core_tick core 1000 true).0
mesh_core_tick-Same_example = mesh_core_tick-Same core 1000 true

-- Ada rides nearby: a peer under a pseudonym made with her key, and a rider who is no friend.
nearby : MeshCore
unfolding mesh_core_init
nearby = record (mesh_core_init 7) {
  enabled = true;
  friends = ada ∷ [];
  tag_keys = tags (ada ∷ []);
  peers =
      record blank_peer { used = true; id = bob_id; has_off = true; off_ms = 900 }
      ∷ record blank_peer {
        used = true;
        id = mesh_pseudonym_make (mesh_tag_key ada.key) ada_id;
        has_off = true;
        off_east_m = 30;
        off_north_m = 40;
        off_ms = 900;
      }
      ∷ [];
}

nearby-Valid : FriendsValid nearby
unfolding nearby
nearby-Valid = (omega arith, (tt, tt), refl)

nearby-LinksValid : LinksValid nearby
unfolding nearby
nearby-LinksValid = ((λ e. cc), ((λ e. cc), tt))

mesh_core_friends_in_range-Drawn_example :
    (length (mesh_core_friends_in_range nearby 1000 4) ≤ 4)
    × (nearby.enabled ≡ true
        → Draws nearby 1000 4 nearby.peers (mesh_core_friends_in_range nearby 1000 4))
    × (nearby.enabled ≡ false → mesh_core_friends_in_range nearby 1000 4 ≡ [])
mesh_core_friends_in_range-Drawn_example =
    mesh_core_friends_in_range-Drawn nearby 1000 4 nearby-Valid nearby-LinksValid

peer_friend-LinksValid_example :
    LinksValid (peer_friend nearby 1).0
    × ((peer_friend nearby 1).1 ≡ resolve nearby (peer_at nearby 1).id)
peer_friend-LinksValid_example = peer_friend-LinksValid nearby 1 nearby-LinksValid
