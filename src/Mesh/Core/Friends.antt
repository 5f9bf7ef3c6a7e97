-- ===== src/Mesh/Core/Friends.antt =====
-- firmware/main/mesh_core.c, friend list: find, upsert, remove, clear, and the queue of friend
-- events for the phone.
pub mod Laws
pub mod Removal
pub mod Invariant
pub mod Events
use open_apex.Base.{
  ℕ, zero, suc, ◌+◌, ◌-◌, ◌%◌, Bool, true, false, ltb, leb, ◌==◌, if◌then◌else◌, Option, none, some,
  List, [], ◌∷◌, ◌++◌, length, take, set, get_or, u32,
}
use open_apex.Mesh.Crypto.{mesh_tag_key}
use open_apex.Mesh.Records.{MeshFriend}
use open_apex.Mesh.Floats.{Floats}
use open_apex.Mesh.Core.{
  mesh_max_friends, mesh_friend_events, EventKind, MeshFriendEvent, zero_friend, zero_event, id_eq,
  MeshCore,
}

-- The loop over the list: the index of the first friend with that id.
pub find_friend : ℕ → List MeshFriend → List ℕ → Option ℕ
find_friend i [] id = none
find_friend i (f ∷ fs) id =
    let rest = find_friend (i + 1) fs id in if id_eq f.id id then some i else rest

module _ ⦃fl : Floats⦄ where
  -- The pointer that the code returns is an index, `none` its NULL.
  pub mesh_core_friend_find : MeshCore → List ℕ → Option ℕ
  mesh_core_friend_find c id = find_friend 0 c.friends id

  abbrev pub friend_count : MeshCore → ℕ
  friend_count c = length c.friends

  abbrev bump_generation : MeshCore → MeshCore
  bump_generation c = record c { friends_generation = u32 (c.friends_generation + 1) }

  pub mesh_core_friend_upsert : MeshCore → MeshFriend → MeshCore × Bool
  mesh_core_friend_upsert c f = elim (mesh_core_friend_find c f.id) [
    | some i ↦ (
      bump_generation (record c {
        friends = set c.friends i f;
        tag_keys = set c.tag_keys i (mesh_tag_key f.key);
      }),
      true,
    )
    | none ↦ if leb mesh_max_friends (friend_count c) then (c, false) else (
      bump_generation (record c {
        friends = c.friends ++ (f ∷ []);
        tag_keys = c.tag_keys ++ (mesh_tag_key f.key ∷ []);
      }),
      true,
    )
  ]

  -- The last friend takes the place of the one removed.
  pub mesh_core_friend_remove : MeshCore → List ℕ → MeshCore × Bool
  mesh_core_friend_remove c id = elim (mesh_core_friend_find c id) [
    | none ↦ (c, false)
    | some i ↦
        let count = friend_count c - 1 in
        (
          bump_generation (record c {
            friends = take count (set c.friends i (get_or c.friends count zero_friend));
            tag_keys = take count (set c.tag_keys i (get_or c.tag_keys count []));
          }),
          true,
        )
  ]

  pub mesh_core_friend_clear : MeshCore → MeshCore
  mesh_core_friend_clear c = bump_generation (record c { friends = []; tag_keys = [] })

  -- A full queue drops its oldest event.
  drop_oldest : MeshCore → MeshCore
  drop_oldest c =
      if c.event_count == mesh_friend_events
      then record c {
        event_head = (c.event_head + 1) % mesh_friend_events;
        event_count = c.event_count - 1;
      }
      else c

  pub push_event : MeshCore → EventKind → MeshFriend → MeshCore
  unfolding drop_oldest
  push_event c kind f =
      let d = drop_oldest c in
      record d {
        events =
            set d.events ((d.event_head + d.event_count) % mesh_friend_events)
              (record { kind = kind; friend = f });
        event_count = d.event_count + 1;
      }

  pub mesh_core_take_friend_event : MeshCore → MeshCore × Option MeshFriendEvent
  mesh_core_take_friend_event c = if c.event_count == 0 then (c, none) else (
    record c {
      event_head = (c.event_head + 1) % mesh_friend_events;
      event_count = c.event_count - 1;
    },
    some (get_or c.events c.event_head zero_event),
  )
