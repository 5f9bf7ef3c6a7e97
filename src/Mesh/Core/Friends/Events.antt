-- ===== src/Mesh/Core/Friends/Events.antt =====
-- firmware/main/mesh_core.c, the queue of friend events: a ring of two slots as a list, oldest first.
use open_apex.Base.{
  ℕ, zero, suc, ◌+◌, ◌-◌, ◌%◌, ◌≤◌, ◌<◌, ◌≡◌, ap, ◌∙◌, ◌⊎◌, length-set, refl, arith, Bool, true,
  false, Bool-cases, inl, inr, ◌==◌, if◌then◌else◌, none, some, List, [], ◌∷◌, ◌++◌, length, drop,
  set, get_or,
}
use open_apex.Mesh.Records.{MeshFriend}
use open_apex.Mesh.Floats.{Floats}
use open_apex.Mesh.Core.{mesh_friend_events, EventKind, MeshFriendEvent, zero_event, MeshCore}
use open_apex.Mesh.Core.Friends.{drop_oldest, push_event, mesh_core_take_friend_event}

-- The events from a head index, oldest first.
abbrev pub ring : List MeshFriendEvent → ℕ → ℕ → List MeshFriendEvent
ring es head zero = []
ring es head (suc n) = get_or es (head % mesh_friend_events) zero_event ∷ ring es (head + 1) n

-- What is left of a list when a full queue makes room.
abbrev pub room : List MeshFriendEvent → List MeshFriendEvent
room q = if length q == mesh_friend_events then drop 1 q else q

abbrev pub full : ℕ → Bool
full count = count == mesh_friend_events

head_bound :
    (head count : ℕ)
    → head < mesh_friend_events
    → (if full count then (head + 1) % mesh_friend_events else head) < mesh_friend_events
head_bound head count h = ground arith

count_bound :
    (n : ℕ) → n ≤ mesh_friend_events → (if full n then n - 1 else n) + 1 ≤ mesh_friend_events
count_bound n h = ground arith

module _ (x : MeshFriendEvent) where
  ring-push :
      (es : List MeshFriendEvent) (head count : ℕ)
      → length es ≡ mesh_friend_events
      → head < mesh_friend_events
      → count ≤ mesh_friend_events
      → let head' = if full count then (head + 1) % mesh_friend_events else head in
        let count' = if full count then count - 1 else count in
        ring (set es ((head' + count') % mesh_friend_events) x) head' (count' + 1)
        ≡ room (ring es head count) ++ (x ∷ [])
  ring-push (a ∷ b ∷ []) zero zero l h n = refl
  ring-push (a ∷ b ∷ []) zero (suc zero) l h n = refl
  ring-push (a ∷ b ∷ []) zero (suc (suc zero)) l h n = refl
  ring-push (a ∷ b ∷ []) (suc zero) zero l h n = refl
  ring-push (a ∷ b ∷ []) (suc zero) (suc zero) l h n = refl
  ring-push (a ∷ b ∷ []) (suc zero) (suc (suc zero)) l h n = refl
  ring-push es (suc (suc head)) count l h n = absurd (omega arith)
  ring-push es head (suc (suc (suc count))) l h n = absurd (omega arith)
  ring-push [] head count l h n = absurd (omega arith)
  ring-push (a ∷ []) head count l h n = absurd (omega arith)
  ring-push (a ∷ b ∷ d ∷ es) head count l h n = absurd (omega arith)

==→eq0 : (n : ℕ) → (n == 0) ≡ true → n ≡ 0
==→eq0 n h = ground arith

ring-pop :
    (es : List MeshFriendEvent) (head count : ℕ)
    → length es ≡ mesh_friend_events
    → head < mesh_friend_events
    → count ≤ mesh_friend_events
    → (count == 0) ≡ false
    → ring es head count
      ≡ get_or es head zero_event ∷ ring es ((head + 1) % mesh_friend_events) (count - 1)
ring-pop es head zero l h n some_wait = cc
ring-pop (a ∷ b ∷ []) zero (suc zero) l h n some_wait = refl
ring-pop (a ∷ b ∷ []) zero (suc (suc zero)) l h n some_wait = refl
ring-pop (a ∷ b ∷ []) (suc zero) (suc zero) l h n some_wait = refl
ring-pop (a ∷ b ∷ []) (suc zero) (suc (suc zero)) l h n some_wait = refl
ring-pop es (suc (suc head)) count l h n some_wait = absurd (omega arith)
ring-pop es head (suc (suc (suc count))) l h n some_wait = absurd (omega arith)
ring-pop [] head count l h n some_wait = absurd (omega arith)
ring-pop (a ∷ []) head count l h n some_wait = absurd (omega arith)
ring-pop (a ∷ b ∷ d ∷ es) head count l h n some_wait = absurd (omega arith)

module _ ⦃fl : Floats⦄ where
  -- The ring has its two slots, its head is one of them, and it holds at most two events.
  abbrev pub EventsValid : MeshCore → Type 0
  EventsValid c =
      (length c.events ≡ mesh_friend_events)
      × (c.event_head < mesh_friend_events)
      × (c.event_count ≤ mesh_friend_events)

  -- The events that wait for the phone, oldest first.
  abbrev pub pending : MeshCore → List MeshFriendEvent
  pending c = ring c.events c.event_head c.event_count

  -- The fields after making room.
  drop_oldest-fields :
      (c : MeshCore)
      → ((drop_oldest c).events ≡ c.events)
        × ((drop_oldest c).event_head ≡ (
            if full c.event_count then (c.event_head + 1) % mesh_friend_events else c.event_head))
        × ((drop_oldest c).event_count
            ≡ (if full c.event_count then c.event_count - 1 else c.event_count))
  unfolding drop_oldest
  drop_oldest-fields c = elim (Bool-cases (full c.event_count)) [
    | inl yes_full ↦
        (rw (yes_full, drop_oldest), rw (yes_full, drop_oldest), rw (yes_full, drop_oldest))
    | inr not_full ↦
        (rw (not_full, drop_oldest), rw (not_full, drop_oldest), rw (not_full, drop_oldest))
  ]

  -- The queue is no part of the friend list.
  pub push_event-friends :
      (c : MeshCore) (kind : EventKind) (f : MeshFriend) → (push_event c kind f).friends ≡ c.friends
  unfolding push_event drop_oldest
  push_event-friends c kind f = elim (Bool-cases (full c.event_count)) [
    | inl h ↦ rw (h, drop_oldest)
    | inr h ↦ rw (h, drop_oldest)
  ]

  pub push_event-tag_keys :
      (c : MeshCore) (kind : EventKind) (f : MeshFriend)
      → (push_event c kind f).tag_keys ≡ c.tag_keys
  unfolding push_event drop_oldest
  push_event-tag_keys c kind f = elim (Bool-cases (full c.event_count)) [
    | inl h ↦ rw (h, drop_oldest)
    | inr h ↦ rw (h, drop_oldest)
  ]

  -- Pushing an event onto a valid queue keeps it valid and appends the event to what waits; when two
  -- events wait already, the older of them is dropped first. Nothing else is lost or reordered.
  pub pending-push_event :
      (c : MeshCore) (kind : EventKind) (f : MeshFriend)
      → EventsValid c
      → EventsValid (push_event c kind f)
        × (pending (push_event c kind f)
            ≡ room (pending c) ++ (record { kind = kind; friend = f } ∷ []))
  unfolding push_event
  pending-push_event c kind f v =
      let (es, head, count) = drop_oldest-fields c in
      let d = drop_oldest c in
      let x : MeshFriendEvent = record { kind = kind; friend = f } in
      (
        (
          length-set d.events ((d.event_head + d.event_count) % mesh_friend_events) x
              ∙ (ap length es ∙ v.0),
          rw head (head_bound c.event_head c.event_count v.1),
          rw count (count_bound c.event_count v.2),
        ),
        rw (es, head, count) (ring-push x c.events c.event_head c.event_count v.0 v.1 v.2),
      )

  -- Taking from a valid queue keeps it valid; it returns the oldest event that waits and leaves the
  -- others in order, and it returns none and changes nothing exactly when no event waits.
  pub pending-take :
      (c : MeshCore)
      → EventsValid c
      → EventsValid (mesh_core_take_friend_event c).0
        × ((mesh_core_take_friend_event c ≡ (c, none)) × (pending c ≡ [])
            ⊎ ((e : MeshFriendEvent) × ((mesh_core_take_friend_event c).1 ≡ some e)
                × (pending c ≡ e ∷ pending (mesh_core_take_friend_event c).0)))
  unfolding mesh_core_take_friend_event
  pending-take c v = elim (Bool-cases (c.event_count == 0)) [
    | inl empty ↦ (
      rw (empty, mesh_core_take_friend_event) v,
      inl (rw (empty, mesh_core_take_friend_event), rw (==→eq0 c.event_count empty)),
    )
    | inr some_wait ↦ (
      (
        rw (some_wait, mesh_core_take_friend_event) v.0,
        rw (some_wait, mesh_core_take_friend_event) (omega arith),
        rw (some_wait, mesh_core_take_friend_event) (omega (arith, v.2)),
      ),
      inr (
        get_or c.events c.event_head zero_event,
        rw (some_wait, mesh_core_take_friend_event),
        rw (some_wait, mesh_core_take_friend_event)
            (ring-pop c.events c.event_head c.event_count v.0 v.1 v.2 some_wait),
      ),
    )
  ]
