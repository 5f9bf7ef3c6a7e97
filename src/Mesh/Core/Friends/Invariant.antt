-- ===== src/Mesh/Core/Friends/Invariant.antt =====
-- firmware/main/mesh_core.c, friend list: what upsert, remove and clear do to the list, read as a
-- map from rider ids.
use open_apex.Base.{
  ℕ, zero, suc, ◌-◌, ◌≤◌, ◌<◌, ◌≡◌, ◌≢◌, refl, arith, ap, sym, ◌∙◌, true, false, Bool-cases, ◌↔◌,
  inl, inr, ◌⊎◌, leb, none, some, if◌then◌else◌, List, [], ◌∷◌, ◌++◌, map, length, length-append,
  length-take, length-set, take, set, get_or, bytes_eq, bytes_eq→eq, bytes_eq_self,
}
use open_apex.Mesh.Crypto.{mesh_tag_key}
use open_apex.Mesh.Records.{MeshFriend}
use open_apex.Mesh.Floats.{Floats}
use open_apex.Mesh.Core.{mesh_max_friends, zero_friend, MeshCore}
use open_apex.Mesh.Core.Friends.{
  mesh_core_friend_find, friend_count, mesh_core_friend_upsert, mesh_core_friend_remove,
  mesh_core_friend_clear,
}
use open_apex.Mesh.Core.Friends.Laws.{
  Absent, Distinct, entry, find_friend-shift, Distinct-set, Distinct-snoc, entry-snoc, entry-set,
}
use open_apex.Mesh.Core.Friends.Removal.{
  entry-Absent, map-set, map-swap_remove, Distinct-swap_remove, entry-swap_remove,
}

-- An id that stands in the list has an entry.
entry-present :
    (fs : List MeshFriend) (k : ℕ) (id : List ℕ)
    → k < length fs
    → (get_or fs k zero_friend).id ≡ id
    → entry id fs ≢ none
entry-present [] k id h at = elim h [ ]
entry-present (g ∷ fs) zero id h at = rw (at, bytes_eq_self id) (λ e. cc)
entry-present (g ∷ fs) (suc k) id h at = elim (Bool-cases (bytes_eq g.id id)) [
  | inl same ↦ rw same (λ e. cc)
  | inr other ↦ rw other (entry-present fs k id (omega arith) at)
]

-- The cached tag keys of a list.
abbrev pub tags : List MeshFriend → List (List ℕ)
tags fs = map (λ (f : MeshFriend). mesh_tag_key f.key) fs

tags-snoc :
    (fs : List MeshFriend) (f : MeshFriend)
    → tags fs ++ (mesh_tag_key f.key ∷ []) ≡ tags (fs ++ (f ∷ []))
tags-snoc [] f = refl
tags-snoc (g ∷ fs) f = ap (◌∷◌ (mesh_tag_key g.key)) (tags-snoc fs f)

module _ ⦃fl : Floats⦄ where
  -- At most sixteen friends, each id once, the tag keys those of the friends.
  abbrev pub FriendsValid : MeshCore → Type 0
  FriendsValid c =
      (friend_count c ≤ mesh_max_friends) × Distinct c.friends × (c.tag_keys ≡ tags c.friends)

  -- What `mesh_core_friend_find` returns.
  pub find-cases :
      (c : MeshCore) (id : List ℕ)
      → (mesh_core_friend_find c id ≡ none) × Absent id c.friends
        ⊎ ((k : ℕ) × (mesh_core_friend_find c id ≡ some k)
            × (k < length c.friends)
            × ((get_or c.friends k zero_friend).id ≡ id))
  unfolding mesh_core_friend_find
  find-cases c id = elim (find_friend-shift 0 c.friends id) [
    | inl absent ↦ inl absent
    | inr (k, e, h, at) ↦ inr (k, e ∙ ap some (omega arith), h, at)
  ]

  -- Upsert replaces, appends or refuses.
  upsert-cases :
      (c : MeshCore) (f : MeshFriend)
      → (mesh_core_friend_upsert c f ≡ (c, false))
          × (mesh_max_friends ≤ friend_count c)
          × Absent f.id c.friends
        ⊎ (((mesh_core_friend_upsert c f).1 ≡ true)
            × ((mesh_core_friend_upsert c f).0.friends ≡ c.friends ++ (f ∷ []))
            × ((mesh_core_friend_upsert c f).0.tag_keys ≡ c.tag_keys ++ (mesh_tag_key f.key ∷ []))
            × (friend_count c < mesh_max_friends)
            × Absent f.id c.friends)
        ⊎ ((k : ℕ) × ((mesh_core_friend_upsert c f).1 ≡ true)
            × ((mesh_core_friend_upsert c f).0.friends ≡ set c.friends k f)
            × ((mesh_core_friend_upsert c f).0.tag_keys ≡ set c.tag_keys k (mesh_tag_key f.key))
            × (k < length c.friends)
            × ((get_or c.friends k zero_friend).id ≡ f.id))
  unfolding mesh_core_friend_upsert
  upsert-cases c f = elim (find-cases c f.id) [
    | inl (e, absent) ↦ elim (Bool-cases (leb mesh_max_friends (friend_count c))) [
      | inl full ↦ inl (rw (e, mesh_core_friend_upsert, full), ground (arith, full), absent)
      | inr room ↦ inr (
          inl (
            rw (e, mesh_core_friend_upsert, room),
            rw (e, mesh_core_friend_upsert, room),
            rw (e, mesh_core_friend_upsert, room),
            ground (arith, room),
            absent,
          ))
    ]
    | inr (k, e, h, at) ↦ inr (
        inr (
          k,
          rw (e, mesh_core_friend_upsert),
          rw (e, mesh_core_friend_upsert),
          rw (e, mesh_core_friend_upsert),
          h,
          at,
        ))
  ]

  -- Remove moves the last entry, or finds none.
  remove-cases :
      (c : MeshCore) (id : List ℕ)
      → (mesh_core_friend_remove c id ≡ (c, false)) × Absent id c.friends
        ⊎ ((k n : ℕ) × ((mesh_core_friend_remove c id).1 ≡ true)
            × (length c.friends ≡ suc n)
            × ((mesh_core_friend_remove c id).0.friends
                ≡ take n (set c.friends k (get_or c.friends n zero_friend)))
            × ((mesh_core_friend_remove c id).0.tag_keys
                ≡ take n (set c.tag_keys k (get_or c.tag_keys n [])))
            × (k < length c.friends)
            × ((get_or c.friends k zero_friend).id ≡ id))
  unfolding mesh_core_friend_remove
  remove-cases c id = elim (find-cases c id) [
    | inl (e, absent) ↦ inl (rw (e, mesh_core_friend_remove), absent)
    | inr (k, e, h, at) ↦ inr (
      k,
      length c.friends - 1,
      rw (e, mesh_core_friend_remove),
      omega arith,
      rw (e, mesh_core_friend_remove),
      rw (e, mesh_core_friend_remove),
      h,
      at,
    )
  ]

  -- An entry that another of its id replaces, with its tag key.
  pub set-Valid :
      (c d : MeshCore) (k : ℕ) (f : MeshFriend)
      → FriendsValid c
      → k < length c.friends
      → (get_or c.friends k zero_friend).id ≡ f.id
      → d.friends ≡ set c.friends k f
      → d.tag_keys ≡ set c.tag_keys k (mesh_tag_key f.key)
      → FriendsValid d
  set-Valid c d k f (few, once, tagged) h at fs ts = (
    rw fs (omega (arith, length-set c.friends k f, few)),
    rw fs (Distinct-set c.friends f k once h at),
    rw (fs, ts, tagged) (map-set (λ (g : MeshFriend). mesh_tag_key g.key) c.friends k f),
  )

  -- Upsert, remove and clear keep the friend list valid: at most sixteen friends, no two with one
  -- id, and the cached tag key of each friend the one its key gives.
  pub friend_ops-Valid :
      (c : MeshCore) (f : MeshFriend) (id : List ℕ)
      → FriendsValid c
      → FriendsValid (mesh_core_friend_upsert c f).0
        × FriendsValid (mesh_core_friend_remove c id).0
        × FriendsValid (mesh_core_friend_clear c)
  unfolding mesh_core_friend_clear
  friend_ops-Valid c f id v = (upsert-Valid c f v, remove-Valid c id v, (omega arith, tt, refl))
    where
      upsert-Valid :
          (c : MeshCore) (f : MeshFriend)
          → FriendsValid c
          → FriendsValid (mesh_core_friend_upsert c f).0
      upsert-Valid c f (few, once, tagged) = elim (upsert-cases c f) [
        | inl (e, full, absent) ↦ rw e (few, once, tagged)
        | inr (inl (e, fs, ts, room, absent)) ↦ (
          rw fs (omega (arith, length-append c.friends (f ∷ []), room)),
          rw fs (Distinct-snoc c.friends f once absent),
          rw (fs, ts, tagged) (tags-snoc c.friends f),
        )
        | inr (inr (k, e, fs, ts, h, at)) ↦
            set-Valid c (mesh_core_friend_upsert c f).0 k f (few, once, tagged) h at fs ts
      ]

      remove-Valid :
          (c : MeshCore) (id : List ℕ)
          → FriendsValid c
          → FriendsValid (mesh_core_friend_remove c id).0
      remove-Valid c id (few, once, tagged) = elim (remove-cases c id) [
        | inl (e, absent) ↦ rw e (few, once, tagged)
        | inr (k, n, e, count, fs, ts, h, at) ↦
            let moved = set c.friends k (get_or c.friends n zero_friend) in
            (
              rw fs (
                  omega (
                    arith,
                    length-take n moved (
                        omega
                          (arith, length-set c.friends k (get_or c.friends n zero_friend), count)),
                    few,
                    count,
                  )),
              rw fs (Distinct-swap_remove c.friends n k count once),
              rw (fs, ts, tagged)
                  (map-swap_remove (λ (g : MeshFriend). mesh_tag_key g.key) n c.friends k
                    zero_friend [] (omega (arith, count))),
            )
      ]

  -- In a valid list, upsert either stores the friend under its id, replacing an entry of that id, and
  -- leaves the entry of every other id as it was, and returns true; or it returns false and changes
  -- nothing, which it does only when the list holds sixteen friends and none of that id.
  pub entry-upsert :
      (c : MeshCore) (f : MeshFriend)
      → FriendsValid c
      → (mesh_core_friend_upsert c f ≡ (c, false))
          × (friend_count c ≡ mesh_max_friends)
          × (entry f.id c.friends ≡ none)
        ⊎ ((mesh_core_friend_upsert c f).1 ≡ true)
          × ((id : List ℕ)
              → entry id (mesh_core_friend_upsert c f).0.friends
                ≡ (if bytes_eq f.id id then some f else entry id c.friends))
  entry-upsert c f v = elim (upsert-cases c f) [
    | inl (e, full, absent) ↦ inl (e, omega (arith, full, v.0), entry-Absent f.id c.friends absent)
    | inr (inl (e, fs, ts, room, absent)) ↦ inr (e, λ id. rw fs (entry-snoc c.friends f id absent))
    | inr (inr (k, e, fs, ts, h, at)) ↦ inr (e, λ id. rw fs (entry-set c.friends f k id v.1 h at))
  ]

  -- In a valid list, remove takes away the entry of the id and no other: afterwards that id has none
  -- and every other id the entry it had. It returns true exactly when there was an entry.
  pub entry-remove :
      (c : MeshCore) (id : List ℕ)
      → FriendsValid c
      → ((other : List ℕ)
          → entry other (mesh_core_friend_remove c id).0.friends
            ≡ (if bytes_eq id other then none else entry other c.friends))
        × ((entry id c.friends ≡ none) ↔ ((mesh_core_friend_remove c id).1 ≡ false))
  entry-remove c id v = elim (remove-cases c id) [
    | inl (e, absent) ↦ (
      λ other. rw e (elim (Bool-cases (bytes_eq id other)) [
        | inl same ↦
            rw same (entry-Absent other c.friends (rw (sym (bytes_eq→eq id other same)) absent))
        | inr ne ↦ rw ne
      ]),
      (λ none_there. rw e, λ unchanged. entry-Absent id c.friends absent),
    )
    | inr (k, n, e, count, fs, ts, h, at) ↦ (
      λ other. rw (fs, entry-swap_remove c.friends n k count other v.1 h, at),
      (λ none_there. absurd (entry-present c.friends k id h at none_there), λ unchanged. cc),
    )
  ]
