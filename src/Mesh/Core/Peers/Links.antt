-- ===== src/Mesh/Core/Peers/Links.antt =====
-- firmware/main/mesh_core.c, peers: whose pseudonym a peer has, and the link to a friend that is cached
-- in it.
use open_apex.Base.{
  ℕ, zero, suc, ◌+◌, ◌≤◌, ◌<◌, ◌≡◌, refl, arith, ap, sym, ◌∙◌, Bool, true, false, not, ◌&&◌,
  Bool-cases, inl, inr, ◌⊎◌, ◌==◌, if◌then◌else◌, List, [], ◌∷◌, length, get_or, set, All,
}
use open_apex.Mesh.Crypto.{mesh_tag_key, mesh_pseudonym_match}
use open_apex.Mesh.Floats.{Floats}
use open_apex.Mesh.Records.{MeshFriend}
use open_apex.Mesh.Core.{
  mesh_no_friend, mesh_max_friends, zero_friend, MeshPeer, MeshCore, peer_at, put_peer,
  mesh_look_push_tries, blank_peer,
}
use open_apex.Mesh.Core.Friends.{friend_count}
use open_apex.Mesh.Core.Friends.Invariant.{tags, FriendsValid}
use open_apex.Mesh.Core.Peers.{resolve_from, resolve, friend_of, refresh_link, peer_friend}

-- The pseudonym was made with the key of that friend.
abbrev pub Owns : MeshFriend → List ℕ → Type 0
Owns f pseudonym = mesh_pseudonym_match (mesh_tag_key f.key) pseudonym ≡ true

-- It was made with no key of the list.
abbrev pub Unowned : List MeshFriend → List ℕ → Type 0
Unowned fs pseudonym =
    All (λ (f : MeshFriend). mesh_pseudonym_match (mesh_tag_key f.key) pseudonym ≡ false) fs

-- What the search among the tag keys finds, from any start index.
resolve_from-cases :
    (i : ℕ) (fs : List MeshFriend) (pseudonym : List ℕ)
    → (resolve_from i (tags fs) pseudonym ≡ mesh_no_friend) × Unowned fs pseudonym
      ⊎ ((j : ℕ) × (resolve_from i (tags fs) pseudonym ≡ i + j)
          × (j < length fs)
          × Owns (get_or fs j zero_friend) pseudonym)
unfolding resolve_from
resolve_from-cases i [] pseudonym = inl (refl, tt)
resolve_from-cases i (f ∷ fs) pseudonym =
    elim (Bool-cases (mesh_pseudonym_match (mesh_tag_key f.key) pseudonym)) [
      | inl owns ↦ inr (0, rw owns (omega arith), omega arith, owns)
      | inr other ↦ elim (resolve_from-cases (i + 1) fs pseudonym) [
        | inl (e, unowned) ↦ inl (rw other e, (other, unowned))
        | inr (j, e, lt, owns) ↦ inr (suc j, rw other (e ∙ omega arith), omega arith, owns)
      ]
    ]

far : (j n : ℕ) → j < n → n ≤ mesh_max_friends → (j == mesh_no_friend) ≡ false
far j n h k = ground (arith, h, k)

module _ ⦃fl : Floats⦄ where
  -- A link that was cached under the present list is the friend who is found in it.
  abbrev pub LinkValid : MeshCore → MeshPeer → Type 0
  LinkValid c p =
      (p.resolved && p.resolved_gen == c.friends_generation) ≡ true → p.friend_idx ≡ resolve c p.id

  friend_of-resolve : (c : MeshCore) (p : MeshPeer) → LinkValid c p → friend_of c p ≡ resolve c p.id
  unfolding friend_of
  friend_of-resolve c p link =
      elim (Bool-cases (p.resolved && p.resolved_gen == c.friends_generation)) [
        | inl cached ↦ rw cached (link cached)
        | inr stale ↦ rw stale refl
      ]

  pub friend_of-cases :
      (c : MeshCore) (p : MeshPeer)
      → FriendsValid c
      → LinkValid c p
      → ((friend_of c p == mesh_no_friend) ≡ true) × Unowned c.friends p.id
        ⊎ ((friend_of c p == mesh_no_friend) ≡ false)
          × (friend_of c p < friend_count c)
          × Owns (get_or c.friends (friend_of c p) zero_friend) p.id
  unfolding resolve
  friend_of-cases c p (count, distinct, keys) link =
      let e = friend_of-resolve c p link ∙ ap (λ ks. resolve_from 0 ks p.id) keys in
      elim (resolve_from-cases 0 c.friends p.id) [
        | inl (unknown, unowned) ↦ inl (rw (e ∙ unknown) refl, unowned)
        | inr (j, at, lt, owns) ↦
            let here : friend_of c p ≡ j = e ∙ at ∙ omega arith in
            inr (rw here (far j (friend_count c) lt count), rw here lt, rw here owns)
      ]

  -- The links of all peers.
  abbrev pub LinksValid : MeshCore → Type 0
  LinksValid c = All (LinkValid c) c.peers

  LinkValid-peer_at :
      (c : MeshCore) (ps : List MeshPeer) (i : ℕ)
      → All (LinkValid c) ps
      → LinkValid c (get_or ps i blank_peer)
  LinkValid-peer_at c [] i h = λ e. cc
  LinkValid-peer_at c (p ∷ ps) zero h = h.0
  LinkValid-peer_at c (p ∷ ps) (suc i) h = LinkValid-peer_at c ps i h.1

  LinkValid-set :
      (c : MeshCore) (ps : List MeshPeer) (i : ℕ) (p : MeshPeer)
      → All (LinkValid c) ps
      → LinkValid c p
      → All (LinkValid c) (set ps i p)
  LinkValid-set c [] i p h k = tt
  LinkValid-set c (q ∷ ps) zero p h k = (k, h.1)
  LinkValid-set c (q ∷ ps) (suc i) p h k = (h.0, LinkValid-set c ps i p h.1 k)

  -- A refreshed link is in the cache and is the friend who is found in the list.
  refresh_link-friend_idx :
      (c : MeshCore) (p : MeshPeer)
      → LinkValid c p
      → ((refresh_link c p).id ≡ p.id) × ((refresh_link c p).friend_idx ≡ resolve c p.id)
  unfolding refresh_link
  refresh_link-friend_idx c p link =
      elim (Bool-cases (p.resolved && p.resolved_gen == c.friends_generation)) [
        | inl cached ↦ rw (cached, refresh_link) (refl, link cached)
        | inr stale ↦ rw (stale, refresh_link) (refl, refl)
      ]

  abbrev Answers : ℕ → MeshCore × ℕ → Type 0
  Answers idx r = LinksValid r.0 × (r.1 ≡ idx)

  if-Answers :
      (idx : ℕ) (b : Bool) (x y : MeshCore × ℕ)
      → Answers idx x
      → Answers idx y
      → Answers idx (if b then x else y)
  if-Answers idx true x y h k = h
  if-Answers idx false x y h k = k

  -- With valid cached links, the answer for a peer is the index that a search of the present tag keys
  -- for its pseudonym gives, cached or not, and the links stay valid.
  pub peer_friend-LinksValid :
      (c : MeshCore) (i : ℕ)
      → LinksValid c
      → LinksValid (peer_friend c i).0 × ((peer_friend c i).1 ≡ resolve c (peer_at c i).id)
  unfolding peer_friend resolve
  peer_friend-LinksValid c i links =
      let p = refresh_link c (peer_at c i) in
      let (id, idx) =
        refresh_link-friend_idx c (peer_at c i) (LinkValid-peer_at c c.peers i links) in
      let own = idx ∙ ap (resolve c) (sym id) in
      if-Answers (resolve c (peer_at c i).id)
        (not (p.friend_idx == mesh_no_friend) && not p.announced)
        (
          record (put_peer c i (record p { announced = true })) {
            look_push_left = mesh_look_push_tries;
          },
          p.friend_idx,
        )
        (put_peer c i p, p.friend_idx)
        (LinkValid-set c c.peers i (record p { announced = true }) links (λ h. own), idx)
        (LinkValid-set c c.peers i p links (λ h. own), idx)
