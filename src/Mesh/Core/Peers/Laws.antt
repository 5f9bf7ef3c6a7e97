-- ===== src/Mesh/Core/Peers/Laws.antt =====
-- firmware/main/mesh_core.c, peers: the table of terminals heard does not touch the friend list.
use open_apex.Base.{
  ℕ, ◌≡◌, refl, ◌∙◌, Bool, true, false, not, ◌&&◌, inl, inr, ◌==◌, if◌then◌else◌, Option-cases,
  List,
}
use open_apex.Mesh.Floats.{Floats}
use open_apex.Mesh.Core.{mesh_no_friend, mesh_look_push_tries, MeshCore, peer_at, put_peer}
use open_apex.Mesh.Core.Peers.{peer_find, peer_touch, refresh_link, peer_friend}

module _ ⦃fl : Floats⦄ where
  -- Two states with one friend list.
  abbrev pub Same : MeshCore → MeshCore → Type 0
  Same c d = (d.friends ≡ c.friends) × (d.tag_keys ≡ c.tag_keys)

  pub if-Same : (c x y : MeshCore) (b : Bool) → Same c x → Same c y → Same c (if b then x else y)
  if-Same c x y true h k = h
  if-Same c x y false h k = k

  pub if-Same-pair {ℓ} :
      {A : Type ℓ} (c : MeshCore) (x y : MeshCore × A) (b : Bool)
      → Same c x.0
      → Same c y.0
      → Same c (if b then x else y).0
  if-Same-pair c x y true h k = h
  if-Same-pair c x y false h k = k

  pub Same-trans : (c d e : MeshCore) → Same c d → Same d e → Same c e
  Same-trans c d e h k = (k.0 ∙ h.0, k.1 ∙ h.1)

  pub peer_touch-Same :
      (c : MeshCore) (id : List ℕ) (now_ms : ℕ) → Same c (peer_touch c id now_ms).0
  unfolding peer_touch
  peer_touch-Same c id now_ms = elim (Option-cases (peer_find c id)) [
    | inl e ↦ rw (e, peer_touch) (refl, refl)
    | inr (i, e) ↦ rw (e, peer_touch) (refl, refl)
  ]

  pub peer_friend-Same : (c : MeshCore) (i : ℕ) → Same c (peer_friend c i).0
  unfolding peer_friend
  peer_friend-Same c i =
      let p = refresh_link c (peer_at c i) in
      if-Same-pair c
        (
          record (put_peer c i (record p { announced = true })) {
            look_push_left = mesh_look_push_tries;
          },
          p.friend_idx,
        )
        (put_peer c i p, p.friend_idx) (not (p.friend_idx == mesh_no_friend) && not p.announced)
        (refl, refl) (refl, refl)
