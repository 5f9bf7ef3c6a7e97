-- ===== src/Mesh/Records/Laws.antt =====
-- Round trips of the identity and of the friend record.
use open_apex.Base.{
  ℕ, append-nil, ◌+◌, ◌-◌, ◌≤◌, ◌<◌, ◌≡◌, refl, arith, ap, sym, ◌∙◌, ltb-false, some, List, [], ◌∷◌,
  ◌++◌, append_assoc, length, length-append, length-replicate, drop, drop_beyond, get_or_beyond,
  ◌^◌, take-append, drop-append, take_le, replicate, byte_at,
}
use open_apex.Mesh.Fields.{
  mesh_rider_id_len, mesh_key_len, mesh_name_max, mesh_art_bytes, put_rgb, get_rgb, get_name,
  name_len,
}
use open_apex.Mesh.Fields.Laws.{
  IsName, IsLook, name_len-eq-length, get_name-append, get_rgb-put_rgb,
}
use open_apex.Mesh.Records.{
  mesh_friend_record_len, MeshIdentity, MeshFriend, mesh_identity_decode, identity_bytes,
  mesh_identity_encode, mesh_friend_encode, mesh_friend_decode,
}

pub record IsIdentity (id : MeshIdentity) : Type 0 where
  pub id_size : length id.id ≡ mesh_rider_id_len
  pub key_size : length id.key ≡ mesh_key_len
  pub is_name : IsName id.name

pub record IsFriend (f : MeshFriend) : Type 0 where
  pub id_size : length f.id ≡ mesh_rider_id_len
  pub key_size : length f.key ≡ mesh_key_len
  pub is_look : IsLook f.look

identity_parts :
    (id key name : List ℕ)
    → length id ≡ mesh_rider_id_len
    → length key ≡ mesh_key_len
    → IsName name
    → mesh_identity_decode (1 ∷ (id ++ (key ++ (length name ∷ name))))
      ≡ some (record { id = id; key = key; name = name })
unfolding mesh_identity_decode
identity_parts id key name i k n =
    let body = length name ∷ name in
    let size : length (id ++ (key ++ body)) ≡ 25 + length name =
      omega (arith, length-append id (key ++ body), length-append key body) in
    let ids = id ++ key in
    let ids_size : length ids ≡ 24 = omega (arith, length-append id key) in
    let count : byte_at (id ++ (key ++ body)) 24 ≡ length name =
      ap (λ (t : List ℕ). byte_at t 24) (sym (append_assoc id key body))
      ∙ get_or_beyond 24 0 ids body 0 (omega arith) in
    let after : drop 25 (id ++ (key ++ body)) ≡ name =
      ap (drop 25) (sym (append_assoc id key body)) ∙ drop_beyond 25 1 ids body (omega arith) in
    let whole : get_name name (length name) ≡ some name =
      ap (λ (t : List ℕ). get_name t (length name)) (sym (append-nil name))
      ∙ get_name-append name [] n in
    rw (size, count, after)
      (ground (
        arith,
        whole,
        take-append 8 id (key ++ body) i,
        drop-append 8 id (key ++ body) i,
        take-append 16 key body k,
      ))

identity_whole :
    (id : MeshIdentity)
    → IsIdentity id
    → identity_bytes id ≡ 1 ∷ (id.id ++ (id.key ++ (length id.name ∷ id.name)))
unfolding identity_bytes
identity_whole id k =
    rw (name_len-eq-length id.name k.is_name, take_le (length id.name) id.name (omega arith))

-- An identity whose fields have their sizes, encoded into enough room, is decoded to itself.
pub mesh_identity_decode-encode :
    (id : MeshIdentity) (room : ℕ)
    → IsIdentity id
    → 38 ≤ room
    → (buf : List ℕ) × (mesh_identity_encode id room ≡ some buf)
      × (mesh_identity_decode buf ≡ some id)
unfolding mesh_identity_encode
mesh_identity_decode-encode id room k r = (
  identity_bytes id,
  rw (
      ltb-false room (26 + name_len id.name)
        (omega (arith, name_len-eq-length id.name k.is_name, k.is_name.short))),
  ap mesh_identity_decode (identity_whole id k)
      ∙ identity_parts id.id id.key id.name k.id_size k.key_size k.is_name,
)

friend_parts :
    (id key name rest : List ℕ) (avatar rgb : ℕ)
    → length id ≡ mesh_rider_id_len
    → length key ≡ mesh_key_len
    → rgb < 2 ^ 24
    → IsName name
    → mesh_friend_decode
        (id ++ (key ++ (avatar ∷ (put_rgb rgb ++ (0 ∷ length name ∷ (name ++ rest))))))
      ≡ some (record {
        id = id;
        key = key;
        look = record { avatar = avatar; accent_rgb = rgb; name = name };
      })
unfolding mesh_friend_decode put_rgb
friend_parts id key name rest avatar rgb i k c n =
    let body = avatar ∷ (put_rgb rgb ++ (0 ∷ length name ∷ (name ++ rest))) in
    let whole = id ++ (key ++ body) in
    let ids = id ++ key in
    let ids_size : length ids ≡ 24 = omega (arith, length-append id key) in
    let split : ids ++ body ≡ whole = append_assoc id key body in
    let at_name : drop 30 whole ≡ name ++ rest =
      ap (drop 30) (sym split) ∙ drop_beyond 30 6 ids body (omega arith) in
    let at_count : byte_at whole 29 ≡ length name =
      ap (λ (t : List ℕ). byte_at t 29) (sym split) ∙ get_or_beyond 29 5 ids body 0 (omega arith) in
    let at_avatar : byte_at whole 24 ≡ avatar =
      ap (λ (t : List ℕ). byte_at t 24) (sym split) ∙ get_or_beyond 24 0 ids body 0 (omega arith) in
    let at_rgb : get_rgb (drop 25 whole) ≡ rgb =
      ap (λ (t : List ℕ). get_rgb (drop 25 t)) (sym split)
      ∙ ap get_rgb (drop_beyond 25 1 ids body (omega arith))
      ∙ get_rgb-put_rgb rgb (0 ∷ length name ∷ (name ++ rest)) c in
    let read : get_name (drop 30 whole) (byte_at whole 29) ≡ some name =
      rw (at_name, at_count) (get_name-append name rest n) in
    rw (read, mesh_friend_decode)
      (rw
        (
          at_avatar,
          at_rgb,
          take-append 8 id (key ++ body) i,
          drop-append 8 id (key ++ body) i,
          take-append 16 key body k,
        )
        refl)

friend_whole :
    (f : MeshFriend)
    → IsFriend f
    → mesh_friend_encode f
      ≡ f.id
        ++ (f.key
            ++ (f.look.avatar
                ∷ (put_rgb f.look.accent_rgb
                    ++ (0
                        ∷ length f.look.name
                        ∷ (f.look.name
                            ++ replicate
                                (mesh_name_max - length f.look.name + mesh_art_bytes)
                                0)))))
unfolding mesh_friend_encode
friend_whole f k =
    rw
      (
        name_len-eq-length f.look.name k.is_look.is_name,
        take_le (length f.look.name) f.look.name (omega arith),
      )
      refl

-- A friend whose fields have their sizes is encoded into exactly 122 bytes, which are decoded to
-- the friend.
pub mesh_friend_decode-encode :
    (f : MeshFriend)
    → IsFriend f
    → (length (mesh_friend_encode f) ≡ mesh_friend_record_len)
      × (mesh_friend_decode (mesh_friend_encode f) ≡ some f)
unfolding put_rgb
mesh_friend_decode-encode f k =
    let name = f.look.name in
    let pad = replicate (mesh_name_max - length name + mesh_art_bytes) 0 in
    let body = f.look.avatar ∷ (put_rgb f.look.accent_rgb ++ (0 ∷ length name ∷ (name ++ pad))) in
    (
      ap length (friend_whole f k)
          ∙ omega (
            arith,
            length-append f.id (f.key ++ body),
            length-append f.key body,
            length-append name pad,
            length-replicate {A = ℕ} (mesh_name_max - length name + mesh_art_bytes) 0,
            k.is_look.is_name.short,
          ),
      ap mesh_friend_decode (friend_whole f k)
          ∙ friend_parts f.id f.key name pad f.look.avatar f.look.accent_rgb k.id_size k.key_size
              k.is_look.accent_range k.is_look.is_name,
    )
