-- ===== src/Mesh/Proto/Frames.antt =====
-- The clear frames: what a terminal encodes, another terminal decodes.
use open_apex.Base.{
  ℕ, ◌+◌, ◌≤◌, ◌<◌, ◌≡◌, refl, arith, ap, sym, ◌∙◌, false, ltb, ltb-false, Option, none, some, List,
  [], ◌∷◌, ◌++◌, append_assoc, length, length-append, drop, take-append, drop-append, take_le,
}
use open_apex.Mesh.Fields.{mesh_rider_id_len, mesh_key_len, MeshLook, put_u16, look_len, put_look}
use open_apex.Mesh.Fields.Laws.{
  IsLook, length-put_u16, get_u16-put_u16, length-put_look, get_look-put_look,
}
use open_apex.Mesh.Proto.{
  mesh_header_len, MeshHeader, put_header, mesh_decode_header, fits, look_part, look_part_len,
  mesh_encode_hello, mesh_decode_hello, mesh_encode_target, mesh_decode_target, mesh_encode_request,
  mesh_decode_request, mesh_encode_keys, mesh_decode_keys,
}

pub record IsHeader (h : MeshHeader) : Type 0 where
  pub sender_size : length h.sender ≡ mesh_rider_id_len
  pub seq_range : h.seq < 65536

-- The look of a HELLO, where there is one.
abbrev pub IsLookOr : Option MeshLook → Type 0
IsLookOr none = Unit
IsLookOr (some look) = IsLook look

pub length-put_header : (h : MeshHeader) → IsHeader h → length (put_header h) ≡ mesh_header_len
unfolding put_header
length-put_header h k =
    omega (arith, length-append h.sender (put_u16 h.seq), k.sender_size, length-put_u16 h.seq)

pub drop-put_header :
    (h : MeshHeader) (body : List ℕ)
    → IsHeader h
    → drop mesh_header_len (put_header h ++ body) ≡ body
drop-put_header h body k = drop-append mesh_header_len (put_header h) body (length-put_header h k)

-- The header of every frame is read back, whatever follows it.
pub mesh_decode_header-put_header :
    (h : MeshHeader) (body : List ℕ)
    → IsHeader h
    → mesh_decode_header (put_header h ++ body) ≡ some h
unfolding mesh_decode_header put_header
mesh_decode_header-put_header h body k =
    rw
      (
        ltb-false (length (put_header h ++ body)) mesh_header_len
            (omega (arith, length-append (put_header h) body, length-put_header h k)),
        append_assoc h.sender (put_u16 h.seq) body,
        take-append 8 h.sender (put_u16 h.seq ++ body) k.sender_size,
        drop-append 8 h.sender (put_u16 h.seq ++ body) k.sender_size,
        get_u16-put_u16 h.seq body k.seq_range,
      )
      refl

pub length-frame :
    (h : MeshHeader) (body : List ℕ)
    → IsHeader h
    → length (put_header h ++ body) ≡ mesh_header_len + length body
length-frame h body k = omega (arith, length-append (put_header h) body, length-put_header h k)

pub fits_room : (room len : ℕ) (frame : List ℕ) → len ≤ room → fits room len frame ≡ some frame
unfolding fits
fits_room room len frame h = rw (ltb-false room len h)

length-look_part :
    (look : Option MeshLook) → IsLookOr look → length (look_part look) ≡ 1 + look_part_len look
unfolding look_part look_part_len
length-look_part none k = refl
length-look_part (some look) k = omega (arith, length-put_look look k)

decode_hello-frame :
    (h : MeshHeader) (look : Option MeshLook) (caps : ℕ)
    → IsHeader h
    → IsLookOr look
    → mesh_decode_hello (put_header h ++ (caps ∷ look_part look))
      ≡ some (record { look = look; caps = caps })
unfolding mesh_decode_hello look_part
decode_hello-frame h none caps k l =
    rw (length-frame h (caps ∷ 0 ∷ []) k, drop-put_header h (caps ∷ 0 ∷ []) k)
decode_hello-frame h (some look) caps k l =
    let body = caps ∷ 1 ∷ put_look look in
    let long : ltb (length (put_header h ++ body)) 16 ≡ false =
      ltb-false (length (put_header h ++ body)) 16 (omega (arith, length-frame h body k)) in
    rw (long, drop-put_header h body k, get_look-put_look look l) (rw (drop-put_header h body k))

-- A HELLO, with or without a look, that fits the room: the encoder gives a frame of the length it
-- states, and that frame's header, look and capabilities are read back.
pub mesh_decode_hello-encode :
    (h : MeshHeader) (look : Option MeshLook) (caps room : ℕ)
    → IsHeader h
    → IsLookOr look
    → mesh_header_len + 2 + look_part_len look ≤ room
    → (frame : List ℕ) × (mesh_encode_hello h look caps room ≡ some frame)
      × (length frame ≡ mesh_header_len + 2 + look_part_len look)
      × (mesh_decode_header frame ≡ some h)
      × (mesh_decode_hello frame ≡ some (record { look = look; caps = caps }))
unfolding mesh_encode_hello
mesh_decode_hello-encode h look caps room k l r = (
  put_header h ++ (caps ∷ look_part look),
  fits_room room (mesh_header_len + 2 + look_part_len look) _ r,
  omega (arith, length-frame h (caps ∷ look_part look) k, length-look_part look l),
  mesh_decode_header-put_header h (caps ∷ look_part look) k,
  decode_hello-frame h look caps k l,
)

-- A frame that is a target alone (FRIEND_ACK) is read back.
pub mesh_decode_target-encode :
    (h : MeshHeader) (target : List ℕ) (room : ℕ)
    → IsHeader h
    → length target ≡ mesh_rider_id_len
    → mesh_header_len + mesh_rider_id_len ≤ room
    → (frame : List ℕ) × (mesh_encode_target h target room ≡ some frame)
      × (mesh_decode_header frame ≡ some h)
      × (mesh_decode_target frame ≡ some target)
unfolding mesh_encode_target mesh_decode_target
mesh_decode_target-encode h target room k t r = (
  put_header h ++ target,
  fits_room room (mesh_header_len + mesh_rider_id_len) _ r,
  mesh_decode_header-put_header h target k,
  rw
      (
        ltb-false (length (put_header h ++ target)) 22 (omega (arith, length-frame h target k)),
        drop-put_header h target k,
        take_le 8 target (omega arith),
      )
      refl,
)

-- A FRIEND_REQUEST is read back: target and look.
pub mesh_decode_request-encode :
    (h : MeshHeader) (target : List ℕ) (look : MeshLook) (room : ℕ)
    → IsHeader h
    → length target ≡ mesh_rider_id_len
    → IsLook look
    → mesh_header_len + mesh_rider_id_len + look_len look ≤ room
    → (frame : List ℕ) × (mesh_encode_request h target look room ≡ some frame)
      × (mesh_decode_header frame ≡ some h)
      × (mesh_decode_request frame ≡ some (record { target = target; look = look }))
unfolding mesh_encode_request mesh_decode_request
mesh_decode_request-encode h target look room k t l r =
    let body = target ++ put_look look in
    let long : ltb (length (put_header h ++ body)) 22 ≡ false =
      ltb-false (length (put_header h ++ body)) 22
        (omega (arith, length-frame h body k, length-append target (put_look look))) in
    (
      put_header h ++ body,
      fits_room room (mesh_header_len + mesh_rider_id_len + look_len look) _ r,
      mesh_decode_header-put_header h body k,
      rw
          (
            long,
            drop-put_header h body k,
            drop-append 8 target (put_look look) t,
            get_look-put_look look l,
          )
          (rw (drop-put_header h body k, take-append 8 target (put_look look) t)),
    )

drop_two_ids : (a b rest : List ℕ) → length a ≡ 8 → length b ≡ 8 → drop 16 (a ++ (b ++ rest)) ≡ rest
drop_two_ids a b rest h k =
    ap (drop 16) (sym (append_assoc a b rest))
    ∙ drop-append 16 (a ++ b) rest (omega (arith, length-append a b))

-- FRIEND_ACCEPT and FRIEND_KEYS are read back: target, permanent id and key.
pub mesh_decode_keys-encode :
    (h : MeshHeader) (target rider_id key : List ℕ) (room : ℕ)
    → IsHeader h
    → length target ≡ mesh_rider_id_len
    → length rider_id ≡ mesh_rider_id_len
    → length key ≡ mesh_key_len
    → mesh_header_len + 32 ≤ room
    → (frame : List ℕ) × (mesh_encode_keys h target rider_id key room ≡ some frame)
      × (mesh_decode_header frame ≡ some h)
      × (mesh_decode_keys frame ≡ some (record { target = target; rider_id = rider_id; key = key }))
unfolding mesh_encode_keys mesh_decode_keys
mesh_decode_keys-encode h target rider_id key room k t i y r = (
  put_header h ++ (target ++ (rider_id ++ key)),
  fits_room room 46 _ r,
  mesh_decode_header-put_header h (target ++ (rider_id ++ key)) k,
  rw
      (
        ltb-false (length (put_header h ++ (target ++ (rider_id ++ key)))) 46 (
            omega (
              arith,
              length-frame h (target ++ (rider_id ++ key)) k,
              length-append target (rider_id ++ key),
              length-append rider_id key,
            )),
        drop-put_header h (target ++ (rider_id ++ key)) k,
        take-append 8 target (rider_id ++ key) t,
        drop-append 8 target (rider_id ++ key) t,
        take-append 8 rider_id key i,
        drop_two_ids target rider_id key t i,
        take_le 16 key (omega arith),
      )
      refl,
)
