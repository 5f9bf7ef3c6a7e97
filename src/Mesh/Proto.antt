-- ===== src/Mesh/Proto.antt =====
-- firmware/main/mesh_proto.h and mesh_proto.c: the frames. An encoder gives the bytes that it
-- writes, or `none` for the code's 0; a decoder gives `none` for the code's `false`. The length of a
-- frame is the length of its list.
pub mod Frames
pub mod Encrypted
use open_apex.Base.{
  ℕ, zero, suc, ◌+◌, ◌-◌, ◌*◌, ◌%◌, ◌/◌, Bool, true, false, not, ◌||◌, ◌&&◌, ltb, ◌==◌,
  if◌then◌else◌, Option, none, some, List, [], ◌∷◌, ◌++◌, length, take, drop, byte_at, bit_and,
}
use open_apex.Mesh.Crypto.{tag_len, Sealed, mesh_ccm_encrypt, mesh_ccm_decrypt}
use open_apex.Mesh.Fields.{
  mesh_rider_id_len, mesh_key_len, MeshLook, put_u16, get_u16, put_u32, get_u32, look_max_len,
  look_len, put_look, get_look,
}

abbrev pub mesh_proto_version : ℕ
mesh_proto_version = 2

abbrev pub mesh_header_len : ℕ
mesh_header_len = 14

pub record MeshHeader : Type 0 where
  pub type : ℕ
  pub sender : List ℕ  -- a pseudonym, 8 bytes
  pub seq : ℕ

-- An `int32_t` is its bit pattern.
pub record MeshPos : Type 0 where
  pub lat_e7 : ℕ
  pub lon_e7 : ℕ
  pub speed_kmh_x10 : ℕ
  pub heading_deg_x10 : ℕ
  pub acc_m : ℕ

pub put_header : MeshHeader → List ℕ
put_header h = b'O' ∷ b'A' ∷ mesh_proto_version ∷ h.type ∷ (h.sender ++ put_u16 h.seq)

pub mesh_decode_header : List ℕ → Option MeshHeader
mesh_decode_header buf =
    if ltb (length buf) mesh_header_len
      || not (byte_at buf 0 == b'O')
      || not (byte_at buf 1 == b'A')
      || not (byte_at buf 2 == mesh_proto_version)
    then none
    else some (record {
      type = byte_at buf 3;
      sender = take mesh_rider_id_len (drop 4 buf);
      seq = get_u16 (drop 12 buf);
    })

-- `if (cap < len) return 0;` in front of a frame of known length.
pub fits : ℕ → ℕ → List ℕ → Option (List ℕ)
fits room len frame = if ltb room len then none else some frame

-- The look block of a HELLO, which may be absent.
pub look_part : Option MeshLook → List ℕ
look_part none = 0 ∷ []
look_part (some look) = 1 ∷ put_look look

unfoldable pub look_part_len : Option MeshLook → ℕ
look_part_len none = 0
look_part_len (some look) = look_len look

pub mesh_encode_hello : MeshHeader → Option MeshLook → ℕ → ℕ → Option (List ℕ)
unfolding fits look_part look_part_len
mesh_encode_hello h look caps room =
    fits room (mesh_header_len + 2 + look_part_len look) (put_header h ++ (caps ∷ look_part look))

pub record Hello : Type 0 where
  pub look : Option MeshLook
  pub caps : ℕ

-- `flags & ~HELLO_FLAG_LOOK` is not 0 for any flags but 0 and 1.
pub mesh_decode_hello : List ℕ → Option Hello
mesh_decode_hello buf =
    let body = drop mesh_header_len buf in
    let flags = byte_at body 1 in
    if ltb (length buf) (mesh_header_len + 2)
    then none
    else if not (bit_and flags 0xFE == 0)
    then none
    else if bit_and flags 1 == 0
    then if length buf == mesh_header_len + 2
      then some (record { look = none; caps = byte_at body 0 })
      else none
    else elim (get_look (drop 2 body)) [
      | none ↦ none
      | some look ↦ some (record { look = some look; caps = byte_at body 0 })
    ]

pub mesh_encode_target : MeshHeader → List ℕ → ℕ → Option (List ℕ)
unfolding fits
mesh_encode_target h target room =
    fits room (mesh_header_len + mesh_rider_id_len) (put_header h ++ target)

pub mesh_decode_target : List ℕ → Option (List ℕ)
mesh_decode_target buf =
    if ltb (length buf) (mesh_header_len + mesh_rider_id_len)
    then none
    else some (take mesh_rider_id_len (drop mesh_header_len buf))

pub mesh_encode_request : MeshHeader → List ℕ → MeshLook → ℕ → Option (List ℕ)
unfolding fits
mesh_encode_request h target look room =
    fits room (mesh_header_len + mesh_rider_id_len + look_len look)
      (put_header h ++ (target ++ put_look look))

pub record Request : Type 0 where
  pub target : List ℕ
  pub look : MeshLook

pub mesh_decode_request : List ℕ → Option Request
mesh_decode_request buf =
    let body = drop mesh_header_len buf in
    if ltb (length buf) (mesh_header_len + mesh_rider_id_len)
    then none
    else elim (get_look (drop mesh_rider_id_len body)) [
      | none ↦ none
      | some look ↦ some (record { target = take mesh_rider_id_len body; look = look })
    ]

abbrev keys_body_len : ℕ
keys_body_len = mesh_rider_id_len + mesh_rider_id_len + mesh_key_len

pub mesh_encode_keys : MeshHeader → List ℕ → List ℕ → List ℕ → ℕ → Option (List ℕ)
unfolding fits
mesh_encode_keys h target rider_id key room =
    fits room (mesh_header_len + keys_body_len) (put_header h ++ (target ++ (rider_id ++ key)))

pub record Keys : Type 0 where
  pub target : List ℕ
  pub rider_id : List ℕ
  pub key : List ℕ

pub mesh_decode_keys : List ℕ → Option Keys
mesh_decode_keys buf =
    let body = drop mesh_header_len buf in
    if ltb (length buf) (mesh_header_len + keys_body_len)
    then none
    else some (record {
      target = take mesh_rider_id_len body;
      rider_id = take mesh_rider_id_len (drop mesh_rider_id_len body);
      key = take mesh_key_len (drop (2 * mesh_rider_id_len) body);
    })

abbrev pub pos_plain_len : ℕ
pos_plain_len = 13

abbrev pub aad_len : ℕ
aad_len = mesh_header_len + 4

abbrev pub pos_frame_len : ℕ
pos_frame_len = aad_len + 3 + pos_plain_len + tag_len

-- Sender, the low three bytes of the session, seq.
pub frame_nonce : List ℕ → List ℕ
frame_nonce frame =
    take mesh_rider_id_len (drop 4 frame)
    ++ (take 3 (drop mesh_header_len frame) ++ take 2 (drop 12 frame))

pub put_pos : MeshPos → List ℕ
put_pos pos =
    put_u32 pos.lat_e7
    ++ (put_u32 pos.lon_e7
        ++ (put_u16 pos.speed_kmh_x10 ++ (put_u16 pos.heading_deg_x10 ++ (pos.acc_m ∷ []))))

pub get_pos : List ℕ → MeshPos
get_pos pt = record {
  lat_e7 = get_u32 pt;
  lon_e7 = get_u32 (drop 4 pt);
  speed_kmh_x10 = get_u16 (drop 8 pt);
  heading_deg_x10 = get_u16 (drop 10 pt);
  acc_m = byte_at pt 12;
}

pub mesh_encode_pos : MeshHeader → List ℕ → ℕ → MeshPos → ℕ → ℕ → ℕ → Option (List ℕ)
unfolding fits
mesh_encode_pos h key session pos age_ms ttl room =
    let aad = put_header h ++ put_u32 session in
    let s = mesh_ccm_encrypt key (frame_nonce aad) aad (put_pos pos) in
    fits room pos_frame_len (aad ++ (put_u16 age_ms ++ (ttl ∷ (s.ct ++ s.tag))))

pub record PosFrame : Type 0 where
  pub pos : MeshPos
  pub age_ms : ℕ
  pub ttl : ℕ

pub mesh_decode_pos : List ℕ → List ℕ → Option PosFrame
mesh_decode_pos buf key =
    let body = drop aad_len buf in
    let ct = drop 3 body in
    if ltb (length buf) pos_frame_len
    then none
    else elim (mesh_ccm_decrypt key (frame_nonce buf) (take aad_len buf) (take pos_plain_len ct)
        (take tag_len (drop pos_plain_len ct))) [
          | none ↦ none
          | some pt ↦
              some (record { pos = get_pos pt; age_ms = get_u16 body; ttl = byte_at body 2 })
        ]

pub mesh_encode_look : MeshHeader → List ℕ → ℕ → MeshLook → ℕ → Option (List ℕ)
unfolding fits
mesh_encode_look h key session look room =
    let aad = put_header h ++ put_u32 session in
    let s = mesh_ccm_encrypt key (frame_nonce aad) aad (put_look look) in
    fits room (aad_len + look_len look + tag_len) (aad ++ (s.ct ++ s.tag))

pub mesh_decode_look : List ℕ → List ℕ → Option MeshLook
mesh_decode_look buf key =
    let plain = length buf - aad_len - tag_len in
    let ct = drop aad_len buf in
    if ltb (length buf) (aad_len + 6 + tag_len)
    then none
    else if ltb look_max_len plain
    then none
    else elim (mesh_ccm_decrypt key (frame_nonce buf) (take aad_len buf) (take plain ct)
        (take tag_len (drop plain ct))) [ none ↦ none | some pt ↦ get_look pt ]
