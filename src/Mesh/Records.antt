-- ===== src/Mesh/Records.antt =====
-- firmware/main/mesh_proto.c, the last part: the rider identity that the phone hands over, and the
-- fixed friend record of the phone and of NVS.
pub mod Laws
use open_apex.Base.{
  ℕ, ◌+◌, ◌-◌, Bool, not, ◌||◌, ltb, ◌==◌, if◌then◌else◌, Option, none, some, List, [], ◌∷◌, ◌++◌,
  length, take, drop, replicate, byte_at,
}
use open_apex.Mesh.Fields.{
  mesh_rider_id_len, mesh_key_len, mesh_name_max, mesh_art_bytes, MeshLook, put_rgb, get_rgb,
  get_name, name_len,
}

abbrev pub mesh_identity_version : ℕ
mesh_identity_version = 1

abbrev pub mesh_friend_record_len : ℕ
mesh_friend_record_len = 122

pub record MeshIdentity : Type 0 where
  pub id : List ℕ
  pub key : List ℕ
  pub name : List ℕ

pub record MeshFriend : Type 0 where
  pub id : List ℕ
  pub key : List ℕ
  pub look : MeshLook

abbrev identity_fixed : ℕ
identity_fixed = 1 + mesh_rider_id_len + mesh_key_len + 1

pub mesh_identity_decode : List ℕ → Option MeshIdentity
mesh_identity_decode buf =
    let n = byte_at buf (identity_fixed - 1) in
    if ltb (length buf) identity_fixed || not (byte_at buf 0 == mesh_identity_version)
    then none
    else if not (length buf == identity_fixed + n)
    then none
    else elim (get_name (drop identity_fixed buf) n) [
      | none ↦ none
      | some name ↦ some (record {
        id = take mesh_rider_id_len (drop 1 buf);
        key = take mesh_key_len (drop (1 + mesh_rider_id_len) buf);
        name = name;
      })
    ]

-- The bytes that the encoder writes.
pub identity_bytes : MeshIdentity → List ℕ
identity_bytes id =
    mesh_identity_version
    ∷ (id.id ++ (id.key ++ (name_len id.name ∷ take (name_len id.name) id.name)))

pub mesh_identity_encode : MeshIdentity → ℕ → Option (List ℕ)
unfolding identity_bytes
mesh_identity_encode id room =
    if ltb room (identity_fixed + name_len id.name) then none else some (identity_bytes id)

-- The record is zeroed first, so the name and the art are zero-padded.
unfoldable pub mesh_friend_encode : MeshFriend → List ℕ
mesh_friend_encode f =
    let n = name_len f.look.name in
    f.id
    ++ (f.key
        ++ (f.look.avatar
            ∷ (put_rgb f.look.accent_rgb
                ++ (0
                    ∷ n
                    ∷ (take n f.look.name ++ replicate (mesh_name_max - n + mesh_art_bytes) 0)))))

-- `in` is an array of 122 bytes; flags and art are ignored.
unfoldable pub mesh_friend_decode : List ℕ → Option MeshFriend
mesh_friend_decode buf = elim (get_name (drop 30 buf) (byte_at buf 29)) [
  | none ↦ none
  | some name ↦ some (record {
    id = take mesh_rider_id_len buf;
    key = take mesh_key_len (drop 8 buf);
    look = record { avatar = byte_at buf 24; accent_rgb = get_rgb (drop 25 buf); name = name };
  })
]
