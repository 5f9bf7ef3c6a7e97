-- ===== src/Mesh/Fields.antt =====
-- firmware/main/mesh_proto.c, the first part: byte-order helpers, names and the look block that
-- every frame and record is built of. A pointer into a buffer is the rest of the buffer, and a
-- terminated `char` array is the bytes in front of its NUL.
pub mod Laws
pub mod Decoded
use open_apex.Base.{
  ℕ, zero, suc, ◌+◌, ◌-◌, ◌*◌, ◌%◌, ◌/◌, ◌^◌, Bool, true, false, not, ◌||◌, ltb, ◌==◌,
  if◌then◌else◌, Option, none, some, List, [], ◌∷◌, ◌++◌, length, take, drop, byte_at, u8, u16,
  ◌<<<◌, ◌>>>◌, bit_or,
}

abbrev pub mesh_rider_id_len : ℕ
mesh_rider_id_len = 8

abbrev pub mesh_key_len : ℕ
mesh_key_len = 16

abbrev pub mesh_name_max : ℕ
mesh_name_max = 12

abbrev pub mesh_art_bytes : ℕ
mesh_art_bytes = 80

pub record MeshLook : Type 0 where
  pub avatar : ℕ
  pub accent_rgb : ℕ  -- 0xRRGGBB
  pub name : List ℕ

unfoldable pub put_u16 : ℕ → List ℕ
put_u16 v = u8 v ∷ u8 (v >>> 8) ∷ []

unfoldable pub get_u16 : List ℕ → ℕ
get_u16 p = u16 (bit_or (byte_at p 0) (byte_at p 1 <<< 8))

unfoldable pub put_u32 : ℕ → List ℕ
unfolding put_u16
put_u32 v = put_u16 (u16 v) ++ put_u16 (u16 (v >>> 16))

unfoldable pub get_u32 : List ℕ → ℕ
unfolding get_u16
get_u32 p = bit_or (get_u16 p) (get_u16 (drop 2 p) <<< 16)

unfoldable pub put_rgb : ℕ → List ℕ
put_rgb rgb = u8 (rgb >>> 16) ∷ u8 (rgb >>> 8) ∷ u8 rgb ∷ []

unfoldable pub get_rgb : List ℕ → ℕ
get_rgb p = bit_or (bit_or (byte_at p 0 <<< 16) (byte_at p 1 <<< 8)) (byte_at p 2)

-- `memchr(p, 0, n) != NULL`, over the first `n` bytes.
pub has_nul : ℕ → List ℕ → Bool
has_nul zero p = false
has_nul (suc n) [] = false
has_nul (suc n) (c ∷ p) = c == 0 || has_nul n p

unfoldable pub get_name : List ℕ → ℕ → Option (List ℕ)
unfolding has_nul
get_name p n = if ltb mesh_name_max n || has_nul n p then none else some (take n p)

-- `strnlen(name, max)`.
pub strnlen : List ℕ → ℕ → ℕ
strnlen name zero = 0
strnlen [] (suc max) = 0
strnlen (c ∷ name) (suc max) = if c == 0 then 0 else suc (strnlen name max)

unfoldable pub name_len : List ℕ → ℕ
unfolding strnlen
name_len name = strnlen name mesh_name_max

abbrev pub look_max_len : ℕ
look_max_len = 6 + mesh_name_max + mesh_art_bytes

unfoldable pub look_len : MeshLook → ℕ
unfolding name_len
look_len look = 6 + name_len look.name

-- avatar | accent 3 | name_len | name | has_custom
unfoldable pub put_look : MeshLook → List ℕ
unfolding put_rgb name_len
put_look look =
    look.avatar
    ∷ (put_rgb look.accent_rgb
        ++ (name_len look.name ∷ (take (name_len look.name) look.name ++ (0 ∷ []))))

-- The `has_custom` byte and the exact length, once the name has been read.
pub check_custom : ℕ → ℕ → ℕ → MeshLook → Option MeshLook
check_custom custom len n look =
    if ltb 1 custom
    then none
    else if len == 6 + n + (if custom == 0 then 0 else mesh_art_bytes)
    then some look
    else none

unfoldable pub get_look : List ℕ → Option MeshLook
unfolding get_rgb get_name check_custom
get_look p =
    let len = length p in
    let n = byte_at p 4 in
    if ltb len 6 then none else if ltb len (6 + n) then none else elim (get_name (drop 5 p) n) [
      | none ↦ none
      | some name ↦
          check_custom (byte_at (drop n (drop 5 p)) 0) len n
            (record { avatar = byte_at p 0; accent_rgb = get_rgb (drop 1 p); name = name })
    ]
