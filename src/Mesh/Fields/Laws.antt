-- ===== src/Mesh/Fields/Laws.antt =====
-- Round trips of the fields, and of the look block.
use open_apex.Base.{
  ℕ, zero, suc, ◌+◌, ◌/◌, ◌^◌, ◌≤◌, ◌<◌, ◌≡◌, ◌≢◌, refl, arith, ap, ◌∙◌, false, some, List, [], ◌∷◌,
  ◌++◌, length, length-append, drop, take-append, drop-append, take_le, All, u8, u16, or_u16,
  or_u32, or_rgb,
}
use open_apex.Mesh.Fields.{
  mesh_name_max, MeshLook, put_u16, get_u16, put_u32, get_u32, put_rgb, get_rgb, has_nul, get_name,
  strnlen, name_len, look_len, put_look, get_look,
}

-- What a name is: up to twelve bytes, none of them NUL.
pub record IsName (name : List ℕ) : Type 0 where
  pub short : length name ≤ mesh_name_max
  pub no_nul : All (λ c. (c ≢ 0) × (c < 256)) name

pub record IsLook (l : MeshLook) : Type 0 where
  pub avatar_range : l.avatar < 256
  pub accent_range : l.accent_rgb < 2 ^ 24
  pub is_name : IsName l.name

pub length-put_u16 : (v : ℕ) → length (put_u16 v) ≡ 2
unfolding put_u16
length-put_u16 v = refl

pub length-put_u32 : (v : ℕ) → length (put_u32 v) ≡ 4
unfolding put_u32
length-put_u32 v = refl

pub get_u16-put_u16 : (v : ℕ) (rest : List ℕ) → v < 65536 → get_u16 (put_u16 v ++ rest) ≡ v
unfolding put_u16 get_u16
get_u16-put_u16 v rest h = omega (arith, or_u16 (u8 v) (u8 (v / 2 ^ 8)) (omega arith))

pub get_u32-put_u32 : (v : ℕ) (rest : List ℕ) → v < 2 ^ 32 → get_u32 (put_u32 v ++ rest) ≡ v
unfolding put_u32 get_u32 put_u16
get_u32-put_u32 v rest h =
    let low : get_u16 (put_u32 v ++ rest) ≡ u16 v =
      get_u16-put_u16 (u16 v) (put_u16 (u16 (v / 2 ^ 16)) ++ rest) (omega arith) in
    let high : get_u16 (drop 2 (put_u32 v ++ rest)) ≡ u16 (v / 2 ^ 16) =
      get_u16-put_u16 (u16 (v / 2 ^ 16)) rest (omega arith) in
    rw (low, high) (omega (arith, or_u32 (u16 v) (u16 (v / 2 ^ 16)) (omega arith)))

pub get_rgb-put_rgb : (v : ℕ) (rest : List ℕ) → v < 2 ^ 24 → get_rgb (put_rgb v ++ rest) ≡ v
unfolding put_rgb get_rgb
get_rgb-put_rgb v rest h =
    omega (arith, or_rgb (u8 (v / 2 ^ 16)) (u8 (v / 2 ^ 8)) (u8 v) (omega arith) (omega arith))

strnlen-eq-length :
    (name : List ℕ) (max : ℕ)
    → length name ≤ max
    → All (λ c. (c ≢ 0) × (c < 256)) name
    → strnlen name max ≡ length name
unfolding strnlen
strnlen-eq-length [] zero h k = refl
strnlen-eq-length [] (suc max) h k = refl
strnlen-eq-length (c ∷ name) zero h k = absurd (omega arith)
strnlen-eq-length (c ∷ name) (suc max) h k =
    ground (arith, strnlen-eq-length name max (omega arith) k.1)

pub name_len-eq-length : (name : List ℕ) → IsName name → name_len name ≡ length name
unfolding name_len
name_len-eq-length name h = strnlen-eq-length name mesh_name_max h.short h.no_nul

has_nul-false :
    (name rest : List ℕ)
    → All (λ c. (c ≢ 0) × (c < 256)) name
    → has_nul (length name) (name ++ rest) ≡ false
unfolding has_nul
has_nul-false [] rest h = refl
has_nul-false (c ∷ name) rest h = ground (arith, has_nul-false name rest h.1)

pub get_name-append :
    (name rest : List ℕ) → IsName name → get_name (name ++ rest) (length name) ≡ some name
unfolding get_name
get_name-append name rest h =
    ground
      (arith, h.short, has_nul-false name rest h.no_nul, take-append (length name) name rest refl)

-- The look block of a well-formed look, with its name whole.
put_look_whole :
    (l : MeshLook)
    → IsLook l
    → put_look l ≡ l.avatar ∷ (put_rgb l.accent_rgb ++ (length l.name ∷ (l.name ++ (0 ∷ []))))
unfolding put_look
put_look_whole l h =
    rw (name_len-eq-length l.name h.is_name, take_le (length l.name) l.name (omega arith))

pub look_len-eq : (l : MeshLook) → IsLook l → look_len l ≡ 6 + length l.name
unfolding look_len
look_len-eq l h = omega (arith, name_len-eq-length l.name h.is_name)

pub length-put_look : (l : MeshLook) → IsLook l → length (put_look l) ≡ look_len l
unfolding look_len put_rgb
length-put_look l h =
    rw (put_look_whole l h, name_len-eq-length l.name h.is_name)
      (omega (arith, length-append l.name (0 ∷ [])))

get_look_parts :
    (avatar rgb : ℕ) (name : List ℕ)
    → rgb < 2 ^ 24
    → IsName name
    → get_look (avatar ∷ (put_rgb rgb ++ (length name ∷ (name ++ (0 ∷ [])))))
      ≡ some (record { avatar = avatar; accent_rgb = rgb; name = name })
unfolding get_look put_rgb
get_look_parts avatar rgb name h k = ground (
  arith,
  length-append name (0 ∷ []),
  get_name-append name (0 ∷ []) k,
  drop-append (length name) name (0 ∷ []) refl,
  get_rgb-put_rgb rgb (length name ∷ (name ++ (0 ∷ []))) h,
)

-- The look block of a rider, read back.
pub get_look-put_look : (l : MeshLook) → IsLook l → get_look (put_look l) ≡ some l
get_look-put_look l h =
    ap get_look (put_look_whole l h)
    ∙ get_look_parts l.avatar l.accent_rgb l.name h.accent_range h.is_name
