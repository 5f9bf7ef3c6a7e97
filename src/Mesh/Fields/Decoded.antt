-- ===== src/Mesh/Fields/Decoded.antt =====
-- What comes out of the field decoders is well-formed, whatever bytes go in.
use open_apex.Base.{
  ℕ, zero, suc, ◌+◌, ◌^◌, ◌≤◌, ◌<◌, ◌≡◌, ◌≢◌, arith, Bool-cases, inl, inr, false, ltb, none, some,
  Option-cases, List, [], ◌∷◌, length, take, drop, All, All-drop, IsBytes, byte_at, byte_at-lt,
  or_rgb,
}
use open_apex.Mesh.Fields.{
  mesh_name_max, MeshLook, get_rgb, has_nul, get_name, check_custom, get_look,
}
use open_apex.Mesh.Fields.Laws.{IsName, IsLook}

some_injective : {x y : List ℕ} → some x ≡ some y → x ≡ y
some_injective e = cc

not_ltb : (a b : ℕ) → ltb a b ≡ false → b ≤ a
not_ltb a b h = ground arith

none≢some : {l : MeshLook} → none ≡ some l → ⊥
none≢some e = cc

length-take_le : (n : ℕ) (p : List ℕ) → length (take n p) ≤ n
length-take_le zero p = omega arith
length-take_le (suc n) [] = omega arith
length-take_le (suc n) (c ∷ p) = omega (arith, length-take_le n p)

no_nul-take :
    (n : ℕ) (p : List ℕ)
    → IsBytes p
    → has_nul n p ≡ false
    → All (λ c. (c ≢ 0) × (c < 256)) (take n p)
unfolding has_nul
no_nul-take zero p bytes h = tt
no_nul-take (suc n) [] bytes h = tt
no_nul-take (suc n) (c ∷ p) bytes h =
    ((ground arith, bytes.0), no_nul-take n p bytes.1 (ground arith))

pub get_name-IsName :
    (p : List ℕ) (n : ℕ) (name : List ℕ) → IsBytes p → get_name p n ≡ some name → IsName name
unfolding get_name
get_name-IsName p n name bytes h = elim (Bool-cases (has_nul n p)) [
  | inl nul ↦ ground arith
  | inr clean ↦ elim (Bool-cases (ltb mesh_name_max n)) [
    | inl long ↦ ground arith
    | inr short ↦ rw (← some_injective (rw (short, clean) at h)) (record {
      short = omega (arith, length-take_le n p, not_ltb mesh_name_max n short);
      no_nul = no_nul-take n p bytes clean;
    })
  ]
]

get_rgb-lt : (p : List ℕ) → IsBytes p → get_rgb p < 2 ^ 24
unfolding get_rgb
get_rgb-lt p h = omega (
  arith,
  byte_at-lt p 0 h,
  byte_at-lt p 1 h,
  byte_at-lt p 2 h,
  or_rgb (byte_at p 0) (byte_at p 1) (byte_at p 2) (byte_at-lt p 1 h) (byte_at-lt p 2 h),
)

check_custom-eq-some :
    (custom len n : ℕ) (l l' : MeshLook) → check_custom custom len n l ≡ some l' → l ≡ l'
unfolding check_custom
check_custom-eq-some custom len n l l' h = ground arith

-- A look that was decoded from bytes is well-formed: the name is short and holds no NUL.
pub get_look-IsLook : (p : List ℕ) (l : MeshLook) → IsBytes p → get_look p ≡ some l → IsLook l
unfolding get_look
get_look-IsLook p l bytes h = elim (Bool-cases (ltb (length p) 6)) [
  | inl short ↦ absurd (none≢some (rw short at h))
  | inr long ↦ elim (Bool-cases (ltb (length p) (6 + byte_at p 4))) [
    | inl short ↦ absurd (none≢some (rw (long, short) at h))
    | inr fits ↦ elim (Option-cases (get_name (drop 5 p) (byte_at p 4))) [
      | inl bad ↦ absurd (none≢some (rw (long, fits, bad) at h))
      | inr (name, good) ↦
          rw
            (← check_custom-eq-some (byte_at (drop (byte_at p 4) (drop 5 p)) 0) (length p)
              (byte_at p 4)
              (record { avatar = byte_at p 0; accent_rgb = get_rgb (drop 1 p); name = name }) l
              (rw (long, fits, good) at h))
            (record {
              avatar_range = byte_at-lt p 0 bytes;
              accent_range = get_rgb-lt (drop 1 p) (All-drop _ 1 p bytes);
              is_name = get_name-IsName (drop 5 p) (byte_at p 4) name (All-drop _ 5 p bytes) good;
            })
    ]
  ]
]
