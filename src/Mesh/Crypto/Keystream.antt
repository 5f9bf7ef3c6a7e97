-- ===== src/Mesh/Crypto/Keystream.antt =====
-- The keystream of CCM: each byte is masked by a byte that the key, the nonce and its place give.
use native.Mathlib.Nat.{le_refl}
use open_apex.Base.{
  ℕ, zero, suc, ◌+◌, ◌≤◌, ◌≡◌, refl, arith, ap, ◌∙◌, sym, inl, inr, List, [], ◌∷◌, ◌++◌, length,
  length-append, take, drop, take_le, drop_le, take-append-drop, append-nil, ◌⊎◌, take-append,
  drop-append, length-drop, u16, ◌/◌, bit_xor_cancel,
}
use open_apex.Mesh.Crypto.{xor_into, ccm_ctr, crypt_from, ccm_crypt}

pub length-xor_into : (x y : List ℕ) → length (xor_into x y) ≡ length x
unfolding xor_into
length-xor_into [] y = refl
length-xor_into (a ∷ x) [] = refl
length-xor_into (a ∷ x) (b ∷ y) = ap suc (length-xor_into x y)

xor_into_cancel : (x y : List ℕ) → xor_into (xor_into x y) y ≡ x
unfolding xor_into
xor_into_cancel [] y = refl
xor_into_cancel (a ∷ x) [] = refl
xor_into_cancel (a ∷ x) (b ∷ y) = rw (bit_xor_cancel a b, xor_into_cancel x y)

crypt_from_nil : (fuel : ℕ) (key nonce : List ℕ) (off : ℕ) → crypt_from fuel key nonce off [] ≡ []
unfolding crypt_from
crypt_from_nil zero key nonce off = refl
crypt_from_nil (suc fuel) key nonce off = refl

abbrev keystream : List ℕ → List ℕ → ℕ → List ℕ
keystream key nonce off = ccm_ctr key nonce (u16 (off / 16 + 1))

-- One round of the keystream loop, on any input.
crypt_from_step :
    (fuel : ℕ) (key nonce : List ℕ) (off : ℕ) (x : List ℕ)
    → crypt_from (suc fuel) key nonce off x
      ≡ xor_into (take 16 x) (keystream key nonce off)
        ++ crypt_from fuel key nonce (off + 16) (drop 16 x)
unfolding crypt_from
crypt_from_step fuel key nonce off [] = sym (crypt_from_nil fuel key nonce (off + 16))
crypt_from_step fuel key nonce off (p ∷ x) = refl

-- The first block and the rest of `y ++ z`, where only a full block has a rest.
split_block :
    (y z : List ℕ)
    → length y ≤ 16
    → (length y ≡ 16) ⊎ (z ≡ [])
    → (take 16 (y ++ z) ≡ y) × (drop 16 (y ++ z) ≡ z)
split_block y z le (inl full) = (take-append 16 y z full, drop-append 16 y z full)
split_block y z le (inr over) = rw (over, append-nil) (take_le 16 y le, drop_le 16 y le)

length-take_min : (n : ℕ) (x : List ℕ) → (length (take n x) ≡ n) ⊎ (length x ≤ n)
length-take_min zero x = inl refl
length-take_min (suc n) [] = inr (omega arith)
length-take_min (suc n) (a ∷ x) = elim (length-take_min n x) [
  | inl full ↦ inl (omega arith)
  | inr short ↦ inr (omega arith)
]

length-take_le : (n : ℕ) (x : List ℕ) → length (take n x) ≤ n
length-take_le zero x = omega arith
length-take_le (suc n) [] = omega arith
length-take_le (suc n) (a ∷ x) = omega (arith, length-take_le n x)

block_le : (x ks : List ℕ) → length (xor_into (take 16 x) ks) ≤ 16
block_le x ks = omega (arith, length-xor_into (take 16 x) ks, length-take_le 16 x)

-- A block is full, or nothing is left behind it.
block_full :
    (x ks : List ℕ) (fuel : ℕ) (key nonce : List ℕ) (off : ℕ)
    → (length (xor_into (take 16 x) ks) ≡ 16) ⊎ (crypt_from fuel key nonce off (drop 16 x) ≡ [])
block_full x ks fuel key nonce off = elim (length-take_min 16 x) [
  | inl full ↦ inl (length-xor_into (take 16 x) ks ∙ full)
  | inr short ↦ inr (rw (drop_le 16 x short) (crypt_from_nil fuel key nonce off))
]

-- The keystream applied twice is nothing, with fuel for the length of the text.
crypt_from_twice :
    (fuel again : ℕ) (key nonce : List ℕ) (off : ℕ) (x : List ℕ)
    → length x ≤ fuel
    → length x ≤ again
    → crypt_from again key nonce off (crypt_from fuel key nonce off x) ≡ x
crypt_from_twice zero again key nonce off [] h k = rw (crypt_from_nil, crypt_from_nil)
crypt_from_twice zero again key nonce off (p ∷ x) h k = elim h [ ]
crypt_from_twice (suc fuel) zero key nonce off [] h k = rw (crypt_from_nil, crypt_from_nil)
crypt_from_twice (suc fuel) zero key nonce off (p ∷ x) h k = elim k [ ]
crypt_from_twice (suc fuel) (suc again) key nonce off x h k =
    let ks = keystream key nonce off in
    let y = xor_into (take 16 x) ks in
    let z = crypt_from fuel key nonce (off + 16) (drop 16 x) in
    let parts = split_block y z (block_le x ks) (block_full x ks fuel key nonce (off + 16)) in
    let ih =
      crypt_from_twice fuel again key nonce (off + 16) (drop 16 x) (omega (arith, length-drop 16 x))
        (omega (arith, length-drop 16 x)) in
    rw
      (
        crypt_from_step fuel key nonce off x,
        crypt_from_step again key nonce off (y ++ z),
        parts.0,
        parts.1,
      )
      (rw (xor_into_cancel (take 16 x) ks, ih) (take-append-drop 16 x))

length-crypt_from :
    (fuel : ℕ) (key nonce : List ℕ) (off : ℕ) (x : List ℕ)
    → length x ≤ fuel
    → length (crypt_from fuel key nonce off x) ≡ length x
length-crypt_from zero key nonce off [] h = rw crypt_from_nil
length-crypt_from zero key nonce off (p ∷ x) h = elim h [ ]
length-crypt_from (suc fuel) key nonce off x h = rw (crypt_from_step fuel key nonce off x) (
    omega (
      arith,
      length-append (xor_into (take 16 x) (keystream key nonce off))
          (crypt_from fuel key nonce (off + 16) (drop 16 x)),
      length-xor_into (take 16 x) (keystream key nonce off),
      length-crypt_from fuel key nonce (off + 16) (drop 16 x) (omega (arith, length-drop 16 x)),
      length-append (take 16 x) (drop 16 x),
      ap length (take-append-drop 16 x),
    ))

pub length-ccm_crypt : (key nonce x : List ℕ) → length (ccm_crypt key nonce x) ≡ length x
unfolding ccm_crypt
length-ccm_crypt key nonce x = length-crypt_from (length x) key nonce 0 x (le_refl _)

-- `ccm_crypt` undoes itself.
pub ccm_crypt_twice : (key nonce x : List ℕ) → ccm_crypt key nonce (ccm_crypt key nonce x) ≡ x
unfolding ccm_crypt
ccm_crypt_twice key nonce x =
    crypt_from_twice (length x) (length (crypt_from (length x) key nonce 0 x)) key nonce 0 x
      (le_refl _) (omega (arith, length-crypt_from (length x) key nonce 0 x (le_refl _)))
