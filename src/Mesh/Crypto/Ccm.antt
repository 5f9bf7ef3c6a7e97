-- ===== src/Mesh/Crypto/Ccm.antt =====
-- CCM as the mesh uses it: decryption inverts encryption, and accepts nothing else.
use mathlib.Core.Path.{ap₂}
use open_apex.Base.{
  ℕ, ◌≡◌, refl, arith, sym, inl, inr, Bool-cases, ==_iff, none, some, List, [], ◌∷◌, length, take,
  length-take, ◌==◌, bit_or, bit_xor, bit_xor_self, bit_xor-eq-zero, bit_or-eq-zero,
}
use open_apex.Mesh.Crypto.Keystream.{length-xor_into, length-ccm_crypt, ccm_crypt_twice}
use open_apex.Mesh.Crypto.Aes.{length-ccm_mac}
use open_apex.Mesh.Crypto.{
  tag_len, xor_into, ccm_mac, ccm_ctr, ccm_crypt, mesh_ccm_encrypt, tag_diff, mesh_ccm_decrypt,
}

tag_diff_self : (x : List ℕ) → tag_diff 0 x x ≡ 0
unfolding tag_diff
tag_diff_self [] = refl
tag_diff_self (a ∷ x) = rw (bit_xor_self a) (tag_diff_self x)

-- No difference was collected only where the two tags are one.
tag_diff-eq-zero :
    (d : ℕ) (x y : List ℕ) → length x ≡ length y → tag_diff d x y ≡ 0 → (d ≡ 0) × (x ≡ y)
unfolding tag_diff
tag_diff-eq-zero d [] [] l h = (h, refl)
tag_diff-eq-zero d [] (b ∷ y) l h = absurd (omega arith)
tag_diff-eq-zero d (a ∷ x) [] l h = absurd (omega arith)
tag_diff-eq-zero d (a ∷ x) (b ∷ y) l h =
    let rest = tag_diff-eq-zero (bit_or d (bit_xor a b)) x y (omega arith) h in
    let both = bit_or-eq-zero d (bit_xor a b) rest.0 in
    (both.0, ap₂ ◌∷◌ (bit_xor-eq-zero a b both.1) rest.1)

-- A sealed frame opens to its plaintext under the same key, nonce and associated data.
pub mesh_ccm_decrypt-encrypt :
    (key nonce aad pt : List ℕ)
    → let s = mesh_ccm_encrypt key nonce aad pt in
      mesh_ccm_decrypt key nonce aad s.ct s.tag ≡ some pt
unfolding mesh_ccm_encrypt mesh_ccm_decrypt
mesh_ccm_decrypt-encrypt key nonce aad pt = rw (ccm_crypt_twice key nonce pt, tag_diff_self)

mac_length :
    (key nonce aad pt : List ℕ)
    → length (take tag_len (xor_into (ccm_mac key nonce aad pt) (ccm_ctr key nonce 0))) ≡ tag_len
mac_length key nonce aad pt =
    length-take tag_len (xor_into (ccm_mac key nonce aad pt) (ccm_ctr key nonce 0)) (
      omega (
        arith,
        length-xor_into (ccm_mac key nonce aad pt) (ccm_ctr key nonce 0),
        length-ccm_mac key nonce aad pt,
      ))

some_injective : {x y : List ℕ} → some x ≡ some y → x ≡ y
some_injective e = cc

none≢some : {x : List ℕ} → none ≡ some x → ⊥
none≢some e = cc

-- Whatever opens was sealed: a frame with a full tag is accepted only if sealing the plaintext that
-- comes out gives that ciphertext and that tag.
pub mesh_ccm_decrypt-eq-some :
    (key nonce aad ct tag pt : List ℕ)
    → length tag ≡ tag_len
    → mesh_ccm_decrypt key nonce aad ct tag ≡ some pt
    → mesh_ccm_encrypt key nonce aad pt ≡ record { ct = ct; tag = tag }
unfolding mesh_ccm_encrypt mesh_ccm_decrypt
mesh_ccm_decrypt-eq-some key nonce aad ct tag pt l h =
    let opened = ccm_crypt key nonce ct in
    let want = take tag_len (xor_into (ccm_mac key nonce aad opened) (ccm_ctr key nonce 0)) in
    elim (Bool-cases (tag_diff 0 tag want == 0)) [
      | inl same ↦
          let plain : opened ≡ pt = some_injective (rw same at h) in
          let tags =
            tag_diff-eq-zero 0 tag want (omega (arith, l, mac_length key nonce aad opened))
              ((==_iff _ 0).0 same) in
          rw (← plain) (λ i. record { ct = ccm_crypt_twice key nonce ct i; tag = sym tags.1 i })
      | inr other ↦ absurd (none≢some (rw other at h))
    ]

pub length-ct :
    (key nonce aad pt : List ℕ) → length (mesh_ccm_encrypt key nonce aad pt).ct ≡ length pt
unfolding mesh_ccm_encrypt
length-ct key nonce aad pt = length-ccm_crypt key nonce pt

pub length-tag :
    (key nonce aad pt : List ℕ) → length (mesh_ccm_encrypt key nonce aad pt).tag ≡ tag_len
unfolding mesh_ccm_encrypt
length-tag key nonce aad pt = mac_length key nonce aad pt
