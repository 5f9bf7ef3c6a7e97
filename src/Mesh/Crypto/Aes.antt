-- ===== src/Mesh/Crypto/Aes.antt =====
-- Every block that comes out of the cipher, and every MAC, has sixteen bytes.
use open_apex.Base.{
  ℕ, zero, suc, ◌+◌, ◌*◌, ◌-◌, ◌≡◌, inl, inr, Bool-cases, ◌==◌, List, [], ◌∷◌, ◌++◌, length, take,
  drop, u8, ◌>>>◌,
}
use open_apex.Mesh.Crypto.Keystream.{length-xor_into}
use open_apex.Mesh.Crypto.{
  sub_shift, mix_columns, xor_into, expand_key, aes_round, aes_rounds, mesh_aes128_encrypt, mac_b0,
  mac_block, mac_aad, mac_payload, ccm_mac,
}

length-aes_round : (round : ℕ) (rk s : List ℕ) → length (aes_round round rk s) ≡ 16
unfolding aes_round
length-aes_round round rk s = elim (Bool-cases (round == 10)) [
  | inl last ↦ rw last (length-xor_into (sub_shift s) (drop (round * 16) rk))
  | inr before ↦ rw before (length-xor_into (mix_columns (sub_shift s)) (drop (round * 16) rk))
]

length-aes_rounds :
    (left round : ℕ) (rk s : List ℕ) → length (aes_rounds (suc left) round rk s) ≡ 16
unfolding aes_rounds
length-aes_rounds zero round rk s = length-aes_round round rk s
length-aes_rounds (suc left) round rk s =
    length-aes_rounds left (round + 1) rk (aes_round round rk s)

pub length-mesh_aes128_encrypt : (key input : List ℕ) → length (mesh_aes128_encrypt key input) ≡ 16
unfolding mesh_aes128_encrypt
length-mesh_aes128_encrypt key input =
    length-aes_rounds 9 1 (expand_key 40 16 0x01 key) (xor_into input (expand_key 40 16 0x01 key))

length-mac_block : (key mac block : List ℕ) → length (mac_block key mac block) ≡ 16
unfolding mac_block
length-mac_block key mac block = length-mesh_aes128_encrypt key (xor_into mac block)

length-mac_aad :
    (fuel : ℕ) (key mac block rest : List ℕ)
    → length mac ≡ 16
    → length (mac_aad fuel key mac block rest) ≡ 16
unfolding mac_aad
length-mac_aad zero key mac block rest h = h
length-mac_aad (suc fuel) key mac block [] h = h
length-mac_aad (suc fuel) key mac block (a ∷ rest) h =
    let filled = block ++ take (16 - length block) (a ∷ rest) in
    length-mac_aad fuel key (mac_block key mac filled) [] (drop (16 - length block) (a ∷ rest))
      (length-mac_block key mac filled)

length-mac_payload :
    (fuel : ℕ) (key mac pt : List ℕ) → length mac ≡ 16 → length (mac_payload fuel key mac pt) ≡ 16
unfolding mac_payload
length-mac_payload zero key mac pt h = h
length-mac_payload (suc fuel) key mac [] h = h
length-mac_payload (suc fuel) key mac (p ∷ pt) h =
    length-mac_payload fuel key (mac_block key mac (take 16 (p ∷ pt))) (drop 16 (p ∷ pt))
      (length-mac_block key mac (take 16 (p ∷ pt)))

-- A MAC has the length of a block.
pub length-ccm_mac : (key nonce aad pt : List ℕ) → length (ccm_mac key nonce aad pt) ≡ 16
unfolding ccm_mac
length-ccm_mac key nonce aad pt =
    let first = mesh_aes128_encrypt key (mac_b0 nonce (length aad) (length pt)) in
    let lead = u8 (length aad >>> 8) ∷ u8 (length aad) ∷ [] in
    length-mac_payload (length pt) key (mac_aad (length aad) key first lead aad) pt (
      length-mac_aad (length aad) key first lead aad
        (length-mesh_aes128_encrypt key (mac_b0 nonce (length aad) (length pt))))
