-- ===== src/Mesh/Crypto.antt =====
-- firmware/main/mesh_crypto.c: AES-128, CCM over it, and rotating pseudonyms. A `uint8_t` array is
-- a list of bytes; `^` of two bytes is a byte, so its cast cuts nothing off.
mod Sbox
mod Keystream
mod Aes
pub mod Ccm
mod Tests
use Sbox.{k_sbox}
use open_apex.Base.{
  ℕ, zero, suc, ◌+◌, ◌-◌, ◌*◌, ◌/◌, ◌%◌, Bool, true, false, ltb, ◌==◌, if◌then◌else◌, Option, none,
  some, List, [], ◌∷◌, ◌++◌, length, take, drop, replicate, byte_at, u8, u16, ◌<<<◌, ◌>>>◌, bit_or,
  bit_and, bit_xor, bytes_eq,
}

abbrev pub tag_len : ℕ
tag_len = 8

sbox : ℕ → ℕ
sbox x = byte_at k_sbox x

xtime : ℕ → ℕ
xtime x = u8 (bit_xor (x <<< 1) (if bit_and x 0x80 == 0 then 0x00 else 0x1b))

-- `x[i] ^= y[i]` over the indices that both have; the bytes of `x` past the end of `y` stay.
pub xor_into : List ℕ → List ℕ → List ℕ
xor_into [] y = []
xor_into (a ∷ x) [] = a ∷ x
xor_into (a ∷ x) (b ∷ y) = bit_xor a b ∷ xor_into x y

-- The list `f i ∷ f (i + 1) ∷ …` of `n` entries: a `for` loop that fills an array.
tabulate : ℕ → ℕ → (ℕ → ℕ) → List ℕ
tabulate zero i f = []
tabulate (suc n) i f = f i ∷ tabulate n (i + 1) f

-- The key schedule's loop from byte `i`, with `left` words to go.
expand_key : ℕ → ℕ → ℕ → List ℕ → List ℕ
unfolding sbox xtime
expand_key zero i rcon rk = rk
expand_key (suc left) i rcon rk =
    let at = byte_at rk in
    let first = i % 16 == 0 in
    let t0 = if first then bit_xor (sbox (at (i - 3))) rcon else at (i - 4) in
    let t1 = if first then sbox (at (i - 2)) else at (i - 3) in
    let t2 = if first then sbox (at (i - 1)) else at (i - 2) in
    let t3 = if first then sbox (at (i - 4)) else at (i - 1) in
    expand_key left (i + 4) (if first then xtime rcon else rcon) (
      rk
      ++ (bit_xor (at (i - 16)) t0
          ∷ bit_xor (at (i - 15)) t1
          ∷ bit_xor (at (i - 14)) t2
          ∷ bit_xor (at (i - 13)) t3
          ∷ []))

-- SubBytes and ShiftRows: entry `c * 4 + r` comes from column `(c + r) % 4`.
sub_shift : List ℕ → List ℕ
unfolding tabulate sbox
sub_shift s = tabulate 16 0 (λ k. sbox (byte_at s ((k / 4 + k % 4) % 4 * 4 + k % 4)))

mix_column : ℕ → ℕ → ℕ → ℕ → List ℕ
unfolding xtime
mix_column a0 a1 a2 a3 =
    let every = bit_xor (bit_xor (bit_xor a0 a1) a2) a3 in
    bit_xor (bit_xor a0 every) (xtime (bit_xor a0 a1))
    ∷ bit_xor (bit_xor a1 every) (xtime (bit_xor a1 a2))
    ∷ bit_xor (bit_xor a2 every) (xtime (bit_xor a2 a3))
    ∷ bit_xor (bit_xor a3 every) (xtime (bit_xor a3 a0))
    ∷ []

mix_columns : List ℕ → List ℕ
unfolding mix_column
mix_columns t =
    let column = λ (c : ℕ).
      mix_column (byte_at t c) (byte_at t (c + 1)) (byte_at t (c + 2)) (byte_at t (c + 3)) in
    column 0 ++ (column 4 ++ (column 8 ++ column 12))

-- One round: the tenth has no MixColumns.
aes_round : ℕ → List ℕ → List ℕ → List ℕ
unfolding sub_shift mix_columns xor_into
aes_round round rk s =
    let t = sub_shift s in
    let mixed = if round == 10 then t else mix_columns t in xor_into mixed (drop (round * 16) rk)

-- Rounds `round` to 10, with `left` of them to go.
aes_rounds : ℕ → ℕ → List ℕ → List ℕ → List ℕ
unfolding aes_round
aes_rounds zero round rk s = s
aes_rounds (suc left) round rk s = aes_rounds left (round + 1) rk (aes_round round rk s)

pub mesh_aes128_encrypt : List ℕ → List ℕ → List ℕ
unfolding expand_key aes_rounds xor_into
mesh_aes128_encrypt key input =
    let rk = expand_key 40 16 0x01 key in aes_rounds 10 1 rk (xor_into input rk)

-- One block into the CBC-MAC: the block is zero-padded by leaving the rest of `mac` as it is.
mac_block : List ℕ → List ℕ → List ℕ → List ℕ
mac_block key mac block = mesh_aes128_encrypt key (xor_into mac block)

-- The AAD loop: `block` is the start of the current block, to be filled from `rest`.
mac_aad : ℕ → List ℕ → List ℕ → List ℕ → List ℕ → List ℕ
mac_aad zero key mac block rest = mac
mac_aad (suc fuel) key mac block [] = mac
mac_aad (suc fuel) key mac block (a ∷ rest) =
    let room = 16 - length block in
    mac_aad fuel key (mac_block key mac (block ++ take room (a ∷ rest))) [] (drop room (a ∷ rest))

-- The payload loop, sixteen bytes to a round.
mac_payload : ℕ → List ℕ → List ℕ → List ℕ → List ℕ
mac_payload zero key mac pt = mac
mac_payload (suc fuel) key mac [] = mac
mac_payload (suc fuel) key mac (p ∷ pt) =
    mac_payload fuel key (mac_block key mac (take 16 (p ∷ pt))) (drop 16 (p ∷ pt))

-- The first block of the MAC: flags, nonce and payload length.
mac_b0 : List ℕ → ℕ → ℕ → List ℕ
mac_b0 nonce aad_len len =
    bit_or (bit_or (if aad_len == 0 then 0 else 0x40) ((tag_len - 2) / 2 <<< 3)) 1
    ∷ (nonce ++ (u8 (len >>> 8) ∷ u8 len ∷ []))

pub ccm_mac : List ℕ → List ℕ → List ℕ → List ℕ → List ℕ
unfolding mac_b0 mac_block mac_aad mac_payload
ccm_mac key nonce aad pt =
    let aad_len = length aad in
    let mac = mesh_aes128_encrypt key (mac_b0 nonce aad_len (length pt)) in
    let lead = u8 (aad_len >>> 8) ∷ u8 aad_len ∷ [] in
    mac_payload (length pt) key (mac_aad aad_len key mac lead aad) pt

pub ccm_ctr : List ℕ → List ℕ → ℕ → List ℕ
ccm_ctr key nonce counter =
    mesh_aes128_encrypt key (1 ∷ (nonce ++ (u8 (counter >>> 8) ∷ u8 counter ∷ [])))

-- The keystream loop from offset `off`, a multiple of 16. Each round takes a byte at least.
pub crypt_from : ℕ → List ℕ → List ℕ → ℕ → List ℕ → List ℕ
unfolding xor_into
crypt_from zero key nonce off input = []
crypt_from (suc fuel) key nonce off [] = []
crypt_from (suc fuel) key nonce off (p ∷ input) =
    xor_into (take 16 (p ∷ input)) (ccm_ctr key nonce (u16 (off / 16 + 1)))
    ++ crypt_from fuel key nonce (off + 16) (drop 16 (p ∷ input))

pub ccm_crypt : List ℕ → List ℕ → List ℕ → List ℕ
unfolding crypt_from
ccm_crypt key nonce input = crypt_from (length input) key nonce 0 input

pub record Sealed : Type 0 where
  pub ct : List ℕ
  pub tag : List ℕ

pub mesh_ccm_encrypt : List ℕ → List ℕ → List ℕ → List ℕ → Sealed
mesh_ccm_encrypt key nonce aad pt = record {
  ct = ccm_crypt key nonce pt;
  tag = take tag_len (xor_into (ccm_mac key nonce aad pt) (ccm_ctr key nonce 0));
}

-- The loop `diff |= tag[i] ^ mac[i] ^ s0[i]`.
pub tag_diff : ℕ → List ℕ → List ℕ → ℕ
tag_diff diff [] want = diff
tag_diff diff (t ∷ tag) [] = diff
tag_diff diff (t ∷ tag) (w ∷ want) = tag_diff (bit_or diff (bit_xor t w)) tag want

-- `none` is the code's `return false`, with `pt` zeroed.
pub mesh_ccm_decrypt : List ℕ → List ℕ → List ℕ → List ℕ → List ℕ → Option (List ℕ)
mesh_ccm_decrypt key nonce aad ct tag =
    let pt = ccm_crypt key nonce ct in
    let want = take tag_len (xor_into (ccm_mac key nonce aad pt) (ccm_ctr key nonce 0)) in
    if tag_diff 0 tag want == 0 then some pt else none

-- `kLabel`: "OA-TAGKEY", zero-padded.
abbrev k_label : List ℕ
k_label = b'O' ∷ b'A' ∷ b'-' ∷ b'T' ∷ b'A' ∷ b'G' ∷ b'K' ∷ b'E' ∷ b'Y' ∷ replicate 7 0

pub mesh_tag_key : List ℕ → List ℕ
mesh_tag_key rider_key = mesh_aes128_encrypt rider_key k_label

pub mesh_pseudonym_make : List ℕ → List ℕ → List ℕ
mesh_pseudonym_make tag_key prand =
    take 4 prand ++ take 4 (mesh_aes128_encrypt tag_key (take 4 prand ++ replicate 12 0))

pub mesh_pseudonym_match : List ℕ → List ℕ → Bool
mesh_pseudonym_match tag_key pseudonym =
    bytes_eq (take 4 (drop 4 (mesh_pseudonym_make tag_key pseudonym))) (take 4 (drop 4 pseudonym))
