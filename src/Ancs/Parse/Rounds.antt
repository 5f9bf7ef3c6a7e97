-- ===== src/Ancs/Parse/Rounds.antt =====
-- firmware/main/ancs_core.c, the loop of parse_attributes, round by round.
use open_apex.Base.{
  length-take_le, ℕ, zero, suc, ◌+◌, ◌-◌, ◌*◌, ◌/◌, ◌^◌, ◌≤◌, ◌<◌, ◌≡◌, refl, ap, ◌∙◌, arith, Bool,
  true, false, Bool-cases, inl, inr, ltb, ltb→lt, lt→ltb, ltb-false, ◌⊎◌, if◌then◌else◌, List, [],
  ◌∷◌, ◌++◌, length, length-append, take, drop, byte_at, u8, bit_or_low, or_u16, or_u32,
  take-append, drop-append,
}
use open_apex.Ancs.{
  ancs_ds_buf_len, Notification, rd_u16, rd_u32, asked, store, parse_incomplete, parse_complete,
  parse_loop,
}
use open_apex.Ancs.Parse.{Attribute, attributes_bytes, Answers, told}

rd_u16_lem : (n : ℕ) (rest : List ℕ) → n < 2 ^ 16 → rd_u16 (u8 n ∷ u8 (n / 2 ^ 8) ∷ rest) ≡ n
unfolding rd_u16
rd_u16_lem n rest h = omega (arith, or_u16 (u8 n) (u8 (n / 2 ^ 8)) (omega arith))

pub rd_u32_lem :
    (n : ℕ) (rest : List ℕ)
    → n < 2 ^ 32
    → rd_u32 (u8 n ∷ u8 (n / 2 ^ 8) ∷ u8 (n / 2 ^ 16) ∷ u8 (n / 2 ^ 24) ∷ rest) ≡ n
unfolding rd_u32
rd_u32_lem n rest h =
    rw
      (
        or_u16 (u8 n) (u8 (n / 2 ^ 8)) (omega arith),
        or_u32 (u8 n + u8 (n / 2 ^ 8) * 256) (u8 (n / 2 ^ 16)) (omega arith),
        bit_or_low 24 (u8 n + u8 (n / 2 ^ 8) * 256 + u8 (n / 2 ^ 16) * 65536) (u8 (n / 2 ^ 24))
            (omega arith),
      )
      (omega arith)

drop-take-append {ℓ} :
    {A : Type ℓ} (j k : ℕ) (xs ys : List A)
    → k ≡ length xs + j
    → drop (length xs) (take k (xs ++ ys)) ≡ take j ys
drop-take-append j k [] ys h = ap (λ (t : ℕ). take t ys) (omega arith)
drop-take-append j zero (x ∷ xs) ys h = absurd (omega arith)
drop-take-append j (suc k) (x ∷ xs) ys h = drop-take-append j k xs ys (omega arith)

-- One round: it stops short, or it takes one attribute.
round_done :
    (fuel seen off : ℕ) (out : Notification) (rest : List ℕ)
    → 5 ≤ seen
    → parse_loop fuel true seen off out rest ≡ parse_complete out off
unfolding parse_loop
round_done zero seen off out rest h = ground arith
round_done (suc fuel) seen off out rest h = ground arith

round_short :
    (fuel seen off : ℕ) (out : Notification) (rest : List ℕ)
    → seen < 5
    → (length rest < 3)
      ⊎ ((rd_u16 (drop 1 rest) + 3 ≤ ancs_ds_buf_len) × (length rest < 3 + rd_u16 (drop 1 rest)))
    → parse_loop fuel true seen off out rest ≡ parse_incomplete
unfolding parse_loop
round_short zero seen off out rest h k = ground arith
round_short (suc fuel) seen off out rest h (inl k) =
    rw (lt→ltb seen 5 h, lt→ltb (length rest) 3 k) refl
round_short (suc fuel) seen off out rest h (inr (k, l)) = elim (Bool-cases (ltb (length rest) 3)) [
  | inl short ↦ rw (lt→ltb seen 5 h, short) refl
  | inr long ↦
      rw
        (
          lt→ltb seen 5 h,
          long,
          ltb-false ancs_ds_buf_len (rd_u16 (drop 1 rest) + 3) k,
          lt→ltb (length rest) (3 + rd_u16 (drop 1 rest)) l,
        )
        refl
]

round_takes :
    (fuel seen off : ℕ) (out : Notification) (rest : List ℕ)
    → seen < 5
    → rd_u16 (drop 1 rest) + 3 ≤ ancs_ds_buf_len
    → 3 + rd_u16 (drop 1 rest) ≤ length rest
    → let alen = rd_u16 (drop 1 rest) in
      parse_loop (suc fuel) true seen off out rest
      ≡ parse_loop fuel true
          (if asked (byte_at rest 0) then suc seen else seen)
          (off + (3 + alen))
          (store out (byte_at rest 0) (take alen (drop 3 rest)))
          (drop (3 + alen) rest)
unfolding parse_loop
round_takes fuel seen off out rest h k l =
    rw
      (
        lt→ltb seen 5 h,
        ltb-false (length rest) 3 (omega arith),
        ltb-false ancs_ds_buf_len (rd_u16 (drop 1 rest) + 3) k,
        ltb-false (length rest) (3 + rd_u16 (drop 1 rest)) l,
      )
      refl

drop_three {ℓ} :
    {A : Type ℓ} (n : ℕ) (a b c : A) (xs : List A) → drop (3 + n) (a ∷ b ∷ c ∷ xs) ≡ drop n xs
drop_three n a b c xs =
    let e : 3 + n ≡ suc (suc (suc n)) = omega arith in ap (λ (t : ℕ). drop t (a ∷ b ∷ c ∷ xs)) e

counted :
    (b : Bool) (seen n : ℕ)
    → (if b then suc seen else seen) + (if b then n else suc n) ≡ seen + suc n
counted true seen n = omega arith
counted false seen n = omega arith

pub parse_loop-attributes :
    (fuel n seen off : ℕ) (out : Notification) (attrs : List Attribute)
    → seen + n ≡ 5
    → Answers n attrs
    → length attrs ≤ fuel
    → parse_loop fuel true seen off out (attributes_bytes attrs)
      ≡ parse_complete (told out attrs) (off + length (attributes_bytes attrs))
parse_loop-attributes fuel zero seen off out [] h k l =
    round_done fuel seen off out [] (omega arith) ∙ ap (parse_complete out) (omega arith)
parse_loop-attributes fuel zero seen off out (a ∷ attrs) h k l = elim k [ ]
parse_loop-attributes fuel (suc n) seen off out [] h k l = elim k [ ]
parse_loop-attributes zero (suc n) seen off out (a ∷ attrs) h k l = absurd (omega arith)
parse_loop-attributes (suc fuel) (suc n) seen off out (a ∷ attrs) h (fits, k) l =
    let m = length a.value in
    let rest = attributes_bytes attrs in
    let tail = a.value ++ rest in
    let alen : rd_u16 (u8 m ∷ u8 (m / 2 ^ 8) ∷ tail) ≡ m = rd_u16_lem m tail (omega arith) in
    let long : length (attributes_bytes (a ∷ attrs)) ≡ 3 + m + length rest =
      omega (arith, length-append a.value rest) in
    round_takes fuel seen off out (attributes_bytes (a ∷ attrs)) (omega arith) (omega (arith, alen))
      (omega (arith, alen, long))
    ∙ rw
        (
          alen,
          drop_three m a.id (u8 m) (u8 (m / 2 ^ 8)) tail,
          drop-append m a.value rest refl,
          take-append m a.value rest refl,
        )
        (parse_loop-attributes fuel (if asked a.id then n else suc n)
            (if asked a.id then suc seen else seen) (off + (3 + m)) (store out a.id a.value) attrs
            (counted (asked a.id) seen n ∙ h) k (omega arith)
          ∙ ap (parse_complete (told out (a ∷ attrs))) (omega (arith, long)))

take-take-append {ℓ} :
    {A : Type ℓ} (j k : ℕ) (xs ys : List A)
    → k ≡ length xs + j
    → take (length xs) (take k (xs ++ ys)) ≡ xs
take-take-append j k [] ys h = refl
take-take-append j zero (x ∷ xs) ys h = absurd (omega arith)
take-take-append j (suc k) (x ∷ xs) ys h = ap (◌∷◌ x) (take-take-append j k xs ys (omega arith))

length-take_long {ℓ} :
    {A : Type ℓ} (j k : ℕ) (xs ys : List A)
    → k ≡ length xs + j
    → length xs ≤ length (take k (xs ++ ys))
length-take_long j k [] ys h = omega arith
length-take_long j zero (x ∷ xs) ys h = absurd (omega arith)
length-take_long j (suc k) (x ∷ xs) ys h = omega (arith, length-take_long j k xs ys (omega arith))

cut_behind :
    (fuel seen off j k : ℕ) (out : Notification) (a : Attribute) (rest : List ℕ)
    → seen < 5
    → length a.value + 3 ≤ ancs_ds_buf_len
    → k ≡ length a.value + j
    → ((f : ℕ)
        → parse_loop f true
            (if asked a.id then suc seen else seen)
            (off + (3 + length a.value))
            (store out a.id a.value)
            (take j rest)
          ≡ parse_incomplete)
    → parse_loop fuel true seen off out
        (a.id ∷ u8 (length a.value) ∷ u8 (length a.value / 2 ^ 8) ∷ take k (a.value ++ rest))
      ≡ parse_incomplete
unfolding parse_loop
cut_behind zero seen off j k out a rest h fits e behind = ground arith
cut_behind (suc fuel) seen off j k out a rest h fits e behind =
    let m = length a.value in
    let tail = take k (a.value ++ rest) in
    let alen : rd_u16 (u8 m ∷ u8 (m / 2 ^ 8) ∷ tail) ≡ m = rd_u16_lem m tail (omega arith) in
    round_takes fuel seen off out (a.id ∷ u8 m ∷ u8 (m / 2 ^ 8) ∷ tail) h (omega (arith, alen))
      (omega (arith, alen, length-take_long j k a.value rest e))
    ∙ rw
        (
          alen,
          drop_three m a.id (u8 m) (u8 (m / 2 ^ 8)) tail,
          drop-take-append j k a.value rest e,
          take-take-append j k a.value rest e,
        )
        (behind fuel)

-- An attribute cut inside its value, or behind it.
cut_inside :
    (fuel seen off k : ℕ) (out : Notification) (a : Attribute) (rest : List ℕ)
    → seen < 5
    → length a.value + 3 ≤ ancs_ds_buf_len
    → ((f j : ℕ)
        → k ≡ length a.value + j
        → parse_loop f true
            (if asked a.id then suc seen else seen)
            (off + (3 + length a.value))
            (store out a.id a.value)
            (take j rest)
          ≡ parse_incomplete)
    → parse_loop fuel true seen off out
        (a.id ∷ u8 (length a.value) ∷ u8 (length a.value / 2 ^ 8) ∷ take k (a.value ++ rest))
      ≡ parse_incomplete
cut_inside fuel seen off k out a rest h fits behind =
    let m = length a.value in
    let tail = take k (a.value ++ rest) in
    let alen : rd_u16 (u8 m ∷ u8 (m / 2 ^ 8) ∷ tail) ≡ m = rd_u16_lem m tail (omega arith) in
    elim (Bool-cases (ltb k m)) [
      | inl inside ↦ round_short fuel seen off out (a.id ∷ u8 m ∷ u8 (m / 2 ^ 8) ∷ tail) h (
          inr (
            omega (arith, alen),
            omega (arith, alen, ltb→lt k m inside, length-take_le k (a.value ++ rest)),
          ))
      | inr past ↦
          cut_behind fuel seen off (k - m) k out a rest h fits (ground arith)
            (λ f. behind f (k - m) (ground arith))
    ]

-- Cut short anywhere, the loop waits for more.
pub parse_loop-cut :
    (fuel n seen off k : ℕ) (out : Notification) (attrs : List Attribute)
    → seen + n ≡ 5
    → Answers n attrs
    → k < length (attributes_bytes attrs)
    → parse_loop fuel true seen off out (take k (attributes_bytes attrs)) ≡ parse_incomplete
parse_loop-cut fuel n seen off k out [] h p l = absurd (omega arith)
parse_loop-cut fuel zero seen off k out (a ∷ attrs) h p l = elim p [ ]
parse_loop-cut fuel (suc n) seen off zero out (a ∷ attrs) h p l =
    round_short fuel seen off out [] (omega arith) (inl (omega arith))
parse_loop-cut fuel (suc n) seen off (suc zero) out (a ∷ attrs) h p l =
    round_short fuel seen off out (a.id ∷ []) (omega arith) (inl (omega arith))
parse_loop-cut fuel (suc n) seen off (suc (suc zero)) out (a ∷ attrs) h p l =
    round_short fuel seen off out (a.id ∷ u8 (length a.value) ∷ []) (omega arith)
      (inl (omega arith))
parse_loop-cut fuel (suc n) seen off (suc (suc (suc k))) out (a ∷ attrs) h (fits, p) l =
    cut_inside fuel seen off k out a (attributes_bytes attrs) (omega arith) fits (λ f j e.
      parse_loop-cut f (if asked a.id then n else suc n) (if asked a.id then suc seen else seen)
        (off + (3 + length a.value)) j (store out a.id a.value) attrs
        (counted (asked a.id) seen n ∙ h) p
        (omega (arith, l, e, length-append a.value (attributes_bytes attrs))))
