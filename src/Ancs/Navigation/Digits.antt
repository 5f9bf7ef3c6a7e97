-- ===== src/Ancs/Navigation/Digits.antt =====
-- firmware/main/ancs_nav.c, digits: numbers of two and of four digits, written and read back.
use open_apex.Base.{
  ℕ, suc, ◌*◌, ◌+◌, ◌/◌, ◌%◌, ◌≤◌, ◌<◌, ◌≡◌, refl, arith, some, none, true, ◌-◌, sym, ◌∙◌,
  Bool-cases, inl, inr, drop, byte_at, [], List, ◌∷◌,
}
use open_apex.Ancs.Navigation.{is_digit, digits_from, digits}

abbrev pub digit : ℕ → ℕ
digit n = b'0' + n % 10

abbrev pub two : ℕ → List ℕ → List ℕ
two n rest = digit (n / 10) ∷ digit n ∷ rest

nothing : {n : ℕ} → none ≡ some n → ⊥
nothing e = cc

value_of : {m n : ℕ} → some m ≡ some n → m ≡ n
value_of e = cc

digit_range : (c : ℕ) → is_digit c ≡ true → (b'0' ≤ c) × (c ≤ b'9')
digit_range c h = ground (arith, h)

pub digits-two : (n : ℕ) (rest : List ℕ) → n < 100 → digits (two n rest) 2 ≡ some n
unfolding digits digits_from
digits-two n rest h = ground arith

pub digits-four :
    (n : ℕ) (rest : List ℕ)
    → n ≤ 9999
    → digits (digit (n / 1000) ∷ digit (n / 100) ∷ digit (n / 10) ∷ digit n ∷ rest) 4 ≡ some n
unfolding digits digits_from
digits-four n rest h = ground arith

-- One step of the reading, taken back.
digits_from-step :
    (k v : ℕ) (s : List ℕ) (n : ℕ)
    → digits_from (suc k) v s ≡ some n
    → (is_digit (byte_at s 0) ≡ true)
      × (digits_from k (v * 10 + (byte_at s 0 - b'0')) (drop 1 s) ≡ some n)
unfolding digits_from
digits_from-step k v s n e = elim (Bool-cases (is_digit (byte_at s 0))) [
  | inl is ↦ (is, sym (rw is refl) ∙ e)
  | inr other ↦ absurd (nothing (sym (rw other refl) ∙ e))
]

-- The digits of a number of two digits, and of four.
two_digits :
    (a b n : ℕ)
    → is_digit a ≡ true
    → is_digit b ≡ true
    → (0 * 10 + (a - b'0')) * 10 + (b - b'0') ≡ n
    → (a ≡ digit (n / 10)) × (b ≡ digit n)
two_digits a b n h k e =
    let (h0, h1) = digit_range a h in let (k0, k1) = digit_range b k in (omega arith, omega arith)

four_digits :
    (a b c d n : ℕ)
    → is_digit a ≡ true
    → is_digit b ≡ true
    → is_digit c ≡ true
    → is_digit d ≡ true
    → (((0 * 10 + (a - b'0')) * 10 + (b - b'0')) * 10 + (c - b'0')) * 10 + (d - b'0') ≡ n
    → (a ≡ digit (n / 1000))
      × (b ≡ digit (n / 100))
      × (c ≡ digit (n / 10))
      × (d ≡ digit n)
      × (n ≤ 9999)
four_digits a b c d n h k l m e =
    let (h0, h1) = digit_range a h in
    let (k0, k1) = digit_range b k in
    let (l0, l1) = digit_range c l in
    let (m0, m1) = digit_range d m in
    (omega arith, omega arith, omega arith, omega arith, omega arith)

two_list :
    (s : List ℕ)
    → is_digit (byte_at s 0) ≡ true
    → is_digit (byte_at (drop 1 s) 0) ≡ true
    → s ≡ byte_at s 0 ∷ byte_at (drop 1 s) 0 ∷ drop 2 s
two_list [] h k = cc
two_list (a ∷ []) h k = cc
two_list (a ∷ b ∷ s) h k = refl

pub digits-two_back : (s : List ℕ) (n : ℕ) → digits s 2 ≡ some n → s ≡ two n (drop 2 s)
unfolding digits digits_from
digits-two_back s n e =
    let (h, e1) = digits_from-step 1 0 s n e in
    let (k, e2) = digits_from-step 0 (0 * 10 + (byte_at s 0 - b'0')) (drop 1 s) n e1 in
    let (a, b) = two_digits (byte_at s 0) (byte_at (drop 1 s) 0) n h k (value_of e2) in
    two_list s h k ∙ rw (a, b) refl

four_list :
    (s : List ℕ)
    → is_digit (byte_at s 0) ≡ true
    → is_digit (byte_at (drop 1 s) 0) ≡ true
    → is_digit (byte_at (drop 1 (drop 1 s)) 0) ≡ true
    → is_digit (byte_at (drop 1 (drop 1 (drop 1 s))) 0) ≡ true
    → s
      ≡ byte_at s 0
        ∷ byte_at (drop 1 s) 0
        ∷ byte_at (drop 1 (drop 1 s)) 0
        ∷ byte_at (drop 1 (drop 1 (drop 1 s))) 0
        ∷ drop 4 s
four_list [] h k l m = cc
four_list (a ∷ []) h k l m = cc
four_list (a ∷ b ∷ []) h k l m = cc
four_list (a ∷ b ∷ c ∷ []) h k l m = cc
four_list (a ∷ b ∷ c ∷ d ∷ s) h k l m = refl

pub digits-four_back :
    (s : List ℕ) (n : ℕ)
    → digits s 4 ≡ some n
    → (s ≡ digit (n / 1000) ∷ digit (n / 100) ∷ digit (n / 10) ∷ digit n ∷ drop 4 s) × (n ≤ 9999)
unfolding digits digits_from
digits-four_back s n e =
    let v1 = 0 * 10 + (byte_at s 0 - b'0') in
    let v2 = v1 * 10 + (byte_at (drop 1 s) 0 - b'0') in
    let v3 = v2 * 10 + (byte_at (drop 1 (drop 1 s)) 0 - b'0') in
    let (h, e1) = digits_from-step 3 0 s n e in
    let (k, e2) = digits_from-step 2 v1 (drop 1 s) n e1 in
    let (l, e3) = digits_from-step 1 v2 (drop 1 (drop 1 s)) n e2 in
    let (m, e4) = digits_from-step 0 v3 (drop 1 (drop 1 (drop 1 s))) n e3 in
    let (a, b, c, d, small) =
      four_digits (byte_at s 0) (byte_at (drop 1 s) 0) (byte_at (drop 1 (drop 1 s)) 0)
        (byte_at (drop 1 (drop 1 (drop 1 s))) 0) n h k l m (value_of e4) in
    (four_list s h k l m ∙ rw (a, b, c, d) refl, small)
