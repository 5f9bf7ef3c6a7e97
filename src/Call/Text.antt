-- ===== src/Call/Text.antt =====
-- firmware/main/call_packet.c, `call_fold_ascii` and `call_event_decode`: what a name becomes.
use open_apex.Base.{
  ℕ, zero, suc, ◌≤◌, ◌<◌, ◌≡◌, refl, arith, Bool, true, false, not, ◌||◌, ◌&&◌, Bool-cases,
  Option-cases, inl, inr, ltb, leb, ◌==◌, if◌then◌else◌, none, some, List, [], ◌∷◌, length, take,
  drop, All, byte_at, get_or, bit_and, bit_and_le,
}
use open_apex.Call.{
  CallEvent, latin1_fold, seq_len, fold_char, fold_from, call_fold_ascii, call_event_decode,
  event_type, call_event_packet_size, call_packet_version,
}

-- A character that the page's font has.
abbrev pub Printable : ℕ → Type 0
Printable c = (0x20 ≤ c) × (c < 0x7F)

no_event : {e : CallEvent} → none ≡ some e → ⊥
no_event h = cc

the_event : {e f : CallEvent} → some e ≡ some f → e ≡ f
the_event h = cc

get_or-All : (P : ℕ → Type 0) (p : List ℕ) (i d : ℕ) → All P p → i < length p → P (get_or p i d)
get_or-All P [] i d h k = elim k [ ]
get_or-All P (x ∷ p) zero d h k = h.0
get_or-All P (x ∷ p) (suc i) d h k = get_or-All P p i d h.1 (omega arith)

if-case {ℓ κ} :
    {A : Type ℓ} (P : A → Type κ) (b : Bool) (x y : A)
    → (b ≡ true → P x)
    → (b ≡ false → P y)
    → P (if b then x else y)
if-case P true x y h k = h refl
if-case P false x y h k = k refl

latin1_fold_size : length latin1_fold ≡ 64
unfolding latin1_fold
latin1_fold_size = refl

latin1_fold-Printable : All Printable latin1_fold
unfolding latin1_fold
latin1_fold-Printable = ground arith

fold_char-Printable : (c b : ℕ) → Printable (fold_char c b)
unfolding fold_char
fold_char-Printable c b =
    if-case Printable (ltb c 0x80) _ _
      (λ low.
        if-case Printable (leb 0x20 c && not (c == 0x7F)) _ _ (λ h. ground (arith, low, h))
          (λ h. ground arith))
      (λ high.
        if-case Printable (seq_len c == 2 && c == 0xC3) _ _
          (λ h.
            get_or-All Printable latin1_fold (bit_and b 0x3F) 0 latin1_fold-Printable
              (omega (arith, bit_and_le b 0x3F, latin1_fold_size)))
          (λ h.
            if-case Printable (seq_len c == 2 && c == 0xC2 && b == 0xA0) _ _ (λ k. ground arith)
              (λ k. ground arith)))

fold_from-Printable :
    (room : ℕ) (src : List ℕ)
    → All Printable (fold_from room src) × (length (fold_from room src) ≤ room)
unfolding fold_from
fold_from-Printable zero src = (tt, omega arith)
fold_from-Printable (suc room) [] = (tt, omega arith)
fold_from-Printable (suc room) (c ∷ src) =
    let Good = λ (out : List ℕ). All Printable out × (length out ≤ suc room) in
    let seq = if ltb c 0x80 then 1 else seq_len c in
    let rest = fold_from-Printable room (drop seq (c ∷ src)) in
    if-case Good (c == 0) _ _ (λ h. (tt, omega arith))
      (λ h.
        if-case Good (ltb (length (c ∷ src)) seq) _ _ (λ k. (tt, omega arith))
          (λ k. ((fold_char-Printable c (byte_at src 0), rest.0), omega (arith, rest.1))))

-- A call event that decodes, from any bytes, has a caller of at most forty and a number of at most
-- twenty characters, all of them printable ASCII, whatever text encoding or control bytes the packet
-- held.
pub call_event_decode-Printable :
    (d : List ℕ) (e : CallEvent)
    → call_event_decode d ≡ some e
    → (All Printable e.caller × (length e.caller ≤ 40))
      × (All Printable e.number × (length e.number ≤ 20))
unfolding call_event_decode call_fold_ascii
call_event_decode-Printable d e h =
    elim (Bool-cases
      (ltb (length d) call_event_packet_size || not (byte_at d 0 == call_packet_version))) [
        | inl bad ↦ absurd (no_event (rw bad at h))
        | inr good ↦ elim (Option-cases (event_type (byte_at d 1))) [
          | inl unknown ↦ absurd (no_event (rw (good, unknown) at h))
          | inr (type, known) ↦
              let same = the_event (rw (good, known) at h) in
              rw (← same) (
                fold_from-Printable 40 (take 40 (drop 4 d)),
                fold_from-Printable 20 (take 20 (drop 44 d)),
              )
        ]
      ]
