-- ===== src/Settings/Records.antt =====
-- The decoding loop of settings.c: it ends, skips records it does not know, and takes two writes
-- one after the other.
use open_apex.Base.{
  ℕ, zero, suc, ◌≤◌, ◌<◌, ◌≡◌, ◌≢◌, refl, arith, ◌∙◌, ◌==◌, ==_iff, false, ltb, ltb-false,
  Bool-cases, inl, inr, some, Option-cases, List, [], ◌∷◌, ◌++◌, length, drop, length-drop,
  length-append, drop-append,
}
use open_apex.Settings.Tag
use open_apex.Settings.{
  settings_schema_version, TerminalSettings, apply_record, byte_tag_max, accepted, rejected,
  out_of_fuel, decode_records, settings_tlv_decode,
}

-- One round of the loop, where the record fits.
pub decode_records_step :
    (fuel tag n : ℕ) (v : List ℕ) (s s' : TerminalSettings)
    → n ≤ length v
    → apply_record tag n v s ≡ some s'
    → decode_records (suc fuel) (tag ∷ n ∷ v) s ≡ decode_records fuel (drop n v) s'
unfolding decode_records
decode_records_step fuel tag n v s s' h e = rw (ltb-false (length v) n h, e)

-- With fuel past the length the loop does not run out.
decode_records_ends :
    (fuel : ℕ) (buf : List ℕ) (s : TerminalSettings)
    → length buf < fuel
    → decode_records fuel buf s ≢ out_of_fuel
unfolding decode_records
decode_records_ends zero buf s h = elim h [ ]
decode_records_ends (suc fuel) [] s h = λ e. cc
decode_records_ends (suc fuel) (tag ∷ []) s h = λ e. cc
decode_records_ends (suc fuel) (tag ∷ n ∷ v) s h = elim (Bool-cases (ltb (length v) n)) [
  | inl short ↦ rw short (λ e. cc)
  | inr fits ↦ elim (Option-cases (apply_record tag n v s)) [
    | inl bad ↦ rw (fits, bad) (λ e. cc)
    | inr (s', good) ↦
        rw (fits, good) (decode_records_ends fuel (drop n v) s' (omega (arith, length-drop n v)))
  ]
]

-- Any two amounts of fuel past the length agree.
pub decode_records_fuel :
    (f g : ℕ) (buf : List ℕ) (s : TerminalSettings)
    → length buf < f
    → length buf < g
    → decode_records f buf s ≡ decode_records g buf s
unfolding decode_records
decode_records_fuel zero g buf s h k = elim h [ ]
decode_records_fuel (suc f) zero buf s h k = elim k [ ]
decode_records_fuel (suc f) (suc g) [] s h k = refl
decode_records_fuel (suc f) (suc g) (tag ∷ []) s h k = refl
decode_records_fuel (suc f) (suc g) (tag ∷ n ∷ v) s h k = elim (Bool-cases (ltb (length v) n)) [
  | inl short ↦ rw short
  | inr fits ↦ elim (Option-cases (apply_record tag n v s)) [
    | inl bad ↦ rw (fits, bad)
    | inr (s', good) ↦
        rw (fits, good)
          (decode_records_fuel f g (drop n v) s' (omega (arith, length-drop n v))
            (omega (arith, length-drop n v)))
  ]
]

-- A record that fits reads nothing behind its value.
apply_record-append :
    (tag n : ℕ) (v rest : List ℕ) (s : TerminalSettings)
    → n ≤ length v
    → apply_record tag n (v ++ rest) s ≡ apply_record tag n v s
unfolding apply_record
apply_record-append tag n [] rest s h = ground arith
apply_record-append tag n (a ∷ []) rest s h = ground arith
apply_record-append tag n (a ∷ b ∷ []) rest s h = ground arith
apply_record-append tag n (a ∷ b ∷ c ∷ v) rest s h = refl

drop-append_le : (n : ℕ) (v rest : List ℕ) → n ≤ length v → drop n (v ++ rest) ≡ drop n v ++ rest
drop-append_le zero v rest h = refl
drop-append_le (suc n) [] rest h = elim h [ ]
drop-append_le (suc n) (a ∷ v) rest h = drop-append_le n v rest (omega arith)

fits→le : (n m : ℕ) → ltb m n ≡ false → n ≤ m
fits→le n m h = ground arith

clash : {s : TerminalSettings} → rejected ≡ accepted s → ⊥
clash h = cc

-- The loop over two runs of records one behind the other.
decode_records-append :
    (f g : ℕ) (xs ys : List ℕ) (s s' : TerminalSettings)
    → length (xs ++ ys) < g
    → decode_records f xs s ≡ accepted s'
    → decode_records g (xs ++ ys) s ≡ decode_records g ys s'
unfolding decode_records
decode_records-append zero g xs ys s s' h e = cc
decode_records-append (suc f) g [] ys s s' h e = cc
decode_records-append (suc f) g (tag ∷ []) ys s s' h e = cc
decode_records-append (suc f) zero (tag ∷ n ∷ v) ys s s' h e = elim h [ ]
decode_records-append (suc f) (suc g) (tag ∷ n ∷ v) ys s s' h e =
    elim (Bool-cases (ltb (length v) n)) [
      | inl short ↦ absurd (clash (rw short at e))
      | inr fits ↦ elim (Option-cases (apply_record tag n v s)) [
        | inl bad ↦ absurd (clash (rw (fits, bad) at e))
        | inr (s'', good) ↦
            let le = fits→le n (length v) fits in
            decode_records_step g tag n (v ++ ys) s s'' (omega (arith, length-append v ys))
              (apply_record-append tag n v ys s le ∙ good)
            ∙ (rw (drop-append_le n v ys le) (
                decode_records-append f g (drop n v) ys s'' s'
                  (omega (arith, length-append v ys, length-append (drop n v) ys, length-drop n v))
                  (rw (fits, good) at e)))
            ∙ decode_records_fuel g (suc g) ys s' (omega (arith, length-append v ys))
                (omega (arith, length-append v ys))
      ]
    ]

-- Decoding always reaches an answer: on every buffer the result is a settings value or a refusal.
pub settings_tlv_decode-ne-out_of_fuel :
    (buf : List ℕ) (s : TerminalSettings) → settings_tlv_decode buf s ≢ out_of_fuel
unfolding settings_tlv_decode
settings_tlv_decode-ne-out_of_fuel [] s = λ e. cc
settings_tlv_decode-ne-out_of_fuel (schema ∷ buf) s = elim (Bool-cases (schema == 1)) [
  | inl same ↦ rw same (decode_records_ends (suc (length buf)) buf s (omega arith))
  | inr other ↦ rw other (λ e. cc)
]

-- A write of the records `xs` followed by `ys`, where `xs` alone is accepted, is the write of `xs`
-- and then the write of `ys` on its result: a later record of a tag wins, and what `ys` does not
-- name is kept.
pub settings_tlv_decode-append :
    (xs ys : List ℕ) (s s' : TerminalSettings)
    → settings_tlv_decode (settings_schema_version ∷ xs) s ≡ accepted s'
    → settings_tlv_decode (settings_schema_version ∷ (xs ++ ys)) s
      ≡ settings_tlv_decode (settings_schema_version ∷ ys) s'
unfolding settings_tlv_decode
settings_tlv_decode-append xs ys s s' h =
    decode_records-append (suc (length xs)) (suc (length (xs ++ ys))) xs ys s s' (omega arith) h
    ∙ decode_records_fuel (suc (length (xs ++ ys))) (suc (length ys)) ys s'
        (omega (arith, length-append xs ys)) (omega arith)

apply_record_unknown :
    (tag n : ℕ) (v : List ℕ) (s : TerminalSettings)
    → tag ≢ Tag.accent
    → byte_tag_max tag ≡ 0
    → apply_record tag n v s ≡ some s
unfolding apply_record
apply_record_unknown tag n v s ne h = elim (Bool-cases (tag == 1)) [
  | inl same ↦ absurd (ne ((==_iff tag 1).0 same))
  | inr other ↦ rw (other, h)
]

-- A record that fits, with a tag the terminal does not know, changes nothing: what follows it is
-- decoded as if it were not there.
pub settings_tlv_decode_unknown :
    (tag : ℕ) (v rest : List ℕ) (s : TerminalSettings)
    → tag ≢ Tag.accent
    → byte_tag_max tag ≡ 0
    → settings_tlv_decode (settings_schema_version ∷ tag ∷ length v ∷ (v ++ rest)) s
      ≡ settings_tlv_decode (settings_schema_version ∷ rest) s
unfolding settings_tlv_decode
settings_tlv_decode_unknown tag v rest s ne h =
    decode_records_step (suc (suc (length (v ++ rest)))) tag (length v) (v ++ rest) s s
      (omega (arith, length-append v rest)) (apply_record_unknown tag (length v) (v ++ rest) s ne h)
    ∙ (rw (drop-append (length v) v rest refl) (
        decode_records_fuel (suc (suc (length (v ++ rest)))) (suc (length rest)) rest s
          (omega (arith, length-append v rest)) (omega arith)))
