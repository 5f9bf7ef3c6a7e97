-- ===== src/Settings/Valid.antt =====
-- The range of every field of the settings, and that decoding stays inside it.
use mathlib.Core.Path.{subst}
use open_apex.Base.{
  ℕ, zero, suc, ◌^◌, ◌≤◌, ◌<◌, ◌≡◌, arith, ◌⊎◌, inl, inr, Bool-cases, ltb, some, Option-cases, List,
  [], ◌∷◌, length, drop, byte_at, byte_at-lt, IsBytes, All-drop, or_rgb, bit_or, ◌<<<◌, ◌==◌,
}
use open_apex.Settings.{
  TerminalSettings, settings_defaults, avatar_preset_max, avatar_custom, set_byte_field,
  apply_record, accepted, rejected, decode_records, settings_tlv_decode,
}

pub record IsValid (s : TerminalSettings) : Type 0 where
  pub accent_range : s.accent_rgb < 2 ^ 24
  pub avatar_range : (s.avatar ≤ avatar_preset_max) ⊎ (s.avatar ≡ avatar_custom)
  pub eta_format_range : s.eta_format ≤ 1
  pub clock_12h_range : s.clock_12h ≤ 1
  pub units_range : s.units ≤ 1
  pub dial_outer_range : s.dial_outer ≤ 1
  pub friends_on_compass_range : s.friends_on_compass ≤ 1
  pub friend_marker_range : s.friend_marker ≤ 1
  pub mesh_enabled_range : s.mesh_enabled ≤ 1
  pub auto_odometer_range : s.auto_odometer ≤ 1

pub settings_defaults-IsValid : IsValid settings_defaults
settings_defaults-IsValid = ground arith

accent-lt :
    (r g b : ℕ) → r < 256 → g < 256 → b < 256 → bit_or (bit_or (r <<< 16) (g <<< 8)) b < 2 ^ 24
accent-lt r g b hr hg hb = omega (arith, or_rgb r g b hg hb)

accepted-injective : {s s' : TerminalSettings} → accepted s ≡ accepted s' → s ≡ s'
accepted-injective e = cc

rejected≢accepted : {s : TerminalSettings} → rejected ≡ accepted s → ⊥
rejected≢accepted e = cc

-- One record keeps the settings in range.
apply_record-IsValid :
    (tag n : ℕ) (v : List ℕ) (s s' : TerminalSettings)
    → IsBytes v
    → IsValid s
    → apply_record tag n v s ≡ some s'
    → IsValid s'
unfolding apply_record set_byte_field
apply_record-IsValid zero n v s s' bytes valid e = ground arith
apply_record-IsValid (suc zero) n v s s' bytes valid e = ground (
  arith,
  accent-lt (byte_at v 0) (byte_at v 1) (byte_at v 2),
  byte_at-lt v 0 bytes,
  byte_at-lt v 1 bytes,
  byte_at-lt v 2 bytes,
)
apply_record-IsValid (suc (suc zero)) n v s s' bytes valid e = ground arith
apply_record-IsValid (suc (suc (suc zero))) n v s s' bytes valid e = ground arith
apply_record-IsValid (suc (suc (suc (suc zero)))) n v s s' bytes valid e = ground arith
apply_record-IsValid (suc (suc (suc (suc (suc zero))))) n v s s' bytes valid e = ground arith
apply_record-IsValid (suc (suc (suc (suc (suc (suc zero)))))) n v s s' bytes valid e = ground arith
apply_record-IsValid (suc (suc (suc (suc (suc (suc (suc zero))))))) n v s s' bytes valid e =
    ground arith
apply_record-IsValid (suc (suc (suc (suc (suc (suc (suc (suc zero)))))))) n v s s' bytes valid e =
    ground arith
apply_record-IsValid (suc (suc (suc (suc (suc (suc (suc (suc (suc zero))))))))) n v s s' bytes valid
      e =
    ground arith
apply_record-IsValid (suc (suc (suc (suc (suc (suc (suc (suc (suc (suc zero)))))))))) n v s s' bytes
      valid e =
    ground arith
apply_record-IsValid (suc (suc (suc (suc (suc (suc (suc (suc (suc (suc (suc tag))))))))))) n v s s'
      bytes valid e =
    ground arith

decode_records-IsValid :
    (fuel : ℕ) (buf : List ℕ) (s s' : TerminalSettings)
    → IsBytes buf
    → IsValid s
    → decode_records fuel buf s ≡ accepted s'
    → IsValid s'
unfolding decode_records
decode_records-IsValid zero buf s s' bytes valid e = cc
decode_records-IsValid (suc fuel) [] s s' bytes valid e = subst IsValid (accepted-injective e) valid
decode_records-IsValid (suc fuel) (tag ∷ []) s s' bytes valid e = cc
decode_records-IsValid (suc fuel) (tag ∷ n ∷ v) s s' bytes valid e =
    elim (Bool-cases (ltb (length v) n)) [
      | inl short ↦ absurd (rejected≢accepted (rw short at e))
      | inr fits ↦ elim (Option-cases (apply_record tag n v s)) [
        | inl bad ↦ absurd (rejected≢accepted (rw (fits, bad) at e))
        | inr (s'', good) ↦
            decode_records-IsValid fuel (drop n v) s'' s' (All-drop _ n v bytes.1.1)
              (apply_record-IsValid tag n v s s'' bytes.1.1 valid good) (rw (fits, good) at e)
      ]
    ]

-- Decoding a buffer of bytes onto settings in range gives settings in range, whatever the buffer
-- holds.
pub settings_tlv_decode-IsValid :
    (buf : List ℕ) (s s' : TerminalSettings)
    → IsBytes buf
    → IsValid s
    → settings_tlv_decode buf s ≡ accepted s'
    → IsValid s'
unfolding settings_tlv_decode
settings_tlv_decode-IsValid [] s s' bytes valid e = cc
settings_tlv_decode-IsValid (schema ∷ buf) s s' bytes valid e = elim (Bool-cases (schema == 1)) [
  | inl same ↦ decode_records-IsValid (suc (length buf)) buf s s' bytes.1 valid (rw same at e)
  | inr other ↦ absurd (rejected≢accepted (rw other at e))
]
