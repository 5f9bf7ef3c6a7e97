-- ===== src/Settings/Roundtrip.antt =====
-- What `settings_tlv_encode` writes, `settings_tlv_decode` reads back.
use open_apex.Base.{ℕ, ◌^◌, ◌/◌, ◌≤◌, ◌≡◌, refl, arith, some, length, u8, or_rgb}
use open_apex.Settings.{
  TerminalSettings, set_byte_field, apply_record, accepted, decode_records, settings_tlv_decode,
  settings_tlv_encode, tlv_bytes, settings_tlv_max_len,
}
use open_apex.Settings.Valid.{IsValid}

-- Settings in range, encoded into a buffer of the maximal length or more, are decoded to themselves
-- whatever settings the decoder starts from, and the encoding has exactly the maximal length.
pub settings_tlv_decode-encode :
    (s t : TerminalSettings) (room : ℕ)
    → IsValid s
    → settings_tlv_max_len ≤ room
    → (settings_tlv_encode s room ≡ some (tlv_bytes s))
      × (length (tlv_bytes s) ≡ settings_tlv_max_len)
      × (settings_tlv_decode (tlv_bytes s) t ≡ accepted s)
unfolding settings_tlv_encode settings_tlv_decode decode_records apply_record set_byte_field
settings_tlv_decode-encode s t room valid fits = (
  ground arith,
  refl,
  ground (arith, or_rgb (u8 (s.accent_rgb / 2 ^ 16)) (u8 (s.accent_rgb / 2 ^ 8)) (u8 s.accent_rgb)),
)
