-- ===== src/Settings/Tests.antt =====
-- The settings on concrete buffers.
use open_apex.Base.{ℕ, ◌≡◌, ◌≢◌, refl, arith, some, List, [], ◌∷◌, length}
use open_apex.Settings.{
  TerminalSettings, settings_defaults, accepted, rejected, out_of_fuel, settings_tlv_decode,
  settings_tlv_encode, tlv_bytes, settings_tlv_max_len,
}
use open_apex.Settings.Records.{settings_tlv_decode-ne-out_of_fuel, settings_tlv_decode-append}
use open_apex.Settings.Valid.{IsValid, settings_defaults-IsValid, settings_tlv_decode-IsValid}
use open_apex.Settings.Roundtrip.{settings_tlv_decode-encode}

abbrev rider : TerminalSettings
rider = record settings_defaults { accent_rgb = 0x12_34_56; avatar = 3; units = 1 }

rider-IsValid : IsValid rider
rider-IsValid = ground arith

-- accent 0x123456, avatar 3, units 1.
abbrev rider_write : List ℕ
rider_write = 1 ∷ 1 ∷ 3 ∷ 0x12 ∷ 0x34 ∷ 0x56 ∷ 2 ∷ 1 ∷ 3 ∷ 5 ∷ 1 ∷ 1 ∷ []

rider_decodes : settings_tlv_decode rider_write settings_defaults ≡ accepted rider
unfolding settings_tlv_decode
rider_decodes = refl

-- Presets run to 9; the next one is refused.
gap_rejected : settings_tlv_decode (1 ∷ 2 ∷ 1 ∷ 10 ∷ []) settings_defaults ≡ rejected
unfolding settings_tlv_decode
gap_rejected = refl

settings_tlv_decode-ne-out_of_fuel_example :
    settings_tlv_decode rider_write settings_defaults ≢ out_of_fuel
settings_tlv_decode-ne-out_of_fuel_example =
    settings_tlv_decode-ne-out_of_fuel rider_write settings_defaults

avatar_decodes :
    settings_tlv_decode (1 ∷ 2 ∷ 1 ∷ 3 ∷ []) settings_defaults
    ≡ accepted (record settings_defaults { avatar = 3 })
unfolding settings_tlv_decode
avatar_decodes = refl

settings_tlv_decode-append_example :
    settings_tlv_decode (1 ∷ 2 ∷ 1 ∷ 3 ∷ 2 ∷ 1 ∷ 4 ∷ []) settings_defaults
    ≡ settings_tlv_decode (1 ∷ 2 ∷ 1 ∷ 4 ∷ []) (record settings_defaults { avatar = 3 })
settings_tlv_decode-append_example =
    settings_tlv_decode-append (2 ∷ 1 ∷ 3 ∷ []) (2 ∷ 1 ∷ 4 ∷ []) settings_defaults
      (record settings_defaults { avatar = 3 }) avatar_decodes

settings_tlv_decode-IsValid_example : IsValid rider
settings_tlv_decode-IsValid_example =
    settings_tlv_decode-IsValid rider_write settings_defaults rider (omega arith)
      settings_defaults-IsValid rider_decodes

settings_tlv_decode-encode_example :
    (settings_tlv_encode rider 64 ≡ some (tlv_bytes rider))
    × (length (tlv_bytes rider) ≡ settings_tlv_max_len)
    × (settings_tlv_decode (tlv_bytes rider) settings_defaults ≡ accepted rider)
unfolding tlv_bytes
settings_tlv_decode-encode_example =
    settings_tlv_decode-encode rider settings_defaults 64 rider-IsValid (omega arith)
