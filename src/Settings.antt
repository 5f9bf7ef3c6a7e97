-- ===== src/Settings.antt =====
-- firmware/main/settings.h and settings.c: the rider's settings, their TLV wire and storage
-- format, and the process-wide current settings. An enum field is its number, as in the struct.
pub mod Tag
pub mod Records
pub mod Valid
pub mod Roundtrip
mod Tests
use open_apex.Base.{
  ℕ, zero, suc, ◌+◌, ◌%◌, ◌^◌, Bool, true, false, not, ◌&&◌, ◌||◌, ltb, leb, ◌==◌, if◌then◌else◌,
  Option, none, some, List, [], ◌∷◌, ◌++◌, length, drop, get_or, byte_at, u8, u32, ◌<<<◌, ◌>>>◌,
  bit_or,
}

abbrev pub settings_schema_version : ℕ
settings_schema_version = 1

abbrev pub avatar_preset_max : ℕ
avatar_preset_max = 9

abbrev pub avatar_custom : ℕ
avatar_custom = 0xFF

pub record TerminalSettings : Type 0 where
  pub accent_rgb : ℕ  -- 0xRRGGBB
  pub avatar : ℕ
  pub eta_format : ℕ
  pub clock_12h : ℕ
  pub units : ℕ
  pub dial_outer : ℕ
  pub friends_on_compass : ℕ
  pub friend_marker : ℕ
  pub mesh_enabled : ℕ
  pub auto_odometer : ℕ

-- `kDefaults`.
abbrev pub settings_defaults : TerminalSettings
settings_defaults = record {
  accent_rgb = 0x00FFE8;
  avatar = 0;
  eta_format = 1;
  clock_12h = 0;
  units = 0;
  dial_outer = 0;
  friends_on_compass = 1;
  friend_marker = 0;
  mesh_enabled = 1;
  auto_odometer = 1;
}

-- `kByteTagMax`, with the indices 0 and 1 that its initialiser leaves zero. An index past the
-- table reads 0 here, which is the code's `tag >= sizeof(kByteTagMax)` test.
abbrev pub byte_tag_max : ℕ → ℕ
byte_tag_max tag = get_or (0 ∷ 0 ∷ 0xFF ∷ 1 ∷ 1 ∷ 1 ∷ 1 ∷ 1 ∷ 1 ∷ 1 ∷ 1 ∷ []) tag 0

-- The `switch` on a one-byte tag.
pub set_byte_field : ℕ → ℕ → TerminalSettings → TerminalSettings
set_byte_field tag v s =
    if tag == Tag.avatar
    then record s { avatar = v }
    else if tag == Tag.eta_format
    then record s { eta_format = v }
    else if tag == Tag.clock_12h
    then record s { clock_12h = v }
    else if tag == Tag.units
    then record s { units = v }
    else if tag == Tag.dial_outer
    then record s { dial_outer = v }
    else if tag == Tag.friends_on_compass
    then record s { friends_on_compass = v }
    else if tag == Tag.friend_marker
    then record s { friend_marker = v }
    else if tag == Tag.mesh_enabled
    then record s { mesh_enabled = v }
    else if tag == Tag.auto_odometer
    then record s { auto_odometer = v }
    else s

-- The loop's body on one record: `v` is the buffer from the value on, `n` its length byte.
-- `none` is the code's `return false`.
pub apply_record : ℕ → ℕ → List ℕ → TerminalSettings → Option TerminalSettings
unfolding set_byte_field
apply_record tag n v s =
    if tag == Tag.accent
    then if n == 3
      then some (record s {
        accent_rgb = bit_or (bit_or (byte_at v 0 <<< 16) (byte_at v 1 <<< 8)) (byte_at v 2);
      })
      else none
    else if byte_tag_max tag == 0
    then some s
    else if not (n == 1) || ltb (byte_tag_max tag) (byte_at v 0)
    then none
    else if tag == Tag.avatar
        && ltb avatar_preset_max (byte_at v 0)
        && not (byte_at v 0 == avatar_custom)
    then none
    else some (set_byte_field tag (byte_at v 0) s)

-- `accepted s` is `true` with `*inout = s`; `rejected` is `false`, with `*inout` untouched.
pub data Outcome : Type 0 where
  accepted : TerminalSettings → Outcome
  rejected out_of_fuel : Outcome

-- The `while` loop over the rest of the buffer.
pub decode_records : ℕ → List ℕ → TerminalSettings → Outcome
unfolding apply_record
decode_records zero buf s = out_of_fuel
decode_records (suc fuel) [] s = accepted s
decode_records (suc fuel) (tag ∷ []) s = rejected
decode_records (suc fuel) (tag ∷ n ∷ v) s =
    if ltb (length v) n then rejected else elim (apply_record tag n v s) [
      | none ↦ rejected
      | some s' ↦ decode_records fuel (drop n v) s'
    ]

-- Each round takes two bytes at least, so the length is enough fuel.
pub settings_tlv_decode : List ℕ → TerminalSettings → Outcome
unfolding decode_records
settings_tlv_decode [] s = rejected
settings_tlv_decode (schema ∷ buf) s =
    if schema == settings_schema_version then decode_records (suc (length buf)) buf s else rejected

abbrev pub settings_tlv_max_len : ℕ
settings_tlv_max_len = 1 + (2 + 3) + 27

-- A record of one byte.
abbrev pub byte_record : ℕ → ℕ → List ℕ
byte_record tag v = tag ∷ 1 ∷ v ∷ []

-- What the encoder writes into `buf`.
pub tlv_bytes : TerminalSettings → List ℕ
tlv_bytes s =
    settings_schema_version
    ∷ Tag.accent
    ∷ 3
    ∷ u8 (s.accent_rgb >>> 16)
    ∷ u8 (s.accent_rgb >>> 8)
    ∷ u8 s.accent_rgb
    ∷ (byte_record Tag.avatar s.avatar
        ++ (byte_record Tag.eta_format s.eta_format
            ++ (byte_record Tag.clock_12h s.clock_12h
                ++ (byte_record Tag.units s.units
                    ++ (byte_record Tag.dial_outer s.dial_outer
                        ++ (byte_record Tag.friends_on_compass s.friends_on_compass
                            ++ (byte_record Tag.friend_marker s.friend_marker
                                ++ (byte_record Tag.mesh_enabled s.mesh_enabled
                                    ++ byte_record Tag.auto_odometer s.auto_odometer))))))))

-- `none` is the code's 0.
pub settings_tlv_encode : TerminalSettings → ℕ → Option (List ℕ)
unfolding tlv_bytes
settings_tlv_encode s room = if ltb room settings_tlv_max_len then none else some (tlv_bytes s)

-- The statics `s_current`, `s_current_init` and `s_generation`.
pub record Current : Type 0 where
  pub current : TerminalSettings
  pub current_init : Bool
  pub generation : ℕ

-- `settings_get` also seeds the statics on its first call.
pub settings_get : Current → Current × TerminalSettings
settings_get c =
    if c.current_init
    then (c, c.current)
    else (record c { current = settings_defaults; current_init = true }, settings_defaults)

pub settings_set : Current → TerminalSettings → Current
settings_set c s = record c {
  current = s;
  current_init = true;
  generation = u32 (c.generation + 1);
}
