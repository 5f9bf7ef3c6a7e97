-- ===== src/Ancs/Parse.antt =====
-- firmware/main/ancs_core.c: the responses of Apple's notification service, as bytes and as what they
-- tell.
pub mod Fuel
pub mod Rounds
pub mod Whole
use open_apex.Base.{
  length-take_le, ℕ, zero, suc, ◌+◌, ◌-◌, ◌*◌, ◌/◌, ◌^◌, ◌≤◌, ◌<◌, ◌≡◌, refl, ap, ◌∙◌, arith, Bool,
  true, false, Bool-cases, inl, inr, ltb, ltb→lt, lt→ltb, ltb-false, ◌⊎◌, if◌then◌else◌, List, [],
  ◌∷◌, ◌++◌, length, length-append, take, drop, byte_at, u8, bit_or_low, or_u16, or_u32,
  take-append, drop-append,
}
use open_apex.Ancs.{
  ancs_cmd_get_notification_attributes, ancs_ds_buf_len, ancs_requested_attr_count, Notification,
  blank_notification, rd_u16, rd_u32, asked, store, parse_incomplete, parse_complete, parse_loop,
  parse_attributes,
}

-- A response as Apple's service writes it: the command, the identifier, and for each attribute its
-- own identifier, the length of its value and the value.
pub record Attribute : Type 0 where
  pub id : ℕ
  pub value : List ℕ

abbrev pub attribute_bytes : Attribute → List ℕ → List ℕ
attribute_bytes a rest =
    a.id ∷ u8 (length a.value) ∷ u8 (length a.value / 2 ^ 8) ∷ (a.value ++ rest)

abbrev pub attributes_bytes : List Attribute → List ℕ
attributes_bytes [] = []
attributes_bytes (a ∷ attrs) = attribute_bytes a (attributes_bytes attrs)

abbrev pub response : ℕ → List Attribute → List ℕ
response uid attrs =
    ancs_cmd_get_notification_attributes
    ∷ u8 uid
    ∷ u8 (uid / 2 ^ 8)
    ∷ u8 (uid / 2 ^ 16)
    ∷ u8 (uid / 2 ^ 24)
    ∷ attributes_bytes attrs

-- It ends with the last of the attributes that were asked for, others may stand between, and each
-- fits the buffer.
abbrev pub Answers : ℕ → List Attribute → Type 0
Answers zero [] = Unit
Answers zero (a ∷ attrs) = ⊥
Answers (suc n) [] = ⊥
Answers (suc n) (a ∷ attrs) =
    (length a.value + 3 ≤ ancs_ds_buf_len) × Answers (if asked a.id then n else suc n) attrs

-- What it tells.
abbrev pub told : Notification → List Attribute → Notification
told n [] = n
told n (a ∷ attrs) = told (store n a.id a.value) attrs
