-- ===== src/Ancs.antt =====
-- firmware/main/ancs_core.h and ancs_core.c, the wire half: requests to the phone and the parser of
-- its responses. A string is the list of the bytes that are copied into its buffer, and a buffer
-- with its length is a list.
pub mod Parse
pub mod Core
pub mod Navigation
mod Tests
use open_apex.Base.{
  ℕ, zero, suc, ◌+◌, ◌-◌, Bool, true, false, not, ◌||◌, ◌&&◌, ltb, ◌==◌, if◌then◌else◌, List, [],
  ◌∷◌, ◌++◌, length, take, drop, byte_at, u8, ◌<<<◌, ◌>>>◌, bit_or, bit_and,
}

abbrev pub ancs_notification_source_len : ℕ
ancs_notification_source_len = 8

abbrev pub ancs_event_added : ℕ
ancs_event_added = 0

abbrev pub ancs_event_modified : ℕ
ancs_event_modified = 1

abbrev pub ancs_event_removed : ℕ
ancs_event_removed = 2

abbrev pub ancs_category_other : ℕ
ancs_category_other = 0

abbrev pub ancs_cmd_get_notification_attributes : ℕ
ancs_cmd_get_notification_attributes = 0

abbrev pub ancs_cmd_perform_notification_action : ℕ
ancs_cmd_perform_notification_action = 2

abbrev pub ancs_attr_app_identifier : ℕ
ancs_attr_app_identifier = 0

abbrev pub ancs_attr_title : ℕ
ancs_attr_title = 1

abbrev pub ancs_attr_subtitle : ℕ
ancs_attr_subtitle = 2

abbrev pub ancs_attr_message : ℕ
ancs_attr_message = 3

abbrev pub ancs_attr_date : ℕ
ancs_attr_date = 5

abbrev pub ancs_app_id_len : ℕ
ancs_app_id_len = 48

abbrev pub ancs_title_len : ℕ
ancs_title_len = 64

abbrev pub ancs_subtitle_len : ℕ
ancs_subtitle_len = 64

abbrev pub ancs_message_len : ℕ
ancs_message_len = 128

abbrev pub ancs_date_len : ℕ
ancs_date_len = 16

abbrev pub ancs_max_tracked : ℕ
ancs_max_tracked = 16

abbrev pub ancs_ds_buf_len : ℕ
ancs_ds_buf_len = 448

abbrev pub ancs_cp_buf_len : ℕ
ancs_cp_buf_len = 32

abbrev pub ancs_requested_attr_count : ℕ
ancs_requested_attr_count = 5

pub record Notification : Type 0 where
  pub uid : ℕ
  pub category : ℕ
  pub event_flags : ℕ
  pub app_id : List ℕ
  pub title : List ℕ
  pub subtitle : List ℕ
  pub message : List ℕ
  pub date : List ℕ

abbrev pub blank_notification : Notification
blank_notification = record {
  uid = 0;
  category = 0;
  event_flags = 0;
  app_id = [];
  title = [];
  subtitle = [];
  message = [];
  date = [];
}

unfoldable pub rd_u16 : List ℕ → ℕ
rd_u16 p = bit_or (byte_at p 0) (byte_at p 1 <<< 8)

unfoldable pub rd_u32 : List ℕ → ℕ
rd_u32 p =
    bit_or (bit_or (bit_or (byte_at p 0) (byte_at p 1 <<< 8)) (byte_at p 2 <<< 16))
      (byte_at p 3 <<< 24)

abbrev pub wr_u16 : ℕ → List ℕ
wr_u16 v = bit_and v 0xFF ∷ u8 (v >>> 8) ∷ []

abbrev pub wr_u32 : ℕ → List ℕ
wr_u32 v =
    bit_and v 0xFF ∷ bit_and (v >>> 8) 0xFF ∷ bit_and (v >>> 16) 0xFF ∷ bit_and (v >>> 24) 0xFF ∷ []

-- No buffer here has a capacity of 0.
abbrev pub copy_wire_str : ℕ → List ℕ → List ℕ
copy_wire_str cap src = take (cap - 1) src

-- What is written into a buffer of `cap` bytes; the empty list is a result of 0.
unfoldable pub ancs_encode_get_attributes : ℕ → ℕ → List ℕ
ancs_encode_get_attributes cap uid =
    if ltb cap (1 + 4 + 1 + (1 + 2) + (1 + 2) + (1 + 2) + 1)
    then []
    else ancs_cmd_get_notification_attributes
      ∷ (wr_u32 uid
          ++ (ancs_attr_app_identifier ∷ ancs_attr_title ∷ wr_u16 (ancs_title_len - 1))
          ++ (ancs_attr_subtitle ∷ wr_u16 (ancs_subtitle_len - 1))
          ++ (ancs_attr_message ∷ wr_u16 (ancs_message_len - 1))
          ++ (ancs_attr_date ∷ []))

unfoldable pub ancs_encode_perform_action : ℕ → ℕ → ℕ → List ℕ
ancs_encode_perform_action cap uid action =
    if ltb cap 6
    then []
    else ancs_cmd_perform_notification_action ∷ (wr_u32 uid ++ (u8 action ∷ []))

-- The second argument of `parse_complete` is `*consumed`.
pub data ParseResult : Type 0 where
  parse_incomplete : ParseResult
  parse_complete : Notification → ℕ → ParseResult
  parse_malformed : ParseResult

-- The `switch`; `asked` is false in its default case.
abbrev pub asked : ℕ → Bool
asked id =
    id == ancs_attr_app_identifier
    || id == ancs_attr_title
    || id == ancs_attr_subtitle
    || id == ancs_attr_message
    || id == ancs_attr_date

unfoldable pub store : Notification → ℕ → List ℕ → Notification
store out id val =
    if id == ancs_attr_app_identifier
    then record out { app_id = copy_wire_str ancs_app_id_len val }
    else if id == ancs_attr_title
    then record out { title = copy_wire_str ancs_title_len val }
    else if id == ancs_attr_subtitle
    then record out { subtitle = copy_wire_str ancs_subtitle_len val }
    else if id == ancs_attr_message
    then record out { message = copy_wire_str ancs_message_len val }
    else if id == ancs_attr_date
    then record out { date = copy_wire_str ancs_date_len val }
    else out

-- The loop: `rest` is what stands at `off`, and `has_out` says that `out` is not NULL. Each round
-- takes three bytes or more, so the fuel that `parse_attributes` gives does not run out.
unfoldable pub parse_loop : ℕ → Bool → ℕ → ℕ → Notification → List ℕ → ParseResult
unfolding rd_u16 store
parse_loop zero has_out seen off out rest =
    if not (ltb seen ancs_requested_attr_count) then parse_complete out off else parse_incomplete
parse_loop (suc fuel) has_out seen off out rest =
    let id = byte_at rest 0 in
    let alen = rd_u16 (drop 1 rest) in
    let val = take alen (drop 3 rest) in
    let next =
      parse_loop fuel has_out (if not has_out || asked id then suc seen else seen)
        (off + (3 + alen)) (if has_out then store out id val else out) (drop (3 + alen) rest) in
    if not (ltb seen ancs_requested_attr_count)
    then parse_complete out off
    else if ltb (length rest) 3
    then parse_incomplete
    else if ltb ancs_ds_buf_len (alen + 3)
    then parse_malformed
    else if ltb (length rest) (3 + alen)
    then parse_incomplete
    else next

unfoldable pub parse_attributes : Bool → List ℕ → ParseResult
unfolding parse_loop rd_u32
parse_attributes has_out bytes =
    if ltb (length bytes) 5
    then parse_incomplete
    else if not (byte_at bytes 0 == ancs_cmd_get_notification_attributes)
    then parse_malformed
    else parse_loop (suc (length bytes)) has_out 0 5
        (record blank_notification { uid = rd_u32 (drop 1 bytes) }) (drop 5 bytes)

pub ancs_parse_attributes : Bool → List ℕ → Bool
unfolding parse_attributes
ancs_parse_attributes has_out bytes = elim (parse_attributes has_out bytes) [
  | parse_complete out off ↦ true
  | parse_incomplete ↦ false
  | parse_malformed ↦ false
]
