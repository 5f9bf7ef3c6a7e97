-- ===== src/Call.antt =====
-- firmware/main/call_packet.c: the packets that announce a call and answer it. The call page is in
-- State. A terminated `char` array is the bytes in front of its NUL.
pub mod State
pub mod Text
pub mod Rang
pub mod Answered
mod Tests
use open_apex.Base.{
  ℕ, zero, suc, ◌+◌, ◌-◌, ◌%◌, ◌/◌, ◌^◌, Bool, true, false, not, ◌||◌, ◌&&◌, ltb, leb, ◌==◌,
  if◌then◌else◌, Option, none, some, List, [], ◌∷◌, length, take, drop, byte_at, bit_and, bit_or,
  u8, ◌<<<◌, ◌>>>◌,
}

abbrev pub call_packet_version : ℕ
call_packet_version = 1

abbrev pub call_event_packet_size : ℕ
call_event_packet_size = 64

abbrev pub call_caller_wire_len : ℕ
call_caller_wire_len = 40

abbrev pub call_number_wire_len : ℕ
call_number_wire_len = 20

abbrev pub call_caller_len : ℕ
call_caller_len = call_caller_wire_len + 1

abbrev pub call_number_len : ℕ
call_number_len = call_number_wire_len + 1

-- CALL_EVENT_RING, CALL_EVENT_CLEAR and CALL_EVENT_ACTIVE.
pub data CallEventType : Type 0 where
  ring clear active : CallEventType

pub record CallEvent : Type 0 where
  pub type : CallEventType
  pub call_id : ℕ
  pub caller : List ℕ
  pub number : List ℕ

-- "AAAAAAACEEEEIIIIDNOOOOOxOUUUUYTs" "aaaaaaaceeeeiiiidnooooo/ouuuuyty"
pub latin1_fold : List ℕ
latin1_fold =
    b'A' ∷ b'A' ∷ b'A' ∷ b'A' ∷ b'A' ∷ b'A' ∷ b'A' ∷ b'C' ∷ b'E' ∷ b'E' ∷ b'E' ∷ b'E' ∷ b'I' ∷ b'I'
    ∷ b'I' ∷ b'I' ∷ b'D' ∷ b'N' ∷ b'O' ∷ b'O' ∷ b'O' ∷ b'O' ∷ b'O' ∷ b'x' ∷ b'O' ∷ b'U' ∷ b'U'
    ∷ b'U' ∷ b'U' ∷ b'Y' ∷ b'T' ∷ b's' ∷ b'a' ∷ b'a' ∷ b'a' ∷ b'a' ∷ b'a' ∷ b'a' ∷ b'a' ∷ b'c'
    ∷ b'e' ∷ b'e' ∷ b'e' ∷ b'e' ∷ b'i' ∷ b'i' ∷ b'i' ∷ b'i' ∷ b'd' ∷ b'n' ∷ b'o' ∷ b'o' ∷ b'o'
    ∷ b'o' ∷ b'o' ∷ b'/' ∷ b'o' ∷ b'u' ∷ b'u' ∷ b'u' ∷ b'u' ∷ b'y' ∷ b't' ∷ b'y' ∷ []

-- The length of a multi-byte sequence by its first byte.
seq_len : ℕ → ℕ
seq_len c = if leb 0xF0 c then 4 else if leb 0xE0 c then 3 else if leb 0xC0 c then 2 else 1

-- The character that one sequence becomes; `b` is the byte behind its first.
fold_char : ℕ → ℕ → ℕ
unfolding latin1_fold seq_len
fold_char c b =
    if ltb c 0x80
    then if leb 0x20 c && not (c == 0x7F) then c else b' '
    else if seq_len c == 2 && c == 0xC3
    then byte_at latin1_fold (bit_and b 0x3F)
    else if seq_len c == 2 && c == 0xC2 && b == 0xA0
    then b' '
    else b'?'

-- The loop: `room` is `dst_len - 1 - n`, the list what is left of `src`.
fold_from : ℕ → List ℕ → List ℕ
unfolding seq_len fold_char
fold_from zero src = []
fold_from (suc room) [] = []
fold_from (suc room) (c ∷ src) =
    let seq = if ltb c 0x80 then 1 else seq_len c in
    let rest = fold_from room (drop seq (c ∷ src)) in
    if c == 0
    then []
    else if ltb (length (c ∷ src)) seq
    then []
    else fold_char c (byte_at src 0) ∷ rest

pub call_fold_ascii : List ℕ → ℕ → ℕ → List ℕ
unfolding fold_from
call_fold_ascii src src_len dst_len = fold_from (dst_len - 1) (take src_len src)

event_type : ℕ → Option CallEventType
event_type n =
    if n == 1
    then some ring
    else if n == 2
    then some clear
    else if n == 3
    then some active
    else none

-- `out` is written only where the result is `true`.
unfoldable pub call_event_decode : List ℕ → Option CallEvent
unfolding call_fold_ascii event_type
call_event_decode d =
    if ltb (length d) call_event_packet_size || not (byte_at d 0 == call_packet_version)
    then none
    else elim (event_type (byte_at d 1)) [
      | none ↦ none
      | some type ↦ some (record {
        type = type;
        call_id = bit_or (byte_at d 2) (byte_at d 3 <<< 8);
        caller = call_fold_ascii (drop 4 d) call_caller_wire_len call_caller_len;
        number =
            call_fold_ascii (drop (4 + call_caller_wire_len) d) call_number_wire_len
              call_number_len;
      })
    ]

-- CALL_ACTION_ACCEPT is the only action.
unfoldable pub call_action_encode : ℕ → ℕ → List ℕ
call_action_encode action call_id =
    call_packet_version ∷ u8 action ∷ bit_and call_id 0xFF ∷ u8 (call_id >>> 8) ∷ []
