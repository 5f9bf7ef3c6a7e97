-- ===== src/Ancs/Core.antt =====
-- firmware/main/ancs_core.h and ancs_core.c, the session: which notifications the phone has, the one
-- request in flight and the reassembly of its response. What the code tells its callbacks is a list
-- of outputs beside the new state; the callbacks do not call back into the session.
pub mod Reassembly
pub mod Pending
pub mod Reached
pub mod Stranded
pub mod Refused
use open_apex.Base.{
  ℕ, zero, suc, ◌+◌, Bool, true, false, not, ◌||◌, ◌&&◌, ltb, ◌==◌, if◌then◌else◌, Option, none,
  some, List, [], ◌∷◌, ◌++◌, length, set, get_or, drop, replicate, byte_at, u32,
}
use open_apex.Ancs.{
  ancs_notification_source_len, ancs_event_added, ancs_event_modified, ancs_event_removed,
  ancs_category_other, ancs_max_tracked, ancs_ds_buf_len, ancs_cp_buf_len, Notification,
  blank_notification, rd_u32, ancs_encode_get_attributes, ancs_encode_perform_action, ParseResult,
  parse_incomplete, parse_complete, parse_malformed, parse_attributes,
}

pub data RawKind : Type 0 where
  raw_notification_source : RawKind
  raw_data_source : RawKind
  raw_control_point : RawKind

pub record Tracked : Type 0 where
  pub used : Bool
  pub uid : ℕ
  pub category : ℕ
  pub event_flags : ℕ
  pub attrs_requested : Bool

abbrev pub blank_tracked : Tracked
blank_tracked = record {
  used = false;
  uid = 0;
  category = 0;
  event_flags = 0;
  attrs_requested = false;
}

-- A callback is the flag that it is not NULL, and `ds_buf` the first `ds_len` bytes of the buffer.
pub record AncsCore : Type 0 where
  pub write_cp : Bool
  pub on_notification : Bool
  pub on_raw : Bool
  pub tracked : List Tracked
  pub ds_buf : List ℕ
  pub ds_overflow : Bool
  pub request_active : Bool
  pub request_uid : ℕ
  pub stat_events : ℕ
  pub stat_attrs_complete : ℕ
  pub stat_ds_overflow : ℕ
  pub stat_ds_malformed : ℕ

-- A call of `on_raw`, of `write_cp` and of `on_notification`.
pub data Output : Type 0 where
  to_raw : RawKind → List ℕ → Output
  to_control_point : List ℕ → Output
  to_notification : Notification → Bool → Output

unfoldable pub ancs_core_init : Bool → Bool → AncsCore
ancs_core_init write_cp on_notification = record {
  write_cp = write_cp;
  on_notification = on_notification;
  on_raw = false;
  tracked = replicate ancs_max_tracked blank_tracked;
  ds_buf = [];
  ds_overflow = false;
  request_active = false;
  request_uid = 0;
  stat_events = 0;
  stat_attrs_complete = 0;
  stat_ds_overflow = 0;
  stat_ds_malformed = 0;
}

unfoldable pub ancs_core_set_raw_tap : AncsCore → Bool → AncsCore
ancs_core_set_raw_tap c fn = record c { on_raw = fn }

unfoldable pub ancs_core_reset : AncsCore → AncsCore
ancs_core_reset c = record c {
  tracked = replicate ancs_max_tracked blank_tracked;
  ds_buf = [];
  ds_overflow = false;
  request_active = false;
  request_uid = 0;
}

abbrev pub raw_tap : AncsCore → RawKind → List ℕ → List Output
raw_tap c kind bytes = if c.on_raw then to_raw kind bytes ∷ [] else []

-- The loop of `find_tracked`; the pointer is an index, `none` its NULL.
unfoldable pub find_tracked_from : ℕ → List Tracked → ℕ → Option ℕ
find_tracked_from i [] uid = none
find_tracked_from i (t ∷ ts) uid =
    let rest = find_tracked_from (i + 1) ts uid in if t.used && t.uid == uid then some i else rest

unfoldable pub find_tracked : List Tracked → ℕ → Option ℕ
unfolding find_tracked_from
find_tracked ts uid = find_tracked_from 0 ts uid

abbrev pub tracked_at : List Tracked → ℕ → Tracked
tracked_at ts i = get_or ts i blank_tracked

-- The first slot that is not used; slot 0 when the table is full.
unfoldable pub free_from : ℕ → List Tracked → ℕ
free_from i [] = 0
free_from i (t ∷ ts) = let rest = free_from (i + 1) ts in if not t.used then i else rest

unfoldable pub claim_tracked : List Tracked → ℕ → List Tracked × ℕ
unfolding find_tracked free_from
claim_tracked ts uid = elim (find_tracked ts uid) [
  | some i ↦ (ts, i)
  | none ↦ let i = free_from 0 ts in (set ts i (record blank_tracked { used = true; uid = uid }), i)
]

-- `none` is -1.
pub ancs_core_category_of : AncsCore → ℕ → Option ℕ
unfolding find_tracked
ancs_core_category_of c uid = elim (find_tracked c.tracked uid) [
  | some i ↦ some (tracked_at c.tracked i).category
  | none ↦ none
]

unfoldable pub request_attributes : AncsCore → ℕ → AncsCore × List Output
unfolding ancs_encode_get_attributes
request_attributes c uid =
    let buf = ancs_encode_get_attributes ancs_cp_buf_len uid in
    if not c.write_cp then (c, []) else if length buf == 0 then (c, []) else (
      record c { ds_buf = []; ds_overflow = false; request_active = true; request_uid = uid },
      raw_tap c raw_control_point buf ++ (to_control_point buf ∷ []),
    )

-- What a notification source event does after the tap and the length.
unfoldable pub on_removed : AncsCore → ℕ → ℕ → ℕ → AncsCore × List Output
unfolding find_tracked
on_removed c uid category event_flags =
    let found = find_tracked c.tracked uid in
    let cat : ℕ = elim found [ some i ↦ (tracked_at c.tracked i).category | none ↦ category ] in
    let ts : List Tracked = elim found [
      | some i ↦ set c.tracked i (record (tracked_at c.tracked i) { used = false })
      | none ↦ c.tracked
    ] in
    let flying = c.request_active && c.request_uid == uid in
    (
      record c {
        tracked = ts;
        request_active = if flying then false else c.request_active;
        ds_buf = if flying then [] else c.ds_buf;
      },
      if c.on_notification
          then to_notification
              (record blank_notification { uid = uid; category = cat; event_flags = event_flags })
              true
            ∷ []
          else [],
    )

-- An added or modified notification. `asks` is `t->attrs_requested` as the code leaves it.
unfoldable pub on_announced : AncsCore → ℕ → ℕ → ℕ → AncsCore × List Output
unfolding claim_tracked request_attributes
on_announced c uid category event_flags =
    let (ts, i) = claim_tracked c.tracked uid in
    let asks = not c.request_active || c.request_uid == uid in
    let d : AncsCore = record c {
      tracked = set ts i (record (tracked_at ts i) {
        category = category;
        event_flags = event_flags;
        attrs_requested = asks;
      });
    } in
    if not c.request_active then request_attributes d uid else (d, [])

-- The `bool` is the result.
unfoldable pub ancs_core_on_notification_source : AncsCore → List ℕ → AncsCore × Bool × List Output
unfolding on_removed on_announced rd_u32
ancs_core_on_notification_source c bytes =
    let tap = raw_tap c raw_notification_source bytes in
    let d : AncsCore = record c { stat_events = u32 (c.stat_events + 1) } in
    let event_id = byte_at bytes 0 in
    let event_flags = byte_at bytes 1 in
    let category = byte_at bytes 2 in
    let uid = rd_u32 (drop 4 bytes) in
    let gone = on_removed d uid category event_flags in
    let here = on_announced d uid category event_flags in
    if ltb (length bytes) ancs_notification_source_len
    then (c, false, tap)
    else if event_id == ancs_event_removed
    then (gone.0, true, tap ++ gone.1)
    else if not (event_id == ancs_event_added) && not (event_id == ancs_event_modified)
    then (d, false, tap)
    else (here.0, true, tap ++ here.1)

-- The loop of `pump_pending`: the first notification in the table that still waits.
unfoldable pub waiting_from : ℕ → List Tracked → Option ℕ
waiting_from i [] = none
waiting_from i (t ∷ ts) =
    let rest = waiting_from (i + 1) ts in if t.used && not t.attrs_requested then some i else rest

unfoldable pub pump_pending : AncsCore → AncsCore × List Output
unfolding waiting_from request_attributes
pump_pending c =
    let next : AncsCore × List Output = elim (waiting_from 0 c.tracked) [
      | none ↦ (c, [])
      | some i ↦
          let t = tracked_at c.tracked i in
          request_attributes
            (record c { tracked = set c.tracked i (record t { attrs_requested = true }) }) t.uid
    ] in
    if c.request_active then (c, []) else next

-- The end of a response: `fill` is the notification as the table completes it.
unfoldable pub fill : List Tracked → Notification → Notification
unfolding find_tracked
fill ts n = elim (find_tracked ts n.uid) [
  | some i ↦ record n {
    category = (tracked_at ts i).category;
    event_flags = (tracked_at ts i).event_flags;
  }
  | none ↦ record n { category = ancs_category_other; event_flags = 0 }
]

unfoldable pub complete_response : AncsCore → Notification → AncsCore × Bool × List Output
unfolding fill pump_pending
complete_response c n =
    let d : AncsCore = record c {
      stat_attrs_complete = u32 (c.stat_attrs_complete + 1);
      ds_buf = [];
      request_active = false;
    } in
    let told = if c.on_notification then to_notification (fill c.tracked n) false ∷ [] else [] in
    let next = pump_pending d in (next.0, true, told ++ next.1)

unfoldable pub overflow : AncsCore → AncsCore × Bool × List Output
unfolding pump_pending
overflow c =
    let next = pump_pending (record c {
      ds_overflow = true;
      stat_ds_overflow = u32 (c.stat_ds_overflow + 1);
      ds_buf = [];
      request_active = false;
    }) in
    (next.0, false, next.1)

unfoldable pub malformed : AncsCore → AncsCore × Bool × List Output
unfolding pump_pending
malformed c =
    let next = pump_pending (record c {
      stat_ds_malformed = u32 (c.stat_ds_malformed + 1);
      ds_buf = [];
      request_active = false;
    }) in
    (next.0, false, next.1)

-- After the tap and the first two tests.
unfoldable pub take_in : AncsCore → List ℕ → AncsCore × Bool × List Output
unfolding overflow malformed complete_response parse_attributes
take_in c bytes =
    let d : AncsCore = record c { ds_buf = c.ds_buf ++ bytes } in
    let parsed : AncsCore × Bool × List Output = elim (parse_attributes true d.ds_buf) [
      | parse_incomplete ↦ (d, true, [])
      | parse_malformed ↦ malformed d
      | parse_complete n off ↦ complete_response d n
    ] in
    if ltb ancs_ds_buf_len (length c.ds_buf + length bytes) then overflow c else parsed

unfoldable pub ancs_core_on_data_source : AncsCore → List ℕ → AncsCore × Bool × List Output
unfolding take_in
ancs_core_on_data_source c bytes =
    let tap = raw_tap c raw_data_source bytes in
    let (d, ok, outs) = take_in c bytes in
    if length bytes == 0
    then (c, true, tap)
    else if not c.request_active
    then (c, true, tap)
    else (d, ok, tap ++ outs)

pub ancs_core_perform_action : AncsCore → ℕ → ℕ → Bool × List Output
unfolding ancs_encode_perform_action
ancs_core_perform_action c uid action =
    let buf = ancs_encode_perform_action ancs_cp_buf_len uid action in
    if not c.write_cp
    then (false, [])
    else if length buf == 0
    then (false, [])
    else (true, raw_tap c raw_control_point buf ++ (to_control_point buf ∷ []))
