-- ===== src/Ancs/Core/Reached.antt =====
-- firmware/main/ancs_core.c: the states that a connection can reach.
use open_apex.Base.{
  ℕ, zero, suc, ◌+◌, ◌≤◌, ◌≡◌, refl, arith, Bool, true, false, not, ◌&&◌, Bool-cases, inl, inr, ◌⊎◌,
  ltb, ◌==◌, if◌then◌else◌, List, [], ◌++◌, length, length-append, replicate, byte_at, drop, u32,
}
use open_apex.Ancs.{
  ancs_notification_source_len, ancs_event_added, ancs_event_modified, ancs_event_removed,
  ancs_max_tracked, ancs_ds_buf_len, Notification, ParseResult, parse_incomplete, parse_complete,
  parse_malformed, parse_attributes, rd_u32,
}
use open_apex.Ancs.Core.{
  blank_tracked, AncsCore, Output, ancs_core_init, ancs_core_set_raw_tap, ancs_core_reset,
  on_removed, raw_tap, raw_notification_source, raw_data_source, on_announced,
  ancs_core_on_notification_source, complete_response, overflow, malformed, take_in,
  ancs_core_on_data_source,
}
use open_apex.Ancs.Core.Pending.{
  Idle, Served, pump_pending-Served, on_announced-Served, on_removed-Served,
}

-- An event that withdraws the notification whose attributes are being fetched.
abbrev pub withdraws : AncsCore → List ℕ → Bool
withdraws c bytes =
    let flying = c.request_active && c.request_uid == rd_u32 (drop 4 bytes) in
    byte_at bytes 0 == ancs_event_removed && flying

stat_events-Served : (c : AncsCore) (n : ℕ) → Served c → Served (record c { stat_events = n })
stat_events-Served c n s = record {
  linked = s.linked;
  size = s.size;
  bound = s.bound;
  quiet = s.quiet;
}

not_flying : (a b : Bool) → a ≡ true → (a && b) ≡ false → b ≡ false
not_flying true b h k = k
not_flying false b h k = absurd (ground arith)

-- The four ends of an event.
which :
    (short removed other : Bool) (x y z w : AncsCore × Bool × List Output)
    → Served x.0
    → (removed ≡ true → Served y.0)
    → Served z.0
    → Served w.0
    → Served (if short then x else if removed then y else if other then z else w).0
which true removed other x y z w h k l m = h
which false true other x y z w h k l m = k refl
which false false true x y z w h k l m = l
which false false false x y z w h k l m = m

on_notification_source-Served :
    (c : AncsCore) (bytes : List ℕ)
    → withdraws c bytes ≡ false
    → Served c
    → Served (ancs_core_on_notification_source c bytes).0
unfolding ancs_core_on_notification_source
on_notification_source-Served c bytes h s =
    let d : AncsCore = record c { stat_events = u32 (c.stat_events + 1) } in
    let uid = rd_u32 (drop 4 bytes) in
    let tap = raw_tap c raw_notification_source bytes in
    let gone = on_removed d uid (byte_at bytes 2) (byte_at bytes 1) in
    let here = on_announced d uid (byte_at bytes 2) (byte_at bytes 1) in
    let t = stat_events-Served c (u32 (c.stat_events + 1)) s in
    which (ltb (length bytes) ancs_notification_source_len) (byte_at bytes 0 == ancs_event_removed)
      (not (byte_at bytes 0 == ancs_event_added) && not (byte_at bytes 0 == ancs_event_modified))
      (c, false, tap) (gone.0, true, tap ++ gone.1) (d, false, tap) (here.0, true, tap ++ here.1) s
      (λ removed.
        on_removed-Served d uid (byte_at bytes 2) (byte_at bytes 1)
          (not_flying (byte_at bytes 0 == ancs_event_removed)
            (c.request_active && c.request_uid == uid) removed h)
          t)
      t (on_announced-Served d uid (byte_at bytes 2) (byte_at bytes 1) t)

complete_response-Served :
    (c : AncsCore) (bytes : List ℕ) (n : Notification)
    → Served c
    → Served (complete_response (record c { ds_buf = bytes }) n).0
unfolding complete_response
complete_response-Served c bytes n s =
    pump_pending-Served
      (record c {
        stat_attrs_complete = u32 (c.stat_attrs_complete + 1);
        ds_buf = [];
        request_active = false;
      })
      s.linked s.size refl refl

overflow-Served : (c : AncsCore) → Served c → Served (overflow c).0
unfolding overflow
overflow-Served c s =
    pump_pending-Served
      (record c {
        ds_overflow = true;
        stat_ds_overflow = u32 (c.stat_ds_overflow + 1);
        ds_buf = [];
        request_active = false;
      })
      s.linked s.size refl refl

malformed-Served :
    (c : AncsCore) (bytes : List ℕ) → Served c → Served (malformed (record c { ds_buf = bytes })).0
unfolding malformed
malformed-Served c bytes s =
    pump_pending-Served
      (record c {
        stat_ds_malformed = u32 (c.stat_ds_malformed + 1);
        ds_buf = [];
        request_active = false;
      })
      s.linked s.size refl refl

ParseResult-cases :
    (r : ParseResult)
    → (r ≡ parse_incomplete)
      ⊎ (r ≡ parse_malformed)
      ⊎ ((n : Notification) × (off : ℕ) × (r ≡ parse_complete n off))
ParseResult-cases parse_incomplete = inl refl
ParseResult-cases parse_malformed = inr (inl refl)
ParseResult-cases (parse_complete n off) = inr (inr (n, off, refl))

le_of_ltb-false : (a b : ℕ) → ltb a b ≡ false → b ≤ a
le_of_ltb-false a b h = ground arith

-- While a request is in flight.
take_in-Served :
    (c : AncsCore) (bytes : List ℕ)
    → c.request_active ≡ true
    → Served c
    → Served (take_in c bytes).0
unfolding take_in
take_in-Served c bytes on s =
    elim (Bool-cases (ltb ancs_ds_buf_len (length c.ds_buf + length bytes))) [
      | inl long ↦ rw (long, take_in) (overflow-Served c s)
      | inr fits ↦ elim (ParseResult-cases (parse_attributes true (c.ds_buf ++ bytes))) [
        | inl waiting ↦
            rw (fits, waiting, take_in)
              (record {
                linked = s.linked;
                size = s.size;
                bound = omega (
                  arith,
                  length-append c.ds_buf bytes,
                  le_of_ltb-false ancs_ds_buf_len (length c.ds_buf + length bytes) fits,
                );
                quiet = inl on;
              })
        | inr (inl broken) ↦ rw (fits, broken, take_in) (malformed-Served c (c.ds_buf ++ bytes) s)
        | inr (inr (n, off, whole)) ↦
            rw (fits, whole, take_in) (complete_response-Served c (c.ds_buf ++ bytes) n s)
      ]
    ]

-- The tests before it.
admitted :
    (empty active : Bool) (x y : AncsCore × Bool × List Output)
    → Served x.0
    → (active ≡ true → Served y.0)
    → Served (if empty then x else if not active then x else y).0
admitted true active x y h k = h
admitted false true x y h k = k refl
admitted false false x y h k = h

on_data_source-Served :
    (c : AncsCore) (bytes : List ℕ) → Served c → Served (ancs_core_on_data_source c bytes).0
unfolding ancs_core_on_data_source
on_data_source-Served c bytes s =
    admitted (length bytes == 0) c.request_active (c, true, raw_tap c raw_data_source bytes)
      (
        (take_in c bytes).0,
        (take_in c bytes).1,
        raw_tap c raw_data_source bytes ++ (take_in c bytes).2,
      )
      s (λ on. take_in-Served c bytes on s)

Idle-replicate : (n : ℕ) → Idle (replicate n blank_tracked)
Idle-replicate zero = tt
Idle-replicate (suc n) = (refl, Idle-replicate n)

-- The states of a terminal that can write the control point, from `ancs_core_init` on, as long as
-- no event withdraws the very notification that is being fetched.
pub data Reached : AncsCore → Type 0 where
  started : (hears : Bool) → Reached (ancs_core_init true hears)
  tapped : (c : AncsCore) (fn : Bool) → Reached c → Reached (ancs_core_set_raw_tap c fn)
  dropped : (c : AncsCore) → Reached c → Reached (ancs_core_reset c)
  noticed :
      (c : AncsCore) (bytes : List ℕ)
      → withdraws c bytes ≡ false
      → Reached c
      → Reached (ancs_core_on_notification_source c bytes).0
  received :
      (c : AncsCore) (bytes : List ℕ) → Reached c → Reached (ancs_core_on_data_source c bytes).0

-- In every such state the table has sixteen entries and the buffer at most 448 bytes, and unless a
-- request is in flight the buffer is empty and no notification in the table waits for its
-- attributes.
pub Reached-Served : (c : AncsCore) → Reached c → Served c
unfolding ancs_core_init ancs_core_set_raw_tap ancs_core_reset
Reached-Served c (started hears) = record {
  linked = refl;
  size = refl;
  bound = omega arith;
  quiet = inr (refl, Idle-replicate ancs_max_tracked);
}
Reached-Served c (tapped d fn r) =
    let s = Reached-Served d r in
    record { linked = s.linked; size = s.size; bound = s.bound; quiet = s.quiet }
Reached-Served c (dropped d r) = record {
  linked = (Reached-Served d r).linked;
  size = refl;
  bound = omega arith;
  quiet = inr (refl, Idle-replicate ancs_max_tracked);
}
Reached-Served c (noticed d bytes h r) =
    on_notification_source-Served d bytes h (Reached-Served d r)
Reached-Served c (received d bytes r) = on_data_source-Served d bytes (Reached-Served d r)
