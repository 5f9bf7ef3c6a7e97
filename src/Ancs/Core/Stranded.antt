-- ===== src/Ancs/Core/Stranded.antt =====
-- firmware/main/ancs_core.c, ancs_core_on_notification_source: what a withdrawal leaves waiting.
use open_apex.Base.{
  ℕ, zero, suc, ◌+◌, ◌≤◌, ◌≡◌, ◌≢◌, refl, ap, ◌∙◌, arith, Bool, true, false, ◌&&◌, Bool-cases,
  Option-cases, inl, inr, ltb-false, ◌==◌, some, List, [], ◌∷◌, ◌++◌, length, set, get_or, byte_at,
  drop, u32,
}
use open_apex.Ancs.{ancs_notification_source_len, ancs_event_removed, rd_u32}
use open_apex.Ancs.Core.{
  raw_notification_source, Tracked, blank_tracked, AncsCore, Output, to_raw, to_control_point,
  to_notification, raw_tap, find_tracked_from, find_tracked, tracked_at, on_removed,
  ancs_core_on_notification_source,
}
use open_apex.Ancs.Core.Pending.{waits}
use open_apex.Ancs.Core.Reached.{withdraws}

-- A write to the control point among the outputs.
abbrev pub writes : List Output → Bool
writes [] = false
writes (to_raw kind bytes ∷ outs) = writes outs
writes (to_control_point bytes ∷ outs) = true
writes (to_notification n removed ∷ outs) = writes outs

get_or-set_ne {ℓ} :
    {A : Type ℓ} (xs : List A) (i j : ℕ) (v d : A) → i ≢ j → get_or (set xs i v) j d ≡ get_or xs j d
get_or-set_ne [] i j v d h = refl
get_or-set_ne (x ∷ xs) zero zero v d h = absurd (h refl)
get_or-set_ne (x ∷ xs) zero (suc j) v d h = refl
get_or-set_ne (x ∷ xs) (suc i) zero v d h = refl
get_or-set_ne (x ∷ xs) (suc i) (suc j) v d h = get_or-set_ne xs i j v d (λ e. h (ap suc e))

-- What is found has the identifier.
find_tracked_from-uid :
    (k : ℕ) (ts : List Tracked) (uid j : ℕ)
    → find_tracked_from k ts uid ≡ some j
    → (m : ℕ) × (j ≡ k + m) × ((tracked_at ts m).uid ≡ uid)
unfolding find_tracked_from
find_tracked_from-uid k [] uid j h = absurd (ground arith)
find_tracked_from-uid k (t ∷ ts) uid j h = elim (Bool-cases (t.used && t.uid == uid)) [
  | inl same ↦ (0, ground arith, ground arith)
  | inr other ↦
      let (m, e, f) = find_tracked_from-uid (k + 1) ts uid j (ground arith) in
      (suc m, omega (arith, e), f)
]

on_removed-others :
    (c : AncsCore) (uid category event_flags i : ℕ)
    → (tracked_at c.tracked i).uid ≢ uid
    → tracked_at (on_removed c uid category event_flags).0.tracked i ≡ tracked_at c.tracked i
unfolding on_removed find_tracked
on_removed-others c uid category event_flags i other =
    elim (Option-cases (find_tracked c.tracked uid)) [
      | inl e ↦ rw (e, on_removed) refl
      | inr (j, e) ↦
          let (m, at, same) = find_tracked_from-uid 0 c.tracked uid j e in
          rw (e, on_removed)
            (get_or-set_ne c.tracked j i (record (tracked_at c.tracked j) { used = false })
              blank_tracked
              (λ same_place. other (
                ap (λ (t : ℕ). (tracked_at c.tracked t).uid) (omega (arith, at, same_place))
                ∙ same)))
    ]

on_removed-drops :
    (c : AncsCore) (uid category event_flags : ℕ)
    → (c.request_active && c.request_uid == uid) ≡ true
    → (on_removed c uid category event_flags).0.request_active ≡ false
unfolding on_removed
on_removed-drops c uid category event_flags h = rw h refl

on_removed-writes :
    (c : AncsCore) (uid category event_flags : ℕ)
    → writes (on_removed c uid category event_flags).1 ≡ false
unfolding on_removed
on_removed-writes c uid category event_flags = elim (Bool-cases c.on_notification) [
  | inl on ↦ rw on refl
  | inr off ↦ rw off refl
]

writes-tap :
    (c : AncsCore) (bytes : List ℕ) (outs : List Output)
    → writes (raw_tap c raw_notification_source bytes ++ outs) ≡ writes outs
writes-tap c bytes outs = elim (Bool-cases c.on_raw) [ inl on ↦ rw on refl | inr off ↦ rw off refl ]

and_left : (a b : Bool) → (a && b) ≡ true → a ≡ true
and_left a b h = ground arith

and_right : (a b : Bool) → (a && b) ≡ true → b ≡ true
and_right a b h = ground arith

-- When the notification that is being fetched is withdrawn, the request is dropped and nothing else
-- is asked: whoever waited in the table under another identifier goes on waiting, with no request in
-- flight.
pub on_notification_source-strands :
    (c : AncsCore) (bytes : List ℕ) (i : ℕ)
    → ancs_notification_source_len ≤ length bytes
    → withdraws c bytes ≡ true
    → waits (tracked_at c.tracked i) ≡ true
    → (tracked_at c.tracked i).uid ≢ rd_u32 (drop 4 bytes)
    → let (d, ok, outs) = ancs_core_on_notification_source c bytes in
      (d.request_active ≡ false) × (waits (tracked_at d.tracked i) ≡ true) × (writes outs ≡ false)
unfolding ancs_core_on_notification_source
on_notification_source-strands c bytes i long h waiting other =
    let uid = rd_u32 (drop 4 bytes) in
    let d : AncsCore = record c { stat_events = u32 (c.stat_events + 1) } in
    let removed =
      and_left (byte_at bytes 0 == ancs_event_removed) (c.request_active && c.request_uid == uid)
        h in
    let flying =
      and_right (byte_at bytes 0 == ancs_event_removed) (c.request_active && c.request_uid == uid)
        h in
    rw (ltb-false (length bytes) ancs_notification_source_len long, removed)
      (
        on_removed-drops d uid (byte_at bytes 2) (byte_at bytes 1) flying,
        ap waits (on_removed-others d uid (byte_at bytes 2) (byte_at bytes 1) i other) ∙ waiting,
        writes-tap c bytes (on_removed d uid (byte_at bytes 2) (byte_at bytes 1)).1
            ∙ on_removed-writes d uid (byte_at bytes 2) (byte_at bytes 1),
      )
