-- ===== src/Ancs/Navigation/Lines.antt =====
-- firmware/main/ancs_nav.c with packet_merge.c: an iPhone's navigation beside the telemetry of its
-- companion app.
use mathlib.Core.Option as O
use open_apex.Base.{
  ℕ, ◌≡◌, refl, sym, ap, ◌∙◌, true, false, Bool-cases, inl, inr, ◌&&◌, ◌==◌, none, some, List,
  length,
}
use open_apex.Packet.{raw_title_str_len, raw_group_nav, raw_group_telemetry, RawNotif}
use open_apex.Packet.Merge.{packet_merge_telemetry_hold_ms, claims, packet_merge_accept}
use open_apex.Packet.Merge.Halves.{
  nav_half, telemetry_half, telemetry_unknown, speaks, keep, reading,
}
use open_apex.Packet.Merge.History.{after, telemetry_register, packet_merge_accept-registers}
use open_apex.Ancs.{Notification}
use open_apex.Ancs.Navigation.{lines_of, bare_packet, copy_bounded, ancs_nav_to_raw}

some_inj : (a b : RawNotif) → some a ≡ some b → a ≡ b
some_inj a b h = cc

not_none : (a : RawNotif) → none ≡ some a → ⊥
not_none a h = cc

abbrev navigation : Notification → ℕ → RawNotif
navigation n sequence = record (bare_packet sequence) {
  title_str = copy_bounded raw_title_str_len n.title;
  distance_str = (lines_of n.subtitle n.message).0;
  eta_str = (lines_of n.subtitle n.message).1;
}

ancs_nav_to_raw-navigation :
    (n : Notification) (sequence : ℕ) (raw : RawNotif)
    → ancs_nav_to_raw n sequence ≡ some raw
    → raw ≡ navigation n sequence
unfolding ancs_nav_to_raw
ancs_nav_to_raw-navigation n sequence raw h =
    elim (Bool-cases (length n.title == 0 && (length n.subtitle == 0 && length n.message == 0))) [
      | inl empty ↦ absurd (not_none raw (sym (rw (empty, ancs_nav_to_raw) refl) ∙ h))
      | inr text ↦
          sym (some_inj (navigation n sequence) raw (sym (rw (text, ancs_nav_to_raw) refl) ∙ h))
    ]

ancs_nav_to_raw-claims :
    (n : Notification) (sequence : ℕ) (raw : RawNotif)
    → ancs_nav_to_raw n sequence ≡ some raw
    → (speaks raw ≡ true)
      × (claims raw raw_group_nav ≡ true)
      × (claims raw raw_group_telemetry ≡ false)
ancs_nav_to_raw-claims n sequence raw h =
    let e = ancs_nav_to_raw-navigation n sequence raw h in
    (
      ap (λ (r : RawNotif). speaks r) e,
      ap (λ (r : RawNotif). claims r raw_group_nav) e,
      ap (λ (r : RawNotif). claims r raw_group_telemetry) e,
    )

-- The packet that a notification becomes, merged after any history of packets, gives the pages its
-- own navigation and the telemetry of the last packet that had any, unless that is older than the
-- hold: a notification never changes a telemetry that still holds.
pub ancs_nav_to_raw-merged :
    (e : List (RawNotif × ℕ)) (n : Notification) (sequence : ℕ) (raw : RawNotif) (now_ms : ℕ)
    → ancs_nav_to_raw n sequence ≡ some raw
    → let out = (packet_merge_accept (after e) raw now_ms).1 in
      (O.map nav_half out ≡ some (nav_half raw))
      × (O.map telemetry_half out
          ≡ some (
              reading
                (keep packet_merge_telemetry_hold_ms now_ms (telemetry_register e))
                telemetry_unknown))
ancs_nav_to_raw-merged e n sequence raw now_ms h =
    let (speaking, nav, telemetry) = ancs_nav_to_raw-claims n sequence raw h in
    let (shown_nav, shown_telemetry, signed) =
      (packet_merge_accept-registers e raw now_ms).0 speaking in
    (shown_nav ∙ rw (speaking, nav) refl, shown_telemetry ∙ rw (speaking, telemetry) refl)
