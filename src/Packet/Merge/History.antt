-- ===== src/Packet/Merge/History.antt =====
-- firmware/main/packet_merge.c: what a history of packets leaves, and what each packet is answered.
use open_apex.Base.{
  ℕ, ◌≡◌, refl, ap, ◌∙◌, Bool, true, false, not, Bool-cases, inl, inr, if◌then◌else◌, Option, none,
  some, List, [], ◌∷◌,
}
use open_apex.Packet.{raw_group_nav, raw_group_telemetry, RawNotif}
use open_apex.Packet.Merge.{
  packet_merge_nav_hold_ms, packet_merge_telemetry_hold_ms, nav_fresh, telemetry_fresh, MergeState,
  merge_start, packet_merge_reset, claims, merge_nav, merge_telemetry, sign, packet_merge_accept,
}
use open_apex.Packet.Merge.Halves.{
  NavHalf, TelemetryHalf, nav_half, telemetry_half, nav_unknown, telemetry_unknown, speaks, reading,
  register, step, Agrees, step-Agrees, nav_view, telemetry_view, merge_nav-view, merge_nav-other,
  merge_telemetry-view, merge_telemetry-other,
}
use mathlib.Core.Option as O

-- The packets of a history, newest first, accepted one after another from the start.
abbrev pub after : List (RawNotif × ℕ) → MergeState
after [] = merge_start
after ((p, now_ms) ∷ earlier) = (packet_merge_accept (after earlier) p now_ms).0

abbrev pub nav_register : List (RawNotif × ℕ) → Option (NavHalf × ℕ)
nav_register e = register nav_half raw_group_nav packet_merge_nav_hold_ms e

abbrev pub telemetry_register : List (RawNotif × ℕ) → Option (TelemetryHalf × ℕ)
telemetry_register e = register telemetry_half raw_group_telemetry packet_merge_telemetry_hold_ms e

-- The state that a packet that speaks meets.
ready : MergeState → MergeState
ready s = if not s.init then packet_merge_reset s else s

Follows : MergeState → List (RawNotif × ℕ) → Type 0
Follows s e =
    Agrees nav_unknown (nav_view s) (nav_register e)
    × Agrees telemetry_unknown (telemetry_view s) (telemetry_register e)

-- Both halves one after the other.
merged : MergeState → RawNotif → ℕ → MergeState
merged s p now_ms = merge_telemetry (merge_nav s p now_ms) p now_ms

merged-nav :
    (s : MergeState) (p : RawNotif) (now_ms : ℕ)
    → nav_view (merged s p now_ms)
      ≡ step packet_merge_nav_hold_ms
          (claims p raw_group_nav)
          (nav_half p)
          nav_unknown
          now_ms
          (nav_view s)
unfolding merged
merged-nav s p now_ms =
    merge_telemetry-other (merge_nav s p now_ms) p now_ms ∙ merge_nav-view s p now_ms

merged-telemetry :
    (s : MergeState) (p : RawNotif) (now_ms : ℕ)
    → telemetry_view (merged s p now_ms)
      ≡ step packet_merge_telemetry_hold_ms
          (claims p raw_group_telemetry)
          (telemetry_half p)
          telemetry_unknown
          now_ms
          (telemetry_view s)
unfolding merged
merged-telemetry s p now_ms =
    merge_telemetry-view (merge_nav s p now_ms) p now_ms
    ∙ ap
        (step packet_merge_telemetry_hold_ms (claims p raw_group_telemetry) (telemetry_half p)
          telemetry_unknown now_ms)
        (merge_nav-other s p now_ms)

-- One packet that speaks.
merged-Follows :
    (s : MergeState) (p : RawNotif) (now_ms : ℕ) (e : List (RawNotif × ℕ))
    → speaks p ≡ true
    → Follows s e
    → Follows (merged s p now_ms) ((p, now_ms) ∷ e)
unfolding Follows
merged-Follows s p now_ms e h (nav, telemetry) =
    rw (h, merged-nav s p now_ms, merged-telemetry s p now_ms)
      (
        step-Agrees packet_merge_nav_hold_ms (claims p raw_group_nav) (nav_half p) nav_unknown
            now_ms (nav_view s) (nav_register e) nav,
        step-Agrees packet_merge_telemetry_hold_ms (claims p raw_group_telemetry) (telemetry_half p)
            telemetry_unknown now_ms (telemetry_view s) (telemetry_register e) telemetry,
      )

-- The half in a view that agrees is the one that the register shows.
Agrees-reading {ℓ} :
    {A : Type ℓ} (unknown : A) (v : Bool × ℕ × A) (r : Option (A × ℕ))
    → Agrees unknown v r
    → v.2 ≡ reading r unknown
unfolding Agrees
Agrees-reading unknown v none (off, e) = e
Agrees-reading unknown v (some (a, at_ms)) (on, at, e) = e

packet_merge_accept-speaks :
    (s : MergeState) (p : RawNotif) (now_ms : ℕ)
    → speaks p ≡ true
    → packet_merge_accept s p now_ms ≡ (
      record (merged (ready s) p now_ms) { held = sign (merged (ready s) p now_ms).held p },
      some (sign (merged (ready s) p now_ms).held p),
    )
unfolding packet_merge_accept merged ready
packet_merge_accept-speaks s p now_ms h = rw h refl

packet_merge_accept-silent :
    (s : MergeState) (p : RawNotif) (now_ms : ℕ)
    → speaks p ≡ false
    → packet_merge_accept s p now_ms ≡ (s, none)
unfolding packet_merge_accept
packet_merge_accept-silent s p now_ms h = rw h refl

ready-start : Follows (ready merge_start) []
unfolding Follows ready packet_merge_reset Agrees
ready-start = ((refl, refl), (refl, refl))

merge_nav-init : (s : MergeState) (p : RawNotif) (now_ms : ℕ) → (merge_nav s p now_ms).init ≡ s.init
unfolding merge_nav
merge_nav-init s p now_ms = elim (Bool-cases (claims p raw_group_nav)) [
  | inl on ↦ rw on refl
  | inr off ↦ elim (Bool-cases (nav_fresh s now_ms)) [
    | inl young ↦ rw (off, young) refl
    | inr old ↦ rw (off, old) refl
  ]
]

merge_telemetry-init :
    (s : MergeState) (p : RawNotif) (now_ms : ℕ) → (merge_telemetry s p now_ms).init ≡ s.init
unfolding merge_telemetry
merge_telemetry-init s p now_ms = elim (Bool-cases (claims p raw_group_telemetry)) [
  | inl on ↦ rw on refl
  | inr off ↦ elim (Bool-cases (telemetry_fresh s now_ms)) [
    | inl young ↦ rw (off, young) refl
    | inr old ↦ rw (off, old) refl
  ]
]

ready-init : (s : MergeState) → (ready s).init ≡ true
unfolding ready packet_merge_reset
ready-init s = elim (Bool-cases s.init) [ inl on ↦ rw on refl | inr off ↦ rw off refl ]

merged-init : (s : MergeState) (p : RawNotif) (now_ms : ℕ) → (merged s p now_ms).init ≡ s.init
unfolding merged
merged-init s p now_ms =
    merge_telemetry-init (merge_nav s p now_ms) p now_ms ∙ merge_nav-init s p now_ms

-- `ready` changes nothing once a packet was accepted, and the three fields that are signed belong
-- to neither half.
ready-signed :
    (s : MergeState) (p : RawNotif) (e : List (RawNotif × ℕ))
    → s.init ≡ true
    → Follows s e
    → Follows (ready (record s { held = sign s.held p })) e
unfolding Follows ready
ready-signed s p e h f = rw h f

Follows-silent :
    (s : MergeState) (p : RawNotif) (now_ms : ℕ) (e : List (RawNotif × ℕ))
    → speaks p ≡ false
    → Follows s e
    → Follows s ((p, now_ms) ∷ e)
unfolding Follows
Follows-silent s p now_ms e h known = rw h known

ready-after : (e : List (RawNotif × ℕ)) → Follows (ready (after e)) e
ready-after [] = ready-start
ready-after ((p, now_ms) ∷ earlier) =
    let known = ready-after earlier in
    elim (Bool-cases (speaks p)) [
      | inl h ↦
          rw (packet_merge_accept-speaks (after earlier) p now_ms h, after)
            (ready-signed (merged (ready (after earlier)) p now_ms) p ((p, now_ms) ∷ earlier)
              (merged-init (ready (after earlier)) p now_ms ∙ ready-init (after earlier))
              (merged-Follows (ready (after earlier)) p now_ms earlier h known))
      | inr h ↦
          rw (packet_merge_accept-silent (after earlier) p now_ms h, after)
            (Follows-silent (ready (after earlier)) p now_ms earlier h known)
    ]

abbrev pub signature : RawNotif → ℕ × ℕ × Bool
signature p = (p.sequence, p.source_groups, p.source_is_ios)

-- A packet that claims a half or both is merged: the packet that comes out has the halves that the
-- two registers show, and the sequence, groups and platform of the packet that went in. A packet
-- that claims neither half is refused and changes nothing.
pub packet_merge_accept-registers :
    (e : List (RawNotif × ℕ)) (p : RawNotif) (now_ms : ℕ)
    → (speaks p ≡ true
        → let out = (packet_merge_accept (after e) p now_ms).1 in
          let h = (p, now_ms) ∷ e in
          (O.map nav_half out ≡ some (reading (nav_register h) nav_unknown))
          × (O.map telemetry_half out ≡ some (reading (telemetry_register h) telemetry_unknown))
          × (O.map signature out ≡ some (signature p)))
      × (speaks p ≡ false → packet_merge_accept (after e) p now_ms ≡ (after e, none))
unfolding Follows
packet_merge_accept-registers e p now_ms = (
  λ h.
      let known = merged-Follows (ready (after e)) p now_ms e h (ready-after e) in
      rw (packet_merge_accept-speaks (after e) p now_ms h) (
        ap some (
            Agrees-reading nav_unknown (nav_view (merged (ready (after e)) p now_ms))
              (nav_register ((p, now_ms) ∷ e)) known.0),
        ap some (
            Agrees-reading telemetry_unknown (telemetry_view (merged (ready (after e)) p now_ms))
              (telemetry_register ((p, now_ms) ∷ e)) known.1),
        refl,
      ),
  λ h. packet_merge_accept-silent (after e) p now_ms h,
)
