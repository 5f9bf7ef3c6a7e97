-- ===== src/Ancs/Core/Refused.antt =====
-- firmware/main/ancs_core.c, ancs_core_on_data_source: responses that are given up.
use open_apex.Base.{
  ℕ, ◌+◌, ◌≤◌, ◌<◌, ◌≡◌, refl, ap, ◌∙◌, arith, Bool, true, false, Bool-cases, Option-cases, inl,
  inr, ◌⊎◌, lt→ltb, ltb-false, some, List, [], ◌∷◌, ◌++◌, length, set, u32,
}
use open_apex.Ancs.{ancs_ds_buf_len, ancs_encode_get_attributes, parse_malformed, parse_attributes}
use open_apex.Ancs.Core.Reassembly.{on_data_source_takes}
use open_apex.Ancs.Core.{
  raw_data_source, AncsCore, Output, to_raw, to_control_point, to_notification, raw_tap, tracked_at,
  request_attributes, waiting_from, pump_pending, overflow, malformed, take_in,
  ancs_core_on_data_source,
}

-- A notification among the outputs.
abbrev pub tells : List Output → Bool
tells [] = false
tells (to_raw kind bytes ∷ outs) = tells outs
tells (to_control_point bytes ∷ outs) = tells outs
tells (to_notification n removed ∷ outs) = true

-- What a request that is given up leaves: no bytes of it, no notification, and the first who waits
-- is asked next.
abbrev pub GivenUp : AncsCore → AncsCore → List Output → Type 0
GivenUp c d outs =
    (d.ds_buf ≡ [])
    × (tells outs ≡ false)
    × ((i : ℕ)
        → waiting_from 0 c.tracked ≡ some i
        → c.write_cp ≡ true
        → (d.request_active ≡ true) × (d.request_uid ≡ (tracked_at c.tracked i).uid))

request_attributes-tells : (c : AncsCore) (uid : ℕ) → tells (request_attributes c uid).1 ≡ false
unfolding request_attributes ancs_encode_get_attributes
request_attributes-tells c uid = elim (Bool-cases c.write_cp) [
  | inl on ↦ elim (Bool-cases c.on_raw) [
    | inl tap ↦ rw (on, tap) refl
    | inr no_tap ↦ rw (on, no_tap) refl
  ]
  | inr off ↦ rw off refl
]

request_attributes-ds_buf :
    (c : AncsCore) (uid : ℕ) → c.ds_buf ≡ [] → (request_attributes c uid).0.ds_buf ≡ []
unfolding request_attributes ancs_encode_get_attributes
request_attributes-ds_buf c uid h = elim (Bool-cases c.write_cp) [
  | inl on ↦ rw on refl
  | inr off ↦ rw off h
]

request_attributes-active :
    (c : AncsCore) (uid : ℕ)
    → c.write_cp ≡ true
    → ((request_attributes c uid).0.request_active ≡ true)
      × ((request_attributes c uid).0.request_uid ≡ uid)
unfolding request_attributes ancs_encode_get_attributes
request_attributes-active c uid h = rw h (refl, refl)

same_place : (i j : ℕ) → some i ≡ some j → i ≡ j
same_place i j h = cc

pump_pending-GivenUp :
    (c : AncsCore)
    → c.request_active ≡ false
    → c.ds_buf ≡ []
    → GivenUp c (pump_pending c).0 (pump_pending c).1
unfolding pump_pending
pump_pending-GivenUp c off empty = elim (Option-cases (waiting_from 0 c.tracked)) [
  | inl e ↦ rw (off, e, pump_pending) (empty, refl, λ i waiting. absurd (ground arith))
  | inr (j, e) ↦
      let t = tracked_at c.tracked j in
      let d : AncsCore = record c {
        tracked = set c.tracked j (record t { attrs_requested = true });
      } in
      rw (off, e, pump_pending)
        (
          request_attributes-ds_buf d t.uid empty,
          request_attributes-tells d t.uid,
          λ i waiting h.
              let (on, asked) = request_attributes-active d t.uid h in
              (on, asked ∙ ap (λ (k : ℕ). (tracked_at c.tracked k).uid) (same_place j i waiting)),
        )
]

take_in-GivenUp :
    (c : AncsCore) (bytes : List ℕ)
    → (ancs_ds_buf_len < length c.ds_buf + length bytes)
      ⊎ ((length c.ds_buf + length bytes ≤ ancs_ds_buf_len)
          × (parse_attributes true (c.ds_buf ++ bytes) ≡ parse_malformed))
    → ((take_in c bytes).1 ≡ false) × GivenUp c (take_in c bytes).0 (take_in c bytes).2
unfolding take_in overflow malformed
take_in-GivenUp c bytes (inl long) =
    rw (lt→ltb ancs_ds_buf_len (length c.ds_buf + length bytes) long, take_in)
      (
        refl,
        pump_pending-GivenUp
            (record c {
              ds_overflow = true;
              stat_ds_overflow = u32 (c.stat_ds_overflow + 1);
              ds_buf = [];
              request_active = false;
            })
            refl refl,
      )
take_in-GivenUp c bytes (inr (fits, broken)) =
    rw (ltb-false ancs_ds_buf_len (length c.ds_buf + length bytes) fits, broken, take_in)
      (
        refl,
        pump_pending-GivenUp
            (record c {
              stat_ds_malformed = u32 (c.stat_ds_malformed + 1);
              ds_buf = [];
              request_active = false;
            })
            refl refl,
      )

tells-tap :
    (c : AncsCore) (bytes : List ℕ) (outs : List Output)
    → tells (raw_tap c raw_data_source bytes ++ outs) ≡ tells outs
tells-tap c bytes outs = elim (Bool-cases c.on_raw) [ inl on ↦ rw on refl | inr off ↦ rw off refl ]

-- Bytes that overflow the buffer, or that make it malformed, while a request is in flight: they are
-- refused, the buffer is emptied, no notification is told, and if the control point can be written
-- the first notification that waits in the table is asked for next.
pub ancs_core_on_data_source-GivenUp :
    (c : AncsCore) (x : ℕ) (bytes : List ℕ)
    → c.request_active ≡ true
    → (ancs_ds_buf_len < length c.ds_buf + length (x ∷ bytes))
      ⊎ ((length c.ds_buf + length (x ∷ bytes) ≤ ancs_ds_buf_len)
          × (parse_attributes true (c.ds_buf ++ (x ∷ bytes)) ≡ parse_malformed))
    → let (d, ok, outs) = ancs_core_on_data_source c (x ∷ bytes) in (ok ≡ false) × GivenUp c d outs
ancs_core_on_data_source-GivenUp c x bytes on h =
    let (refused, (empty, quiet, next)) = take_in-GivenUp c (x ∷ bytes) h in
    rw (on_data_source_takes c x bytes on)
      (refused, (empty, tells-tap c (x ∷ bytes) (take_in c (x ∷ bytes)).2 ∙ quiet, next))
