-- ===== src/Ancs/Core/Pending.antt =====
-- firmware/main/ancs_core.c: no notification waits for its attributes while nothing is being asked,
-- and when that fails.
use open_apex.Base.{
  ℕ, zero, suc, ◌+◌, ◌≤◌, ◌≡◌, refl, ◌∙◌, arith, Bool, true, false, not, ◌&&◌, ◌||◌, Bool-cases,
  Option-cases, inl, inr, ◌⊎◌, ◌==◌, if◌then◌else◌, none, List, [], ◌∷◌, length, length-set, set,
  All,
}
use open_apex.Ancs.{ancs_max_tracked, ancs_ds_buf_len, ancs_encode_get_attributes}
use open_apex.Ancs.Core.{
  Tracked, blank_tracked, AncsCore, find_tracked, free_from, tracked_at, claim_tracked,
  request_attributes, on_removed, on_announced, waiting_from, pump_pending,
}

-- An entry that waits for a request, and a table where none does.
abbrev pub waits : Tracked → Bool
waits t = t.used && not t.attrs_requested

abbrev pub Idle : List Tracked → Type 0
Idle = All (λ t. waits t ≡ false)

Idle-waiting_from : (i : ℕ) (ts : List Tracked) → waiting_from i ts ≡ none → Idle ts
unfolding waiting_from
Idle-waiting_from i [] h = tt
Idle-waiting_from i (t ∷ ts) h = elim (Bool-cases (waits t)) [
  | inl on ↦ absurd (ground arith)
  | inr off ↦ (off, Idle-waiting_from (i + 1) ts (ground arith))
]

Idle-set : (ts : List Tracked) (i : ℕ) (t : Tracked) → Idle ts → waits t ≡ false → Idle (set ts i t)
Idle-set [] i t h k = tt
Idle-set (x ∷ ts) zero t h k = (k, h.1)
Idle-set (x ∷ ts) (suc i) t h k = (h.0, Idle-set ts i t h.1 k)

-- What every operation keeps while the control point can be written: the table has its size, the
-- buffer its bound, and either a request is in flight or the buffer is empty and nobody waits.
pub record Served (c : AncsCore) : Type 0 where
  pub linked : c.write_cp ≡ true
  pub size : length c.tracked ≡ ancs_max_tracked
  pub bound : length c.ds_buf ≤ ancs_ds_buf_len
  pub quiet : (c.request_active ≡ true) ⊎ ((c.ds_buf ≡ []) × Idle c.tracked)

-- A request that is made is in flight, with an empty buffer.
request_attributes-Served :
    (c : AncsCore) (uid : ℕ)
    → c.write_cp ≡ true
    → length c.tracked ≡ ancs_max_tracked
    → Served (request_attributes c uid).0
unfolding request_attributes ancs_encode_get_attributes
request_attributes-Served c uid h k =
    rw h (record { linked = refl; size = k; bound = omega arith; quiet = inl refl })

pub pump_pending-Served :
    (c : AncsCore)
    → c.write_cp ≡ true
    → length c.tracked ≡ ancs_max_tracked
    → c.request_active ≡ false
    → c.ds_buf ≡ []
    → Served (pump_pending c).0
unfolding pump_pending
pump_pending-Served c h k off empty = elim (Option-cases (waiting_from 0 c.tracked)) [
  | inl none_waits ↦
      rw (off, none_waits, pump_pending)
        (record {
          linked = h;
          size = k;
          bound = rw empty (omega arith);
          quiet = inr (empty, Idle-waiting_from 0 c.tracked none_waits);
        })
  | inr (i, waits_at) ↦
      let t = tracked_at c.tracked i in
      rw (off, waits_at, pump_pending)
        (request_attributes-Served
          (record c { tracked = set c.tracked i (record t { attrs_requested = true }) }) t.uid h
          (length-set c.tracked i (record t { attrs_requested = true }) ∙ k))
]

length-claim_tracked : (ts : List Tracked) (uid : ℕ) → length (claim_tracked ts uid).0 ≡ length ts
unfolding claim_tracked
length-claim_tracked ts uid = elim (Option-cases (find_tracked ts uid)) [
  | inl e ↦
      rw (e, claim_tracked)
        (length-set ts (free_from 0 ts) (record blank_tracked { used = true; uid = uid }))
  | inr (i, e) ↦ rw (e, claim_tracked) refl
]

-- The last test of an announced notification.
announced :
    (active : Bool) (c : AncsCore) (uid : ℕ)
    → c.request_active ≡ active
    → c.write_cp ≡ true
    → length c.tracked ≡ ancs_max_tracked
    → length c.ds_buf ≤ ancs_ds_buf_len
    → Served (if not active then request_attributes c uid else (c, [])).0
announced true c uid e h k l = record { linked = h; size = k; bound = l; quiet = inl e }
announced false c uid e h k l = request_attributes-Served c uid h k

pub on_announced-Served :
    (c : AncsCore) (uid category event_flags : ℕ)
    → Served c
    → Served (on_announced c uid category event_flags).0
unfolding on_announced
on_announced-Served c uid category event_flags s =
    let ts = (claim_tracked c.tracked uid).0 in
    let i = (claim_tracked c.tracked uid).1 in
    let entry : Tracked = record (tracked_at ts i) {
      category = category;
      event_flags = event_flags;
      attrs_requested = not c.request_active || c.request_uid == uid;
    } in
    let size = length-set ts i entry ∙ length-claim_tracked c.tracked uid ∙ s.size in
    announced c.request_active (record c { tracked = set ts i entry }) uid refl s.linked size
      s.bound

pub on_removed-Served :
    (c : AncsCore) (uid category event_flags : ℕ)
    → (c.request_active && c.request_uid == uid) ≡ false
    → Served c
    → Served (on_removed c uid category event_flags).0
unfolding on_removed
on_removed-Served c uid category event_flags h s =
    elim (Option-cases (find_tracked c.tracked uid)) [
      | inl e ↦ rw (h, e, on_removed) s
      | inr (i, e) ↦
          let gone : Tracked = record (tracked_at c.tracked i) { used = false } in
          rw (h, e, on_removed)
            (record {
              linked = s.linked;
              size = length-set c.tracked i gone ∙ s.size;
              bound = s.bound;
              quiet = elim s.quiet [
                | inl on ↦ inl on
                | inr (empty, idle) ↦ inr (empty, Idle-set c.tracked i gone idle refl)
              ];
            })
    ]
