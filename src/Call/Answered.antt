-- ===== src/Call/Answered.antt =====
-- firmware/main/call_state.c: the page of an answered call, and what ends it.
use open_apex.Base.{
  ℕ, sym, ◌∙◌, ◌≡◌, refl, arith, Bool, true, false, not, ◌||◌, ◌&&◌, Bool-cases, true≢false, inl,
  inr, ltb, ◌==◌, if◌then◌else◌, List, [], ◌∷◌, sub32,
}
use open_apex.Call.{CallEventType, ring, clear, active, CallEvent}
use open_apex.Call.State.{
  call_none, call_active, phase_eq, CallState, same_call, apply_type, call_state_apply,
  call_state_tick, call_ring_timeout_ms,
}
use open_apex.Call.Rang.{CallStep, event, tick, call_step, is_ring}

eq_to : (a b : ℕ) → (a == b) ≡ true → a ≡ b
eq_to a b h = ground arith

-- The state after further steps, the latest first.
abbrev pub resume : CallState → List CallStep → CallState
resume s [] = s
resume s (st ∷ earlier) = call_step (resume s earlier) st

abbrev pub is_clear : CallEventType → Bool
is_clear clear = true
is_clear _ = false

-- The time of the last event of that call, `start` if there is none. As long as no step is a CLEAR of
-- that call, it is the last RING or ACTIVE.
abbrev pub refreshed : ℕ → ℕ → List CallStep → ℕ
refreshed id start [] = start
refreshed id start (event e now_ms ∷ earlier) =
    let before = refreshed id start earlier in if e.call_id == id then now_ms else before
refreshed id start (tick now_ms link_connected ∷ earlier) = refreshed id start earlier

-- A step that leaves the page to that call, last refreshed at `last_ms`: not its CLEAR, not the RING
-- of another call, and a tick only with the link up and within twelve seconds of the refresh.
abbrev pub goes_on : ℕ → ℕ → CallStep → Bool
goes_on id last_ms (event e now_ms) =
    if e.call_id == id then not (is_clear e.type) else not (is_ring e.type)
goes_on id last_ms (tick now_ms link_connected) =
    link_connected && not (ltb call_ring_timeout_ms (sub32 now_ms last_ms))

abbrev pub Undisturbed : ℕ → ℕ → List CallStep → Type 0
Undisturbed id start [] = Unit
Undisturbed id start (st ∷ earlier) =
    (goes_on id (refreshed id start earlier) st ≡ true) × Undisturbed id start earlier

-- Answered in `s`, and still so in `t`, which was refreshed at `last_ms`.
abbrev pub Kept : CallState → ℕ → CallState → Type 0
Kept s last_ms t =
    (t.phase ≡ call_active)
    × (t.call_id ≡ s.call_id)
    × (t.answered_ms ≡ s.answered_ms)
    × (t.last_refresh_ms ≡ last_ms)

-- The page shows that call as answered.
abbrev pub shows : ℕ → CallState → Bool
shows id s = phase_eq s.phase call_active && s.call_id == id

same_call-Kept :
    (s t : CallState) (e : CallEvent) (last_ms : ℕ)
    → Kept s last_ms t
    → same_call t e ≡ (e.call_id == s.call_id)
same_call-Kept s t e last_ms (up, id, at, last) = rw (up, id) refl

type-Kept :
    (ty : CallEventType) (s t : CallState) (e : CallEvent) (last_ms now_ms : ℕ)
    → Kept s last_ms t
    → (if e.call_id == s.call_id then not (is_clear ty) else not (is_ring ty)) ≡ true
    → Kept s (if e.call_id == s.call_id then now_ms else last_ms) (apply_type ty t e now_ms)
unfolding apply_type
type-Kept clear s t e last_ms now_ms (up, id, at, last) h =
    elim (Bool-cases (e.call_id == s.call_id)) [
      | inl same ↦ absurd (true≢false (sym h ∙ rw same refl))
      | inr other ↦
          let known = same_call-Kept s t e last_ms (up, id, at, last) ∙ other in
          rw (known, other, apply_type) (up, id, at, last)
    ]
type-Kept active s t e last_ms now_ms (up, id, at, last) h =
    elim (Bool-cases (e.call_id == s.call_id)) [
      | inl same ↦
          let known = same_call-Kept s t e last_ms (up, id, at, last) ∙ same in
          rw (known, same, apply_type) (rw up (refl, eq_to e.call_id s.call_id same, at, refl))
      | inr other ↦
          let known = same_call-Kept s t e last_ms (up, id, at, last) ∙ other in
          rw (known, other, apply_type) (up, id, at, last)
    ]
type-Kept ring s t e last_ms now_ms (up, id, at, last) h =
    elim (Bool-cases (e.call_id == s.call_id)) [
      | inl same ↦
          let known = same_call-Kept s t e last_ms (up, id, at, last) ∙ same in
          rw (known, same, apply_type) (up, eq_to e.call_id s.call_id same, at, refl)
      | inr other ↦ absurd (true≢false (sym h ∙ rw other refl))
    ]

tick-Kept :
    (s t : CallState) (last_ms now_ms : ℕ) (link : Bool)
    → Kept s last_ms t
    → (link && not (ltb call_ring_timeout_ms (sub32 now_ms last_ms))) ≡ true
    → Kept s last_ms (call_state_tick t now_ms link)
unfolding call_state_tick
tick-Kept s t last_ms now_ms link (up, id, at, last) h =
    elim (Bool-cases (not link || ltb call_ring_timeout_ms (sub32 now_ms t.last_refresh_ms))) [
      | inl over ↦ absurd (true≢false (ground (arith, h, last, over)))
      | inr going ↦
          let busy : phase_eq t.phase call_none ≡ false = rw up refl in
          rw (busy, going, call_state_tick) (up, id, at, last)
    ]

type_ends :
    (ty : CallEventType) (s t : CallState) (e : CallEvent) (last_ms now_ms : ℕ)
    → Kept s last_ms t
    → (if e.call_id == s.call_id then not (is_clear ty) else not (is_ring ty)) ≡ false
    → shows s.call_id (apply_type ty t e now_ms) ≡ false
unfolding apply_type
type_ends clear s t e last_ms now_ms (up, id, at, last) h =
    elim (Bool-cases (e.call_id == s.call_id)) [
      | inl same ↦
          let known = same_call-Kept s t e last_ms (up, id, at, last) ∙ same in
          rw (known, apply_type) refl
      | inr other ↦ absurd (true≢false (sym (rw other refl) ∙ h))
    ]
type_ends active s t e last_ms now_ms (up, id, at, last) h =
    elim (Bool-cases (e.call_id == s.call_id)) [
      | inl same ↦ absurd (true≢false (sym (rw same refl) ∙ h))
      | inr other ↦ absurd (true≢false (sym (rw other refl) ∙ h))
    ]
type_ends ring s t e last_ms now_ms (up, id, at, last) h =
    elim (Bool-cases (e.call_id == s.call_id)) [
      | inl same ↦ absurd (true≢false (sym (rw same refl) ∙ h))
      | inr other ↦
          let known = same_call-Kept s t e last_ms (up, id, at, last) ∙ other in
          rw (known, apply_type) refl
    ]

tick_ends :
    (s t : CallState) (last_ms now_ms : ℕ) (link : Bool)
    → Kept s last_ms t
    → (link && not (ltb call_ring_timeout_ms (sub32 now_ms last_ms))) ≡ false
    → shows s.call_id (call_state_tick t now_ms link) ≡ false
unfolding call_state_tick
tick_ends s t last_ms now_ms link (up, id, at, last) h =
    elim (Bool-cases (not link || ltb call_ring_timeout_ms (sub32 now_ms t.last_refresh_ms))) [
      | inl over ↦ rw (up, over, call_state_tick) refl
      | inr going ↦ absurd (true≢false (ground (arith, h, last, going)))
    ]

resume-Kept :
    (s : CallState) (history : List CallStep)
    → s.phase ≡ call_active
    → Undisturbed s.call_id s.last_refresh_ms history
    → Kept s (refreshed s.call_id s.last_refresh_ms history) (resume s history)
unfolding call_state_apply
resume-Kept s [] up h = (up, refl, refl, refl)
resume-Kept s (event e now_ms ∷ earlier) up (h, hs) =
    type-Kept e.type s (resume s earlier) e (refreshed s.call_id s.last_refresh_ms earlier) now_ms
      (resume-Kept s earlier up hs) h
resume-Kept s (tick now_ms link_connected ∷ earlier) up (h, hs) =
    tick-Kept s (resume s earlier) (refreshed s.call_id s.last_refresh_ms earlier) now_ms
      link_connected (resume-Kept s earlier up hs) h

step_ends :
    (st : CallStep) (s t : CallState) (last_ms : ℕ)
    → Kept s last_ms t
    → goes_on s.call_id last_ms st ≡ false
    → shows s.call_id (call_step t st) ≡ false
unfolding call_state_apply
step_ends (event e now_ms) s t last_ms k h = type_ends e.type s t e last_ms now_ms k h
step_ends (tick now_ms link_connected) s t last_ms k h =
    tick_ends s t last_ms now_ms link_connected k h

-- An answered call stays on the page through any further events and ticks, with the time at which
-- it was answered, as long as none of them is a CLEAR of that call, a RING of another call, a tick
-- with the link down, or a tick more than twelve seconds after the last RING or ACTIVE of that
-- call. The first step that is one of these ends it: the page no longer shows that call as
-- answered.
pub answered-stays :
    (s : CallState) (history : List CallStep)
    → s.phase ≡ call_active
    → Undisturbed s.call_id s.last_refresh_ms history
    → ((resume s history).phase ≡ call_active)
      × ((resume s history).call_id ≡ s.call_id)
      × ((resume s history).answered_ms ≡ s.answered_ms)
      × ((st : CallStep)
          → goes_on s.call_id (refreshed s.call_id s.last_refresh_ms history) st ≡ false
          → shows s.call_id (call_step (resume s history) st) ≡ false)
answered-stays s history up h =
    let k = resume-Kept s history up h in
    (
      k.0,
      k.1,
      k.2,
      λ st ends.
          step_ends st s (resume s history) (refreshed s.call_id s.last_refresh_ms history) k ends,
    )
