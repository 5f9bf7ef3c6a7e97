-- ===== src/Call/Rang.antt =====
-- firmware/main/call_state.c: the call page over the whole history of events and ticks since reset.
use open_apex.Base.{
  ℕ, ◌≡◌, arith, Bool, true, false, not, ◌||◌, ◌&&◌, Bool-cases, inl, inr, ltb, ◌==◌, List, [], ◌∷◌,
  sub32,
}
use open_apex.Call.{CallEventType, ring, clear, active, CallEvent}
use open_apex.Call.State.{
  call_none, phase_eq, CallState, call_state_reset, same_call, apply_type, call_state_apply,
  call_state_tick, call_ring_timeout_ms,
}

-- What the main task calls.
pub data CallStep : Type 0 where
  event : CallEvent → ℕ → CallStep
  tick : ℕ → Bool → CallStep

abbrev pub call_step : CallState → CallStep → CallState
call_step s (event e now_ms) = call_state_apply s e now_ms
call_step s (tick now_ms link_connected) = call_state_tick s now_ms link_connected

-- The state after a history, the latest step first.
abbrev pub after : List CallStep → CallState
after [] = call_state_reset
after (st ∷ earlier) = call_step (after earlier) st

abbrev pub is_ring : CallEventType → Bool
is_ring ring = true
is_ring _ = false

-- A RING of that call is in the history.
abbrev pub rang : ℕ → List CallStep → Bool
rang id [] = false
rang id (event e now_ms ∷ earlier) = (is_ring e.type && e.call_id == id) || rang id earlier
rang id (tick now_ms link_connected ∷ earlier) = rang id earlier

-- A page that is up has rung.
abbrev Up : CallState → List CallStep → Type 0
Up s history = phase_eq s.phase call_none ≡ false → rang s.call_id history ≡ true

same_call-parts :
    (s : CallState) (e : CallEvent)
    → same_call s e ≡ true
    → (phase_eq s.phase call_none ≡ false) × (e.call_id ≡ s.call_id)
same_call-parts s e h = (ground (arith, h), ground (arith, h))

apply_type-Up :
    (t : CallEventType) (s : CallState) (e : CallEvent) (now_ms : ℕ) (earlier : List CallStep)
    → Up s earlier
    → phase_eq (apply_type t s e now_ms).phase call_none ≡ false
    → ((is_ring t && e.call_id == (apply_type t s e now_ms).call_id)
        || rang (apply_type t s e now_ms).call_id earlier)
      ≡ true
unfolding apply_type
apply_type-Up clear s e now_ms earlier u = elim (Bool-cases (same_call s e)) [
  | inl same ↦ rw (same, apply_type) (λ h. cc)
  | inr other ↦ rw (other, apply_type) u
]
apply_type-Up active s e now_ms earlier u = elim (Bool-cases (same_call s e)) [
  | inl same ↦
      rw (same, apply_type) (λ h. let both = same_call-parts s e same in rw both.1 (u both.0))
  | inr other ↦ rw (other, apply_type) u
]
apply_type-Up ring s e now_ms earlier u = λ h. ground arith

tick-Up :
    (s : CallState) (now_ms : ℕ) (link : Bool) (earlier : List CallStep)
    → Up s earlier
    → Up (call_state_tick s now_ms link) earlier
unfolding call_state_tick
tick-Up s now_ms link earlier u = elim (Bool-cases (phase_eq s.phase call_none)) [
  | inl idle ↦ rw (idle, call_state_tick) (λ h. ground (arith, idle, h))
  | inr busy ↦
      elim (Bool-cases (not link || ltb call_ring_timeout_ms (sub32 now_ms s.last_refresh_ms))) [
        | inl over ↦ rw (busy, over, call_state_tick) (λ h. cc)
        | inr goes_on ↦ rw (busy, goes_on, call_state_tick) u
      ]
]

-- A call has a page only if it rang: after any sequence of events and ticks since reset, when the
-- page is up, ringing or answered, the sequence holds a RING of the call that it shows. So an
-- outgoing call, which is announced as ACTIVE and never rings, gets no page.
pub after-rang :
    (history : List CallStep)
    → phase_eq (after history).phase call_none ≡ false
    → rang (after history).call_id history ≡ true
unfolding call_state_reset call_state_apply
after-rang [] h = cc
after-rang (event e now_ms ∷ earlier) h =
    apply_type-Up e.type (after earlier) e now_ms earlier (after-rang earlier) h
after-rang (tick now_ms link_connected ∷ earlier) h =
    tick-Up (after earlier) now_ms link_connected earlier (after-rang earlier) h
