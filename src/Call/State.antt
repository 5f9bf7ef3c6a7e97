-- ===== src/Call/State.antt =====
-- firmware/main/call_state.c: the call page as a state machine.
use open_apex.Base.{
  ℕ, ◌-◌, ◌/◌, Bool, true, false, not, ◌||◌, ◌&&◌, ltb, ◌==◌, if◌then◌else◌, List, [], take, sub32,
}
use open_apex.Call.{call_caller_len, call_number_len, CallEventType, ring, clear, active, CallEvent}

abbrev pub call_ring_timeout_ms : ℕ
call_ring_timeout_ms = 12000

-- `call_phase_t`.
pub data CallPhase : Type 0 where
  call_none call_ringing call_active : CallPhase

abbrev pub phase_eq : CallPhase → CallPhase → Bool
phase_eq call_none call_none = true
phase_eq call_ringing call_ringing = true
phase_eq call_active call_active = true
phase_eq _ _ = false

-- The static variables.
pub record CallState : Type 0 where
  pub phase : CallPhase
  pub call_id : ℕ
  pub caller : List ℕ
  pub number : List ℕ
  pub last_refresh_ms : ℕ
  pub answered_ms : ℕ

unfoldable pub call_state_reset : CallState
call_state_reset = record {
  phase = call_none;
  call_id = 0;
  caller = [];
  number = [];
  last_refresh_ms = 0;
  answered_ms = 0;
}

-- The last part: who is calling, and when the page was refreshed.
abbrev pub refresh : CallState → CallEvent → ℕ → CallState
refresh s event now_ms = record s {
  call_id = event.call_id;
  caller = take (call_caller_len - 1) event.caller;
  number = take (call_number_len - 1) event.number;
  last_refresh_ms = now_ms;
}

abbrev pub same_call : CallState → CallEvent → Bool
same_call s event = not (phase_eq s.phase call_none) && event.call_id == s.call_id

-- By the type of the event.
unfoldable pub apply_type : CallEventType → CallState → CallEvent → ℕ → CallState
apply_type clear s event now_ms = if same_call s event then record s { phase = call_none } else s
apply_type active s event now_ms =
    let answered =
      if phase_eq s.phase call_active
      then s
      else record s { phase = call_active; answered_ms = now_ms } in
    if not (same_call s event) then s else refresh answered event now_ms
apply_type ring s event now_ms =
    refresh (if same_call s event then s else record s { phase = call_ringing }) event now_ms

unfoldable pub call_state_apply : CallState → CallEvent → ℕ → CallState
unfolding apply_type
call_state_apply s event now_ms = apply_type event.type s event now_ms

unfoldable pub call_state_tick : CallState → ℕ → Bool → CallState
call_state_tick s now_ms link_connected =
    if phase_eq s.phase call_none
    then s
    else if not link_connected || ltb call_ring_timeout_ms (sub32 now_ms s.last_refresh_ms)
    then record s { phase = call_none }
    else s

-- What the page shows of a call.
pub record CallView : Type 0 where
  pub call_ringing : Bool
  pub call_active : Bool
  pub call_elapsed_s : ℕ
  pub call_id : ℕ
  pub caller : List ℕ
  pub call_number : List ℕ

pub call_state_fill : CallState → ℕ → CallView
call_state_fill s now_ms = record {
  call_ringing = phase_eq s.phase call_ringing;
  call_active = phase_eq s.phase call_active;
  call_elapsed_s = if phase_eq s.phase call_active then sub32 now_ms s.answered_ms / 1000 else 0;
  call_id = s.call_id;
  caller = s.caller;
  call_number = s.number;
}
