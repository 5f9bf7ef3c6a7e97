-- ===== src/Call/Tests.antt =====
-- A call from the first ring to the answer.
use open_apex.Base.{ℕ, ◌≡◌, ◌≤◌, refl, true, false, some, List, [], ◌∷◌, length, All, replicate}
use open_apex.Call.{CallEventType, ring, active, CallEvent, call_event_decode}
use open_apex.Call.State.{
  call_none, call_active, phase_eq, call_state_apply, call_state_tick, call_state_reset,
}
use open_apex.Call.Text.{Printable, call_event_decode-Printable}
use open_apex.Call.Rang.{CallStep, event, tick, call_step, after, rang, after-rang}
use open_apex.Call.Answered.{resume, refreshed, goes_on, Undisturbed, shows, answered-stays}

abbrev from_zoe : CallEventType → CallEvent
from_zoe t = record {
  type = t;
  call_id = 7;
  caller = b'Z' ∷ b'o' ∷ b'e' ∷ [];
  number = b'1' ∷ b'2' ∷ [];
}

-- The newest step first.
abbrev talk : List CallStep
talk = event (from_zoe active) 4000 ∷ tick 2000 true ∷ event (from_zoe ring) 1000 ∷ []

talk_up : phase_eq (after talk).phase call_none ≡ false
unfolding call_state_reset call_state_apply call_state_tick
talk_up = refl

after-rang_example : rang (after talk).call_id talk ≡ true
after-rang_example = after-rang talk talk_up

-- A second RING, and a tick, after the answer.
abbrev talk_on : List CallStep
talk_on = tick 20000 true ∷ event (from_zoe ring) 9000 ∷ []

talk_on-Undisturbed : Undisturbed (after talk).call_id (after talk).last_refresh_ms talk_on
unfolding call_state_reset call_state_apply call_state_tick
talk_on-Undisturbed = (refl, (refl, tt))

talk_answered : (after talk).phase ≡ call_active
unfolding call_state_reset call_state_apply call_state_tick
talk_answered = refl

answered-stays_example :
    ((resume (after talk) talk_on).phase ≡ call_active)
    × ((resume (after talk) talk_on).call_id ≡ (after talk).call_id)
    × ((resume (after talk) talk_on).answered_ms ≡ (after talk).answered_ms)
    × ((st : CallStep)
        → goes_on
            (after talk).call_id
            (refreshed (after talk).call_id (after talk).last_refresh_ms talk_on)
            st
          ≡ false
        → shows (after talk).call_id (call_step (resume (after talk) talk_on) st) ≡ false)
answered-stays_example = answered-stays (after talk) talk_on talk_answered talk_on-Undisturbed

-- RING of call 0x0102 from "Zoë", her number empty.
abbrev zoe_packet : List ℕ
zoe_packet = 1 ∷ 1 ∷ 2 ∷ 1 ∷ b'Z' ∷ b'o' ∷ 0xC3 ∷ 0xAB ∷ replicate 56 0

zoe_decodes :
    call_event_decode zoe_packet
    ≡ some (record { type = ring; call_id = 0x0102; caller = b'Z' ∷ b'o' ∷ b'e' ∷ []; number = [] })
unfolding call_event_decode
zoe_decodes = refl

abbrev zoe_name : List ℕ
zoe_name = b'Z' ∷ b'o' ∷ b'e' ∷ []

abbrev no_number : List ℕ
no_number = []

call_event_decode-Printable_example :
    (All Printable zoe_name × (length zoe_name ≤ 40))
    × (All Printable no_number × (length no_number ≤ 20))
call_event_decode-Printable_example =
    call_event_decode-Printable zoe_packet
      (record { type = ring; call_id = 0x0102; caller = zoe_name; number = no_number }) zoe_decodes
