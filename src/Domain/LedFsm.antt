-- ===== src/Domain/LedFsm.antt =====
-- The LED state of a live conversation, firmware/components/pv_domain/include/domain/led_fsm.hpp
-- and src/led_fsm.cpp. `Ms` is `std::chrono::milliseconds`, a signed 64-bit count; differences of
-- device uptimes stay far inside that width, so an integer stands for it.
mod Priority
mod Aging
mod Tests
use pipecat_voice_assistant.Prelude.{
  ℕ, ◌^◌, ◌-◌, Bool, true, false, not, Option, none, some, if◌then◌else◌,
}
use pipecat_voice_assistant.Prelude.Int.{ℤ, pos, negsuc, ◌+ℤ◌, ◌-ℤ◌, ltb_ℤ}

pub data LedState : Type 0 where
  off provisioning connecting negotiating listening talking : LedState
  thinking wake_ack speaking muted error : LedState

abbrev pub Ms : Type 0
Ms = ℤ

abbrev pub ms_max : Ms
ms_max = pos (2 ^ 63 - 1)

pub record LedInputs : Type 0 where
  pub now : Ms
  pub last_inbound_audio : Ms
  pub last_mic_active : Ms
  pub connected : Bool
  pub muted : Bool
  pub conversation_active : Bool

abbrev pub speaking_hold : Ms
speaking_hold = pos 2500

abbrev pub talking_hold : Ms
talking_hold = pos 1500

abbrev pub thinking_max : Ms
thinking_max = pos 15000

abbrev pub is_zero : ℤ → Bool
is_zero (pos ℕ.zero) = true
is_zero _ = false

-- A zero timestamp counts as far in the past.
unfoldable pub since : Ms → Ms → Ms
since now last = if is_zero last then ms_max else now -ℤ last

pub resolve_led_state : LedInputs → Option LedState
unfolding ◌+ℤ◌
resolve_led_state i =
    if not i.connected
    then none
    else if i.muted
    then some muted
    else let since_rx = since i.now i.last_inbound_audio in
      let since_mic = since i.now i.last_mic_active in
      if ltb_ℤ since_rx speaking_hold
      then some speaking
      else if not i.conversation_active
      then some off
      else if ltb_ℤ since_mic talking_hold
      then some talking
      else if ltb_ℤ since_mic (talking_hold +ℤ thinking_max)
      then some thinking
      else some listening
