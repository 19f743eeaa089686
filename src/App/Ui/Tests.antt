-- ===== src/App/Ui/Tests.antt =====
-- Runs of the LED arbiter, and the theorems applied to them.
use pipecat_voice_assistant.Prelude.{◌*◌, ◌≡◌, refl, false, List, [], ◌∷◌}
use pipecat_voice_assistant.Prelude.Int.{ℤ, pos, ◌+ℤ◌}
use pipecat_voice_assistant.Domain.LedFsm.{LedState}
use pipecat_voice_assistant.App.Ui.{Ui, wake_ack_hold_ms, apply_state, set_leds}
use pipecat_voice_assistant.App.Ui.Holds.{Before, wake_ack_held}

abbrev fresh : Ui
fresh = record {
  last_pushed = LedState.off;
  hold_until_us = pos 0;
  override_until_us = pos 0;
  force = false;
  ring = [];
}

abbrev calls : List (LedState × ℤ)
calls = (LedState.listening, pos 600000) ∷ (LedState.off, pos 1699999) ∷ []

in_hold : Before (pos 500000 +ℤ pos (wake_ack_hold_ms * 1000)) calls
unfolding ◌+ℤ◌
in_hold = (refl, refl, (refl, refl, tt))

wake_ack_held_example :
    set_leds (apply_state fresh LedState.wake_ack (pos 500000)) calls
    ≡ apply_state fresh LedState.wake_ack (pos 500000)
wake_ack_held_example = wake_ack_held fresh (pos 500000) calls refl in_hold

-- The LED test page showed a state until two seconds.
abbrev tested : Ui
tested = record fresh { override_until_us = pos 2000000 }
