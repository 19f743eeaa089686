-- ===== src/Domain/LedFsm/Tests.antt =====
-- The theorems on the ring's state at concrete inputs.
use pipecat_voice_assistant.Prelude.{◌≡◌, refl, ◌↔◌, true, false, some}
use pipecat_voice_assistant.Prelude.Int.{pos, ◌-ℤ◌}
use pipecat_voice_assistant.Domain.LedFsm.{talking, LedInputs, since, resolve_led_state}
use pipecat_voice_assistant.Domain.LedFsm.Priority.{Shows, resolve_priority}

-- The user spoke 200 ms ago, in a turn.
abbrev spoke : LedInputs
spoke = record {
  now = pos 10_000;
  last_inbound_audio = pos 0;
  last_mic_active = pos 9_800;
  connected = true;
  muted = false;
  conversation_active = true;
}

resolve-spoke : resolve_led_state spoke ≡ some talking
unfolding resolve_led_state since ◌-ℤ◌
resolve-spoke = refl

resolve_priority_example : (resolve_led_state spoke ≡ some talking) ↔ Shows spoke (some talking)
resolve_priority_example = resolve_priority spoke (some talking)
