-- ===== src/App/Ui.antt =====
-- The LED arbiter, firmware/components/pv_app/include/app/ui.hpp and src/ui.cpp. Times are the
-- int64_t microseconds of `esp_timer_get_time`. The LED ring of pv_hal is the list of the commands
-- that it was sent, the newest last. The lock is left out: each method holds it from start to end.
mod Holds
mod Tests
use pipecat_voice_assistant.Prelude.{
  ℕ, ◌*◌, Bool, true, false, not, ◌&&◌, Option, none, some, List, [], ◌∷◌, ◌++◌, if◌then◌else◌,
  ◌==◌,
}
use pipecat_voice_assistant.Prelude.Int.{ℤ, pos, ◌+ℤ◌, ◌*ℤ◌, ltb_ℤ}
use pipecat_voice_assistant.Domain.LedFsm.{LedState, LedInputs, resolve_led_state}

pub data Effect : Type 0 where
  effect_off breath rainbow solid doa : Effect

pub record Rgb : Type 0 where
  pub r : ℕ
  pub g : ℕ
  pub b : ℕ

-- The calls on hal::Xvf3800.
pub data RingCommand : Type 0 where
  set_brightness : ℕ → RingCommand
  set_speed : ℕ → RingCommand
  set_effect : Effect → RingCommand
  set_color : Rgb → RingCommand

pub record Ui : Type 0 where
  pub last_pushed : LedState
  pub hold_until_us : ℤ
  pub override_until_us : ℤ
  pub force : Bool
  pub ring : List RingCommand

abbrev pub wake_ack_hold_ms : ℕ
wake_ack_hold_ms = 1200

abbrev rgb : ℕ → ℕ → ℕ → Rgb
rgb x y z = record { r = x; g = y; b = z }

abbrev lit : Rgb → Effect → List RingCommand
lit colour e = set_color colour ∷ set_effect e ∷ []

-- The place of a state in the enum.
abbrev pub led_index : LedState → ℕ
led_index LedState.off = 0
led_index LedState.provisioning = 1
led_index LedState.connecting = 2
led_index LedState.negotiating = 3
led_index LedState.listening = 4
led_index LedState.talking = 5
led_index LedState.thinking = 6
led_index LedState.wake_ack = 7
led_index LedState.speaking = 8
led_index LedState.muted = 9
led_index LedState.error = 10

-- The `switch` of `applyState`.
unfoldable pub look : LedState → List RingCommand
look LedState.off = set_effect effect_off ∷ []
look LedState.provisioning = set_effect rainbow ∷ []
look LedState.connecting = lit (rgb 0 64 255) breath
look LedState.negotiating = lit (rgb 144 0 255) breath
look LedState.listening = lit (rgb 0 128 16) solid
look LedState.talking = lit (rgb 0 128 128) solid
look LedState.thinking = lit (rgb 255 128 0) breath
look LedState.wake_ack = lit (rgb 128 128 128) solid
look LedState.speaking = lit (rgb 255 16 128) breath
look LedState.muted = lit (rgb 128 0 0) solid
look LedState.error = lit (rgb 255 0 0) breath

-- The commands for a state: the levels, then what tells it from the others.
unfoldable pub commands : LedState → List RingCommand
unfolding look
commands s = set_brightness 128 ∷ set_speed 64 ∷ look s

unfoldable pub ui_init : List RingCommand → Ui
ui_init sent = record {
  last_pushed = LedState.off;
  hold_until_us = pos 0;
  override_until_us = pos 0;
  force = false;
  ring = sent ++ (set_brightness 128 ∷ set_speed 64 ∷ set_effect effect_off ∷ []);
}

unfoldable pub apply_state : Ui → LedState → ℤ → Ui
apply_state ui s now = record ui {
  last_pushed = s;
  ring = ui.ring ++ commands s;
  hold_until_us =
      if led_index s == 7 then now +ℤ pos (wake_ack_hold_ms * 1000) else ui.hold_until_us;
}

abbrev pub is_zero : ℤ → Bool
is_zero (pos ℕ.zero) = true
is_zero _ = false

-- The answer, and the object after it.
unfoldable pub override_active : Ui → ℤ → Bool × Ui
override_active ui now =
    if is_zero ui.override_until_us
    then (false, ui)
    else if ltb_ℤ now ui.override_until_us
    then (true, ui)
    else (false, record ui { override_until_us = pos 0; force = true })

-- `setLed` behind its override gate.
unfoldable pub set_led_unowned : Ui → LedState → ℤ → Ui
set_led_unowned ui s now =
    if not (led_index s == 7) && ltb_ℤ now ui.hold_until_us
    then ui
    else if not ui.force && (led_index s == led_index ui.last_pushed)
    then ui
    else apply_state (record ui { force = false }) s now

unfoldable pub set_led : Ui → LedState → ℤ → Ui
set_led ui s now =
    let (owned, ui') = override_active ui now in if owned then ui' else set_led_unowned ui' s now

unfoldable pub override_effect : Ui → Effect → Rgb → ℕ → ℕ → ℤ → ℤ → Ui
override_effect ui e colour brightness speed hold_ms now = record ui {
  override_until_us = now +ℤ hold_ms *ℤ pos 1000;
  ring =
      ui.ring
      ++ (set_color colour ∷ set_brightness brightness ∷ set_speed speed ∷ set_effect e ∷ []);
}

unfoldable pub override_state : Ui → LedState → ℤ → ℤ → Ui
override_state ui s hold_ms now =
    apply_state (record ui { override_until_us = now +ℤ hold_ms *ℤ pos 1000 }) s now

unfoldable pub resume_auto : Ui → Ui
resume_auto ui = record ui { override_until_us = pos 0; force = true }

unfoldable pub tick : Ui → LedInputs → ℤ → Ui
tick ui inputs now = elim (resolve_led_state inputs) [ none ↦ ui | some s ↦ set_led ui s now ]

-- A run of `setLed` calls at their times.
unfoldable pub set_leds : Ui → List (LedState × ℤ) → Ui
set_leds ui [] = ui
set_leds ui ((s, now) ∷ calls) = set_leds (set_led ui s now) calls
