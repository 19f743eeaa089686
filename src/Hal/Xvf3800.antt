-- ===== src/Hal/Xvf3800.antt =====
-- The LED ring's I2C frames, xvf3800.cpp. The bus is not modelled: a call yields the bytes that it
-- transmits, or ESP_ERR_INVALID_SIZE.
mod Frames
mod Tests
use pipecat_voice_assistant.Prelude.{
  ℕ, Option, none, some, List, [], ◌∷◌, ◌++◌, Bytes, if◌then◌else◌, ltb, length,
}
use pipecat_voice_assistant.App.Ui.{
  Effect, effect_off, breath, rainbow, solid, doa, Rgb, RingCommand, set_brightness, set_speed,
  set_effect, set_color,
}

abbrev pub max_payload_bytes : ℕ
max_payload_bytes = 32

abbrev pub resid_gpo : ℕ
resid_gpo = 20

abbrev pub cmd_led_effect : ℕ
cmd_led_effect = 12

abbrev pub cmd_led_brightness : ℕ
cmd_led_brightness = 13

abbrev pub cmd_led_speed : ℕ
cmd_led_speed = 15

abbrev pub cmd_led_color : ℕ
cmd_led_color = 16

abbrev pub effect_id : Effect → ℕ
effect_id effect_off = 0
effect_id breath = 1
effect_id rainbow = 2
effect_id solid = 3
effect_id doa = 4

unfoldable pub write : ℕ → ℕ → Bytes → Option Bytes
write resid cmd payload =
    let n = length payload in
    if ltb max_payload_bytes n then none else some (resid ∷ cmd ∷ n ∷ payload)

-- setEffect, setBrightness, setSpeed and setColor.
unfoldable pub transmit : RingCommand → Option Bytes
unfolding write
transmit (set_effect e) = write resid_gpo cmd_led_effect (effect_id e ∷ [])
transmit (set_brightness b) = write resid_gpo cmd_led_brightness (b ∷ [])
transmit (set_speed s) = write resid_gpo cmd_led_speed (s ∷ [])
transmit (set_color c) = write resid_gpo cmd_led_color (c.b ∷ c.g ∷ c.r ∷ 0 ∷ [])
