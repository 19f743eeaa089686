-- ===== src/Hal/Xvf3800/Frames.antt =====
-- The frames tell the commands apart.
use pipecat_voice_assistant.Prelude.{
  ℕ, ◌≡◌, refl, ◌&&◌, Option, none, some, [], ◌∷◌, Bytes, if◌then◌else◌, ◌==◌,
}
use pipecat_voice_assistant.App.Ui.{
  Effect, effect_off, breath, rainbow, solid, doa, RingCommand, set_brightness, set_speed,
  set_effect, set_color,
}
use pipecat_voice_assistant.Hal.Xvf3800.{
  resid_gpo, cmd_led_effect, cmd_led_brightness, cmd_led_speed, cmd_led_color, write, transmit,
}

-- What the chip makes of a frame of its LED servicer, from the documented layout.
abbrev pub effect_of : ℕ → Option Effect
effect_of v =
    if v == 0
    then some effect_off
    else if v == 1
    then some breath
    else if v == 2
    then some rainbow
    else if v == 3
    then some solid
    else if v == 4
    then some doa
    else none

abbrev pub effect_command : Option Effect → Option RingCommand
effect_command none = none
effect_command (some e) = some (set_effect e)

abbrev pub one_byte : ℕ → ℕ → Option RingCommand
one_byte cmd v =
    if cmd == cmd_led_effect
    then effect_command (effect_of v)
    else if cmd == cmd_led_brightness
    then some (set_brightness v)
    else if cmd == cmd_led_speed
    then some (set_speed v)
    else none

abbrev pub read_payload : ℕ → ℕ → Bytes → Option RingCommand
read_payload cmd n (v ∷ []) = if n == 1 then one_byte cmd v else none
read_payload cmd n (b ∷ g ∷ r ∷ x ∷ []) =
    if (cmd == cmd_led_color) && (n == 4)
    then some (set_color (record { r = r; g = g; b = b }))
    else none
read_payload cmd n other = none

abbrev pub read_frame : Bytes → Option RingCommand
read_frame (resid ∷ cmd ∷ n ∷ payload) =
    if resid == resid_gpo then read_payload cmd n payload else none
read_frame other = none

abbrev pub read_back : Option Bytes → Option RingCommand
read_back none = none
read_back (some frame) = read_frame frame

-- Every command of the ring goes out as one frame, which reads back as the command.
pub transmit-read_back : (c : RingCommand) → read_back (transmit c) ≡ some c
unfolding transmit write
transmit-read_back (set_effect effect_off) = refl
transmit-read_back (set_effect breath) = refl
transmit-read_back (set_effect rainbow) = refl
transmit-read_back (set_effect solid) = refl
transmit-read_back (set_effect doa) = refl
transmit-read_back (set_brightness b) = refl
transmit-read_back (set_speed s) = refl
transmit-read_back (set_color c) = refl
