-- ===== src/Hal/Xvf3800/Tests.antt =====
-- The frame of a colour.
use pipecat_voice_assistant.Prelude.{◌≡◌, refl, some, [], ◌∷◌}
use pipecat_voice_assistant.App.Ui.{RingCommand, set_color}
use pipecat_voice_assistant.Hal.Xvf3800.{transmit, write}

abbrev orange : RingCommand
orange = set_color (record { r = 255; g = 128; b = 0 })

orange_frame : transmit orange ≡ some (20 ∷ 16 ∷ 4 ∷ 0 ∷ 128 ∷ 255 ∷ 0 ∷ [])
unfolding transmit write
orange_frame = refl
