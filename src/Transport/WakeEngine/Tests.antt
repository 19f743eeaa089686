-- ===== src/Transport/WakeEngine/Tests.antt =====
-- Two frames against a model that is always sure, and the theorem applied to them.
use pipecat_voice_assistant.Prelude.{refl, List, [], ◌∷◌, replicate}
use pipecat_voice_assistant.Prelude.Int.{pos}
use pipecat_voice_assistant.WakeWord.Tests.{lib, ready}
use pipecat_voice_assistant.Transport.WakeEngine.Heard.{
  Apart, Frame, heard_stamps, heard_stamps-Apart,
}

-- Five inferences in half a second from three seconds on, and the same again at four.
abbrev frames : List (Frame lib)
frames = (replicate 2400 (pos 5), λ n. 3000000) ∷ (replicate 2400 (pos 5), λ n. 4000000) ∷ []

heard_stamps-Apart_example : Apart 0 (heard_stamps lib ready frames)
heard_stamps-Apart_example = heard_stamps-Apart lib ready frames refl
