-- ===== src/Transport/WakeEngine.antt =====
-- The wake engine, firmware/components/pv_transport/src/wake_engine.cpp, which forwards to the wake
-- word component, and its use for a frame in `captureTask` of pv_app/src/session.cpp.
mod Heard
mod Tests
use pipecat_voice_assistant.Prelude.{ℕ, Bool, Option, none, some, List, [], ◌∷◌}
use pipecat_voice_assistant.Prelude.Int.{ℤ}
use pipecat_voice_assistant.WakeWord.{WakeLib, WakeMetrics, WakeWord, wake_word_detected}
use pipecat_voice_assistant.WakeWord.Process.{
  Outcome, ok, invalid_state, overrun, null_tensor, out_of_fuel, wake_word_process,
}

module _ (lib : WakeLib) where
  unfoldable pub process : WakeWord lib → List ℤ → (ℕ → ℕ) → Outcome (WakeWord lib)
  process s pcm clock = wake_word_process lib s pcm clock

  unfoldable pub detected : WakeWord lib → WakeWord lib × Bool
  detected s = wake_word_detected lib s

  unfoldable pub last_metrics : WakeWord lib → WakeMetrics lib
  last_metrics s = s.metrics

  -- `process`, whose error is ignored, and `detected`; `none` where the behaviour is undefined.
  unfoldable pub poll : WakeWord lib → Outcome (WakeWord lib) → Option (WakeWord lib × Bool)
  poll s (ok t) = some (detected t)
  poll s invalid_state = some (detected s)
  poll s overrun = none
  poll s null_tensor = none
  poll s out_of_fuel = none

  unfoldable pub hear : WakeWord lib → List ℤ → (ℕ → ℕ) → Option (WakeWord lib × Bool)
  hear s pcm clock = poll s (process s pcm clock)
