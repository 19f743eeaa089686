-- ===== src/Domain/WakeWindow/Tests.antt =====
-- The theorems on the wake detector with probabilities in hundredths.
use pipecat_voice_assistant.Prelude.{ℕ, ◌+◌, ◌*◌, ◌/◌, List, [], ◌∷◌, ltb, replicate, arith}
use pipecat_voice_assistant.Prelude.Int.{ℤ, pos}
use pipecat_voice_assistant.Domain.WakeWindow.{Floats, WakeWindow}
use pipecat_voice_assistant.Domain.WakeWindow.Refractory.{IsValid}

-- A probability is a number of hundredths.
abbrev hundredths : Floats
hundredths = record {
  F = ℕ;
  of_ℕ = λ n. n * 100;
  lt = ltb;
  add = λ a b. a + b;
  div = λ a b. a * 100 / b;
}

abbrev detector : WakeWindow hundredths
detector = record {
  threshold = 10;
  cooldown = pos 2000;
  window = replicate 8 50;
  idx = 3;
  count = 8;
  last_prob = 50;
  last_fire = pos 1000;
}

abbrev samples : List (ℕ × ℤ)
samples = (90, pos 2500) ∷ (90, pos 3000) ∷ (90, pos 3030) ∷ []

detector-IsValid : IsValid hundredths detector
detector-IsValid = omega arith
