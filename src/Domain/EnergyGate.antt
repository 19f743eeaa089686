-- ===== src/Domain/EnergyGate.antt =====
-- The audio-energy primitives, firmware/components/pv_domain/include/domain/energy_gate.hpp and
-- src/energy_gate.cpp. A frame is the list of its int16 samples; an empty list is `n == 0` (the
-- null pointer that the code also tests for is the empty frame here).
mod Rms
mod Peak
mod Tests
use pipecat_voice_assistant.Prelude.{
  ℕ, zero, suc, ◌+◌, ◌*◌, ◌/◌, ◌<◌, ◌≤◌, List, [], ◌∷◌, if◌then◌else◌, ltb, ◌==◌, length,
}
use pipecat_voice_assistant.Prelude.Int.{ℤ, magnitude}
use pipecat_voice_assistant.Prelude.Word.{u32, u64}

-- A value of int16_t.
abbrev pub IsInt16 : ℤ → Type 0
IsInt16 s = magnitude s ≤ 32768

-- `sumsq += (uint64_t)(s * s)`; the square of an int16 fits int32.
sumsq_from : ℕ → List ℤ → ℕ
sumsq_from acc [] = acc
sumsq_from acc (s ∷ r) = sumsq_from (u64 (acc + magnitude s * magnitude s)) r

-- `guess = (guess + meansq / guess) / 2` on uint32_t, the given number of times.
newton : ℕ → ℕ → ℕ → ℕ
newton zero meansq guess = guess
newton (suc k) meansq guess = newton k meansq (u32 (guess + meansq / guess) / 2)

-- What follows the mean: `if (meansq == 0) return 0;` and the loop.
root_of_mean : ℕ → ℕ
root_of_mean meansq =
    if meansq == 0 then 0 else newton 8 meansq (if ltb 65536 meansq then 256 else 16)

pub rms_i16 : List ℤ → ℕ
unfolding sumsq_from newton root_of_mean
rms_i16 [] = 0
rms_i16 (s ∷ r) = root_of_mean (u32 (sumsq_from 0 (s ∷ r) / length (s ∷ r)))

peak_from : ℕ → List ℤ → ℕ
peak_from peak [] = peak
peak_from peak (s ∷ r) = peak_from (if ltb peak (magnitude s) then magnitude s else peak) r

pub peak_abs_i16 : List ℤ → ℕ
unfolding peak_from
peak_abs_i16 frame = peak_from 0 frame
