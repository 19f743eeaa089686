-- ===== src/Domain/EnergyGate/Tests.antt =====
-- The theorems on the energy primitives at a short frame.
use pipecat_voice_assistant.Prelude.{◌+◌, ◌≤◌, ◌≡◌, refl, List, [], ◌∷◌, arith}
use pipecat_voice_assistant.Prelude.Int.{ℤ, pos, negsuc}
use pipecat_voice_assistant.Domain.EnergyGate.{rms_i16}
use pipecat_voice_assistant.Domain.EnergyGate.Rms.{
  sum_of_squares, mean_square, slack, rms_near_root,
}

-- 3, -4: the mean square is 12.
abbrev short : List ℤ
short = pos 3 ∷ negsuc 3 ∷ []

rms-short : rms_i16 short ≡ 3
unfolding rms_i16
rms-short = refl

rms_near_root_example : (3 ≤ rms_i16 short) × (rms_i16 short ≤ 3 + slack (mean_square short))
unfolding sum_of_squares
rms_near_root_example =
    rms_near_root (pos 3) (negsuc 3 ∷ []) 3 (omega arith) (omega arith) (omega arith) (omega arith)
