-- ===== src/Domain/EnergyGate/Peak.antt =====
-- The peak of a frame is its largest magnitude.
use pipecat_voice_assistant.Prelude.{
  ℕ, ◌≤◌, ◌≡◌, refl, ◌⊎◌, inl, inr, List, [], ◌∷◌, Bool-cases, ltb, arith, All, if◌then◌else◌,
}
use pipecat_voice_assistant.Prelude.Int.{ℤ, magnitude}
use pipecat_voice_assistant.Domain.EnergyGate.{peak_from, peak_abs_i16}

-- Some sample of the frame has this magnitude.
abbrev pub Attained : ℕ → List ℤ → Type 0
Attained m [] = ⊥
Attained m (s ∷ r) = (magnitude s ≡ m) ⊎ Attained m r

peak_from_bound :
    (peak : ℕ) (frame : List ℤ)
    → (peak ≤ peak_from peak frame) × All (λ s. magnitude s ≤ peak_from peak frame) frame
unfolding peak_from
peak_from_bound peak [] = (omega arith, tt)
peak_from_bound peak (s ∷ r) =
    let best = if ltb peak (magnitude s) then magnitude s else peak in
    let (above, rest) = peak_from_bound best r in (ground arith, (ground arith, rest))

peak_from-Attained :
    (peak : ℕ) (frame : List ℤ)
    → (peak_from peak frame ≡ peak) ⊎ Attained (peak_from peak frame) frame
unfolding peak_from
peak_from-Attained peak [] = inl refl
peak_from-Attained peak (s ∷ r) =
    let best = if ltb peak (magnitude s) then magnitude s else peak in
    elim (peak_from-Attained best r) [
      | inr a ↦ inr (inr a)
      | inl e ↦ elim (Bool-cases (ltb peak (magnitude s))) [
        | inl louder ↦ inr (inl (ground arith))
        | inr softer ↦ inl (ground arith)
      ]
    ]

-- The peak bounds the magnitude of every sample, and is the magnitude of one of them, or 0.
pub peak-IsMaximum :
    (frame : List ℤ)
    → All (λ s. magnitude s ≤ peak_abs_i16 frame) frame
      × ((peak_abs_i16 frame ≡ 0) ⊎ Attained (peak_abs_i16 frame) frame)
unfolding peak_abs_i16
peak-IsMaximum frame = ((peak_from_bound 0 frame).1, peak_from-Attained 0 frame)
