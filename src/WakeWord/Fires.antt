-- ===== src/WakeWord/Fires.antt =====
-- The fires of a run of probabilities.
use mathlib.Core.Path.{subst}
use pipecat_voice_assistant.Prelude.{
  ℕ, ◌+◌, ◌≤◌, ◌<◌, ◌≡◌, ap, false, inl, inr, List, [], ◌∷◌, ◌++◌, if◌then◌else◌, ◌==◌, length,
  arith, length-append, if_elim,
}
use pipecat_voice_assistant.Prelude.Word.{u32}
use pipecat_voice_assistant.WakeWord.{
  WakeLib, WakeMetrics, WakeWord, wake_window_len, wake_cooldown_us, update_window,
}
use pipecat_voice_assistant.WakeWord.Window.{Tracks, update_window-Tracks}

-- Each entry of a log is the time of a fire and the count of probabilities since the one before.
abbrev pub Log : Type 0
Log = List (ℕ × ℕ)

abbrev pub SpacedFrom : ℕ → Log → Type 0
SpacedFrom last [] = Unit
SpacedFrom last ((now_us, since) ∷ r) =
    (last + wake_cooldown_us < now_us) × (wake_window_len ≤ since) × SpacedFrom now_us r

module _ (lib : WakeLib) where
  open lib use {F}

  -- What a run of updates, each with its time, fires: a fire is a changed `fire_seq`.
  abbrev pub fires_from : ℕ → WakeWord lib → List (F × ℕ) → Log
  fires_from since s [] = []
  fires_from since s ((prob, now_us) ∷ r) =
      let t = update_window lib s prob now_us in
      let quiet = fires_from (since + 1) t r in
      let fired = fires_from 0 t r in
      if t.metrics.fire_seq == s.metrics.fire_seq then quiet else (now_us, since + 1) ∷ fired

  changed : (n : ℕ) → (u32 (n + 1) == n) ≡ false
  changed n = ground arith

  -- From a window that tracks what was recorded, two fires are more than two seconds and at least
  -- five probabilities apart, the first one more than two seconds after the stamp of the window.
  pub fires_from-Spaced :
      (hist : List F) (s : WakeWord lib) (updates : List (F × ℕ))
      → Tracks lib hist s
      → SpacedFrom s.last_fire_us (fires_from (length hist) s updates)
  fires_from-Spaced hist s [] h = tt
  fires_from-Spaced hist s ((prob, now_us) ∷ r) h =
      let t = update_window lib s prob now_us in
      elim (update_window-Tracks lib hist s prob now_us h) [
        | inl f ↦
            let rest : SpacedFrom t.last_fire_us (fires_from 0 t r) =
              fires_from-Spaced [] t r f.damped in
            if_elim (SpacedFrom s.last_fire_us) (t.metrics.fire_seq == s.metrics.fire_seq)
              (λ same. absurd (ground (arith, f.sequence, changed s.metrics.fire_seq)))
              (λ _. (
                f.cooled,
                omega (arith, f.enough, length-append hist (prob ∷ [])),
                subst (λ (n : ℕ). SpacedFrom n (fires_from 0 t r)) f.stamped rest,
              ))
        | inr q ↦
            let rest : SpacedFrom t.last_fire_us (fires_from (length (hist ++ (prob ∷ []))) t r) =
              fires_from-Spaced (hist ++ (prob ∷ [])) t r q.tracked in
            if_elim (SpacedFrom s.last_fire_us) (t.metrics.fire_seq == s.metrics.fire_seq)
              (λ _.
                subst (λ (n : ℕ). SpacedFrom s.last_fire_us (fires_from n t r))
                  (length-append hist (prob ∷ []))
                  (subst (λ (n : ℕ). SpacedFrom n (fires_from (length (hist ++ (prob ∷ []))) t r))
                    q.last rest))
              (λ differs.
                absurd (ground (arith, ap (λ (m : WakeMetrics lib). m.fire_seq) q.metrics)))
      ]
