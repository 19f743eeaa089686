-- ===== src/Transport/WakeEngine/Heard.antt =====
-- How far apart the frames are that hear the wake word.
use mathlib.Core.Path.{subst}
use pipecat_voice_assistant.Prelude.{
  ℕ, ◌+◌, ◌<◌, ◌≡◌, refl, Bool, true, false, Option, none, some, List, [], ◌∷◌, inl, inr, arith,
}
use pipecat_voice_assistant.Prelude.Int.{ℤ}
use pipecat_voice_assistant.WakeWord.{WakeLib, WakeWord, wake_cooldown_us, wake_word_detected}
use pipecat_voice_assistant.WakeWord.Process.{
  Outcome, ok, invalid_state, overrun, null_tensor, out_of_fuel, wake_word_process,
}
use pipecat_voice_assistant.WakeWord.Latch.{Advances, AdvancesIfOk, wake_word_process-Advances}
use pipecat_voice_assistant.Transport.WakeEngine.{process, detected, poll, hear}

-- Each stamp more than the cooldown after the one before.
abbrev pub Apart : ℕ → List ℕ → Type 0
Apart last [] = Unit
Apart last (stamp ∷ r) = (last + wake_cooldown_us < stamp) × Apart stamp r

module _ (lib : WakeLib) where
  -- A frame's samples and the clock while it is processed.
  abbrev pub Frame : Type 0
  Frame = List ℤ × (ℕ → ℕ)

  -- The stamp of the fire that a frame reports, before those of the frames behind it; a frame with
  -- undefined behaviour ends the run.
  abbrev pub stamps_after : (WakeWord lib → List ℕ) → Option (WakeWord lib × Bool) → List ℕ
  stamps_after next none = []
  stamps_after next (some (t, false)) = next t
  stamps_after next (some (t, true)) = t.last_fire_us ∷ next t

  abbrev pub heard_stamps : WakeWord lib → List Frame → List ℕ
  heard_stamps s [] = []
  heard_stamps s ((pcm, clock) ∷ r) = stamps_after (λ t. heard_stamps t r) (hear lib s pcm clock)

  report_latch :
      (s t : WakeWord lib) (next : WakeWord lib → List ℕ) (latch : Bool)
      → t.detected_latch ≡ latch
      → s.detected_latch ≡ false
      → Advances lib s t
      → ((u : WakeWord lib) → u.detected_latch ≡ false → Apart u.last_fire_us (next u))
      → Apart s.last_fire_us (stamps_after next (some (record t { detected_latch = false }, latch)))
  report_latch s t next true e quiet (inl (a, b)) later = absurd (ground arith)
  report_latch s t next true e quiet (inr (a, b)) later =
      (b, later (record t { detected_latch = false }) refl)
  report_latch s t next false e quiet (inl (a, b)) later =
      subst (λ (n : ℕ). Apart n (next (record t { detected_latch = false }))) b
        (later (record t { detected_latch = false }) refl)
  report_latch s t next false e quiet (inr (a, b)) later = absurd (ground arith)

  report :
      (s t : WakeWord lib) (next : WakeWord lib → List ℕ)
      → s.detected_latch ≡ false
      → Advances lib s t
      → ((u : WakeWord lib) → u.detected_latch ≡ false → Apart u.last_fire_us (next u))
      → Apart s.last_fire_us (stamps_after next (some (detected lib t)))
  unfolding detected wake_word_detected
  report s t next quiet moved later = report_latch s t next t.detected_latch refl quiet moved later

  poll-Apart :
      (s : WakeWord lib) (o : Outcome (WakeWord lib)) (next : WakeWord lib → List ℕ)
      → s.detected_latch ≡ false
      → AdvancesIfOk lib s o
      → ((u : WakeWord lib) → u.detected_latch ≡ false → Apart u.last_fire_us (next u))
      → Apart s.last_fire_us (stamps_after next (poll lib s o))
  unfolding poll
  poll-Apart s (ok t) next quiet moved later = report s t next quiet moved later
  poll-Apart s invalid_state next quiet moved later = report s s next quiet (inl (refl, refl)) later
  poll-Apart s overrun next quiet moved later = tt
  poll-Apart s null_tensor next quiet moved later = tt
  poll-Apart s out_of_fuel next quiet moved later = tt

  -- In any run of frames that starts with the latch clear, the frames that report the wake word,
  -- up to the first with undefined behaviour, report fires that are more than two seconds apart, the
  -- first one more than two seconds after the stamp at the start: no fire is reported twice.
  pub heard_stamps-Apart :
      (s : WakeWord lib) (frames : List Frame)
      → s.detected_latch ≡ false
      → Apart s.last_fire_us (heard_stamps s frames)
  unfolding hear process
  heard_stamps-Apart s [] quiet = tt
  heard_stamps-Apart s ((pcm, clock) ∷ r) quiet =
      poll-Apart s (wake_word_process lib s pcm clock) (λ t. heard_stamps t r) quiet
        (wake_word_process-Advances lib s pcm clock) (λ u clear. heard_stamps-Apart u r clear)
