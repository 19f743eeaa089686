-- ===== src/Domain/WakeWindow/Refractory.antt =====
-- The detector's invariant, and how far apart two fires are.
use mathlib.Core.Path.{subst₂}
use pipecat_voice_assistant.Prelude.{
  suc, ◌+◌, ◌≤◌, ◌<◌, ◌≡◌, ◌⊎◌, ◌↔◌, inl, inr, Bool, true, false, Bool-cases, List, [], ◌∷◌,
  if◌then◌else◌, length, length-set, arith,
}
use pipecat_voice_assistant.Prelude.Int.{ℤ, pos_part, neg_part, ◌-ℤ◌, is_negative}
use pipecat_voice_assistant.Domain.WakeWindow.{
  Floats, wake_window_len, WakeWindow, record_sample, average, cooling, clamp, decide_fire, push,
  reset, push_all,
}

module _ (fl : Floats) where
  open fl use {F, of_ℕ, lt}

  pub record IsValid (w : WakeWindow fl) : Type 0 where
    pub full_size : length w.window ≡ wake_window_len
    pub index : w.idx < wake_window_len
    pub counted : w.count ≤ wake_window_len

  record_sample-IsValid :
      (w : WakeWindow fl) (prob : F) → IsValid w → IsValid (record_sample fl w prob)
  unfolding record_sample
  record_sample-IsValid w prob v = ground (arith, length-set w.window w.idx (clamp fl prob))

  decide_fire-IsValid : (w : WakeWindow fl) (now : ℤ) → IsValid w → IsValid (decide_fire fl w now).0
  unfolding decide_fire
  decide_fire-IsValid w now v = ground arith

  reset-IsValid : (w : WakeWindow fl) → IsValid (reset fl w)
  unfolding reset
  reset-IsValid w = ground arith

  -- The window keeps its eight entries, the index stays inside it and the count is at most eight,
  -- through every push and through a reset from any state.
  pub push-reset-IsValid :
      (w : WakeWindow fl) (prob : F) (now : ℤ)
      → (IsValid w → IsValid (push fl w prob now).0) × IsValid (reset fl w)
  unfolding push
  push-reset-IsValid w prob now = (
    λ v. decide_fire-IsValid (record_sample fl w prob) now (record_sample-IsValid w prob v),
    reset-IsValid w,
  )

  -- The time since the last fire is at least the cooldown, if there was a fire.
  abbrev pub Rested : ℤ → ℤ → ℤ → Type 0
  Rested cooldown last now =
      (is_negative last ≡ true)
      ⊎ (pos_part last + neg_part now + pos_part cooldown
          ≤ neg_part last + pos_part now + neg_part cooldown)

  cooling-Rested :
      (w : WakeWindow fl) (now : ℤ) → cooling fl w now ≡ false → Rested w.cooldown w.last_fire now
  unfolding cooling ◌-ℤ◌
  cooling-Rested w now h = ground arith

  Rested-cooling :
      (w : WakeWindow fl) (now : ℤ) → Rested w.cooldown w.last_fire now → cooling fl w now ≡ false
  unfolding cooling ◌-ℤ◌
  Rested-cooling w now h = ground arith

  fires_when :
      (w : WakeWindow fl) (now : ℤ)
      → ((decide_fire fl w now).1 ≡ true) ↔ (
          (wake_window_len ≤ w.count)
          × (lt (average fl w.window) w.threshold ≡ false)
          × Rested w.cooldown w.last_fire now)
  unfolding decide_fire
  fires_when w now =
      (λ h. ground (arith, cooling-Rested w now), λ h. ground (arith, Rested-cooling w now h.2))

  -- A push fires exactly when, with the new sample in, the window is full, its average is not below
  -- the threshold and the cooldown since the last fire is over.
  pub push_fires_iff :
      (w : WakeWindow fl) (prob : F) (now : ℤ)
      → let w' = record_sample fl w prob in
        ((push fl w prob now).1 ≡ true) ↔ (
          (wake_window_len ≤ w'.count)
          × (lt (average fl w'.window) w.threshold ≡ false)
          × Rested w.cooldown w.last_fire now)
  unfolding push
  push_fires_iff w prob now = unfold record_sample in fires_when (record_sample fl w prob) now

  -- A fire takes its time as the new last fire and starts the window anew; any other push keeps the
  -- last fire.
  push_effect :
      (w : WakeWindow fl) (prob : F) (now : ℤ)
      → let (w', fired) = push fl w prob now in
        (w'.cooldown ≡ w.cooldown)
        × (fired ≡ true → (w'.last_fire ≡ now) × (w'.count ≡ 0))
        × (fired ≡ false → (w'.last_fire ≡ w.last_fire) × (w'.count ≤ w.count + 1))
  unfolding push record_sample decide_fire
  push_effect w prob now = ground arith

  abbrev pub AllFalse : List Bool → Type 0
  AllFalse [] = Unit
  AllFalse (b ∷ r) = (b ≡ false) × AllFalse r

  needs_eight :
      (w : WakeWindow fl) (prob : F) (now : ℤ)
      → suc w.count < wake_window_len
      → (push fl w prob now).1 ≡ false
  unfolding push record_sample decide_fire
  needs_eight w prob now h = ground arith

  quiet_run :
      (w : WakeWindow fl) (samples : List (F × ℤ))
      → length samples + w.count < wake_window_len
      → AllFalse (push_all fl w samples).1
  unfolding push_all
  quiet_run w [] h = tt
  quiet_run w ((prob, now) ∷ r) h =
      let silent = needs_eight w prob now (omega arith) in
      (silent, quiet_run (push fl w prob now).0 r (ground (arith, push_effect w prob now)))

  -- After a reset, and after a fire, no run of up to seven samples fires.
  pub seven_quiet :
      (w : WakeWindow fl) (samples : List (F × ℤ))
      → length samples < wake_window_len
      → AllFalse (push_all fl (reset fl w) samples).1
        × ((prob : F) (now : ℤ)
            → (push fl w prob now).1 ≡ true
            → AllFalse (push_all fl (push fl w prob now).0 samples).1)
  seven_quiet w samples h = (
    quiet_run (reset fl w) samples (unfold reset in omega arith),
    λ prob now f. quiet_run (push fl w prob now).0 samples (ground (arith, push_effect w prob now)),
  )

  -- The times of the samples that fired, in order.
  unfoldable pub fire_times : WakeWindow fl → List (F × ℤ) → List ℤ
  fire_times w [] = []
  fire_times w ((prob, now) ∷ r) =
      let (w', fired) = push fl w prob now in
      let rest = fire_times w' r in if fired then now ∷ rest else rest

  -- Each time is rested after the one before it, the first one after `last`.
  abbrev pub Spaced : ℤ → ℤ → List ℤ → Type 0
  Spaced cooldown last [] = Unit
  Spaced cooldown last (t ∷ r) = Rested cooldown last t × Spaced cooldown t r

  -- In any run of samples, two consecutive fires are at least the cooldown apart, and the first one
  -- is at least the cooldown after the fire that the detector remembers.
  pub fire_times-Spaced :
      (w : WakeWindow fl) (samples : List (F × ℤ))
      → Spaced w.cooldown w.last_fire (fire_times w samples)
  unfolding fire_times
  fire_times-Spaced w [] = tt
  fire_times-Spaced w ((prob, now) ∷ r) =
      let w' = (push fl w prob now).0 in
      let ih = fire_times-Spaced w' r in
      let e = push_effect w prob now in
      elim (Bool-cases (push fl w prob now).1) [
        | inl f ↦ rw f (
          ((push_fires_iff w prob now).0 f).2,
          subst₂ (λ c l. Spaced c l (fire_times w' r)) e.0 (e.1 f).0 ih,
        )
        | inr f ↦ rw f (subst₂ (λ c l. Spaced c l (fire_times w' r)) e.0 (e.2 f).0 ih)
      ]
