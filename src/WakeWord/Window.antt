-- ===== src/WakeWord/Window.antt =====
-- What an update does to the window: against a shift register of the probabilities since the last
-- fire.
use pipecat_voice_assistant.Prelude.{
  ℕ, zero, suc, ◌+◌, ◌%◌, ◌≤◌, ◌<◌, ◌≡◌, refl, sym, ap, ◌∙◌, true, false, ◌⊎◌, inl, inr, List, [],
  ◌∷◌, ◌++◌, ltb, leb, length, take, drop, set, replicate, min, length-set, length-append,
  Bool-cases, if_elim, arith,
}
use pipecat_voice_assistant.Prelude.Word.{u32}
use pipecat_voice_assistant.WakeWord.{
  WakeLib, WakeMetrics, WakeWord, wake_window_len, wake_min_hits, wake_cooldown_us,
  record_probability, fire, judge, should_fire, update_window, hits_of, peak_of, average_of,
}

module _ {ℓ} {A : Type ℓ} where
  -- A shift register after more values.
  unfoldable pub shifted : List A → List A → List A
  shifted w [] = w
  shifted w (p ∷ r) = shifted (drop 1 w ++ (p ∷ [])) r

  pub shifted-snoc :
      (w hist : List A) (p : A) → shifted w (hist ++ (p ∷ [])) ≡ drop 1 (shifted w hist) ++ (p ∷ [])
  unfolding shifted
  shifted-snoc w [] p = refl
  shifted-snoc w (q ∷ r) p = shifted-snoc (drop 1 w ++ (q ∷ [])) r p

  -- A ring of five read from its write index: the oldest value first.
  abbrev pub from_oldest : ℕ → List A → List A
  from_oldest idx w = drop idx w ++ take idx w

  pub from_oldest-set :
      (idx : ℕ) (w : List A) (p : A)
      → idx < 5
      → length w ≡ 5
      → from_oldest ((idx + 1) % 5) (set w idx p) ≡ drop 1 (from_oldest idx w) ++ (p ∷ [])
  from_oldest-set zero (a ∷ b ∷ c ∷ d ∷ e ∷ []) p h g = refl
  from_oldest-set (suc zero) (a ∷ b ∷ c ∷ d ∷ e ∷ []) p h g = refl
  from_oldest-set (suc (suc zero)) (a ∷ b ∷ c ∷ d ∷ e ∷ []) p h g = refl
  from_oldest-set (suc (suc (suc zero))) (a ∷ b ∷ c ∷ d ∷ e ∷ []) p h g = refl
  from_oldest-set (suc (suc (suc (suc zero)))) (a ∷ b ∷ c ∷ d ∷ e ∷ []) p h g = refl
  from_oldest-set (suc (suc (suc (suc (suc i))))) w p h g = absurd (omega arith)
  from_oldest-set idx [] p h g = absurd (omega arith)
  from_oldest-set idx (a ∷ []) p h g = absurd (omega arith)
  from_oldest-set idx (a ∷ b ∷ []) p h g = absurd (omega arith)
  from_oldest-set idx (a ∷ b ∷ c ∷ []) p h g = absurd (omega arith)
  from_oldest-set idx (a ∷ b ∷ c ∷ d ∷ []) p h g = absurd (omega arith)
  from_oldest-set idx (a ∷ b ∷ c ∷ d ∷ e ∷ f ∷ r) p h g = absurd (omega arith)

  from_oldest-replicate :
      (idx : ℕ) (z : A) → idx < 5 → from_oldest idx (replicate 5 z) ≡ replicate 5 z
  from_oldest-replicate zero z h = refl
  from_oldest-replicate (suc zero) z h = refl
  from_oldest-replicate (suc (suc zero)) z h = refl
  from_oldest-replicate (suc (suc (suc zero))) z h = refl
  from_oldest-replicate (suc (suc (suc (suc zero)))) z h = refl
  from_oldest-replicate (suc (suc (suc (suc (suc i))))) z h = absurd (omega arith)

module _ (lib : WakeLib) where
  open lib use {F, hundredths, le}

  abbrev pub no_samples : List F
  no_samples = replicate wake_window_len (hundredths 0)

  -- The window is the shift register of the probabilities since the last fire.
  pub record Tracks (hist : List F) (s : WakeWord lib) : Type 0 where
    pub size : length s.prob_window ≡ wake_window_len
    pub index : s.prob_window_idx < wake_window_len
    pub counted : s.prob_window_count ≡ min wake_window_len (length hist)
    pub register : from_oldest s.prob_window_idx s.prob_window ≡ shifted no_samples hist

  -- An update that fires.
  pub record Fires (hist : List F) (now_us : ℕ) (s t : WakeWord lib) : Type 0 where
    pub enough : wake_window_len ≤ length hist
    pub latched : t.detected_latch ≡ true
    pub cooled : s.last_fire_us + wake_cooldown_us < now_us
    pub stamped : t.last_fire_us ≡ now_us
    pub sequence : t.metrics.fire_seq ≡ u32 (s.metrics.fire_seq + 1)
    pub register : from_oldest t.prob_window_idx t.metrics.window ≡ shifted no_samples hist
    pub spikes : wake_min_hits ≤ hits_of lib t.metrics.window
    pub peak : le (hundredths 80) (peak_of lib t.metrics.window) ≡ true
    pub mean : le (hundredths 50) (average_of lib t.metrics.window) ≡ true
    pub damped : Tracks [] t

  -- Why a window does not fire.
  abbrev pub Reason : List F → ℕ → WakeWord lib → Type 0
  Reason hist now_us t =
      (length hist < wake_window_len)
      ⊎ (hits_of lib t.prob_window < wake_min_hits)
      ⊎ (le (hundredths 80) (peak_of lib t.prob_window) ≡ false)
      ⊎ (le (hundredths 50) (average_of lib t.prob_window) ≡ false)
      ⊎ (now_us ≤ t.last_fire_us + wake_cooldown_us)

  -- One that does not.
  pub record StaysQuiet (hist : List F) (now_us : ℕ) (s t : WakeWord lib) : Type 0 where
    pub latch : t.detected_latch ≡ s.detected_latch
    pub last : t.last_fire_us ≡ s.last_fire_us
    pub metrics : t.metrics ≡ s.metrics
    pub tracked : Tracks hist t
    pub reason : Reason hist now_us t

  record_probability-Tracks :
      (hist : List F) (s : WakeWord lib) (p : F)
      → Tracks hist s
      → Tracks (hist ++ (p ∷ [])) (record_probability lib s p)
  unfolding record_probability
  record_probability-Tracks hist s p h = record {
    size = length-set s.prob_window s.prob_window_idx p ∙ h.size;
    index = omega arith;
    counted = ground (arith, h.counted, length-append hist (p ∷ []));
    register =
        from_oldest-set s.prob_window_idx s.prob_window p h.index h.size
        ∙ ap (λ (w : List F). drop 1 w ++ (p ∷ [])) h.register
        ∙ sym (shifted-snoc no_samples hist p);
  }

  -- The decision after a recorded probability.
  judge-Fires :
      (hist : List F) (now_us : ℕ) (s : WakeWord lib)
      → Tracks hist s
      → leb wake_window_len (length hist) ≡ true
      → should_fire lib s now_us ≡ true
      → Fires hist now_us s (fire lib s now_us)
  unfolding fire should_fire shifted
  judge-Fires hist now_us s h full e = record {
    enough = ground arith;
    latched = refl;
    cooled = ground arith;
    stamped = refl;
    sequence = refl;
    register = h.register;
    spikes = ground arith;
    peak = ground arith;
    mean = ground arith;
    damped = record {
      size = refl;
      index = h.index;
      counted = refl;
      register = from_oldest-replicate s.prob_window_idx (hundredths 0) h.index;
    };
  }

  declines :
      (s : WakeWord lib) (hist : List F) (now_us : ℕ)
      → should_fire lib s now_us ≡ false
      → Reason hist now_us s
  unfolding should_fire
  declines s hist now_us e = elim (Bool-cases (leb wake_min_hits (hits_of lib s.prob_window))) [
    | inr h ↦ inr (inl (ground arith))
    | inl h ↦ elim (Bool-cases (le (hundredths 80) (peak_of lib s.prob_window))) [
      | inr g ↦ inr (inr (inl g))
      | inl g ↦ elim (Bool-cases (le (hundredths 50) (average_of lib s.prob_window))) [
        | inr k ↦ inr (inr (inr (inl k)))
        | inl k ↦ inr (inr (inr (inr (ground arith))))
      ]
    ]
  ]

  judge-Tracks :
      (hist : List F) (now_us : ℕ) (s : WakeWord lib)
      → Tracks hist s
      → Fires hist now_us s (judge lib s now_us) ⊎ StaysQuiet hist now_us s (judge lib s now_us)
  unfolding judge
  judge-Tracks hist now_us s h =
      let Goal : WakeWord lib → Type 0 = λ t. Fires hist now_us s t ⊎ StaysQuiet hist now_us s t in
      let quiet : Reason hist now_us s → Goal s = λ why.
        inr (record { latch = refl; last = refl; metrics = refl; tracked = h; reason = why }) in
      if_elim Goal (ltb s.prob_window_count wake_window_len)
        (λ below. quiet (inl (ground (arith, h.counted))))
        (λ full.
          if_elim Goal (should_fire lib s now_us)
            (λ e. inl (judge-Fires hist now_us s h (ground (arith, h.counted)) e))
            (λ e. quiet (declines s hist now_us e)))

  same_before :
      (hist : List F) (now_us : ℕ) (s s' t : WakeWord lib)
      → s'.detected_latch ≡ s.detected_latch
      → s'.last_fire_us ≡ s.last_fire_us
      → s'.metrics ≡ s.metrics
      → Fires hist now_us s' t ⊎ StaysQuiet hist now_us s' t
      → Fires hist now_us s t ⊎ StaysQuiet hist now_us s t
  same_before hist now_us s s' t a b c (inl f) = inl (record {
    enough = f.enough;
    latched = f.latched;
    cooled = ground (arith, f.cooled);
    stamped = f.stamped;
    sequence = f.sequence ∙ ap (λ (m : WakeMetrics lib). u32 (m.fire_seq + 1)) c;
    register = f.register;
    spikes = f.spikes;
    peak = f.peak;
    mean = f.mean;
    damped = f.damped;
  })
  same_before hist now_us s s' t a b c (inr q) = inr (record {
    latch = q.latch ∙ a;
    last = q.last ∙ b;
    metrics = q.metrics ∙ c;
    tracked = q.tracked;
    reason = q.reason;
  })

  -- Whatever was recorded since the last fire, an update leaves the window the shift register of
  -- it; it fires exactly when the five latest probabilities hold two hits, a peak of 0.80 and a
  -- mean of 0.50 and more than two seconds have passed since the last fire; it then latches, stamps
  -- and counts the fire, publishes the window that fired and empties it, and otherwise leaves the
  -- latch, the stamp and the metrics. (The hits need not be consecutive.)
  pub update_window-Tracks :
      (hist : List F) (s : WakeWord lib) (prob : F) (now_us : ℕ)
      → Tracks hist s
      → Fires (hist ++ (prob ∷ [])) now_us s (update_window lib s prob now_us)
        ⊎ StaysQuiet (hist ++ (prob ∷ [])) now_us s (update_window lib s prob now_us)
  unfolding update_window record_probability
  update_window-Tracks hist s prob now_us h =
      same_before (hist ++ (prob ∷ [])) now_us s (record_probability lib s prob)
        (update_window lib s prob now_us) refl refl refl
        (judge-Tracks (hist ++ (prob ∷ [])) now_us (record_probability lib s prob)
          (record_probability-Tracks hist s prob h))
