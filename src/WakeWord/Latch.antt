-- ===== src/WakeWord/Latch.antt =====
-- The latch and the stamp of the last fire through a call of `wake_word_process`.
use pipecat_voice_assistant.Prelude.{
  ℕ, zero, suc, ◌+◌, ◌*◌, ◌<◌, ◌≡◌, refl, ◌∙◌, true, ◌⊎◌, inl, inr, Option, none, some, List, [],
  ◌∷◌, ltb, leb, ◌==◌, length, drop, take, if_elim, arith,
}
use pipecat_voice_assistant.Prelude.Int.{ℤ}
use pipecat_voice_assistant.WakeWord.{
  WakeLib, WakeWord, wake_window_len, wake_cooldown_us, record_probability, should_fire, fire,
  judge, update_window,
}
use pipecat_voice_assistant.WakeWord.Process.{
  Outcome, ok, invalid_state, overrun, null_tensor, out_of_fuel, frontend_feature_size, probability,
  after_invoke, run_wake_word, count_slice, store_slice, accept_slice, and_then, round,
  process_loop, wake_word_process,
}

module _ (lib : WakeLib) where
  open lib use {F}

  -- Nothing fired, or the latch is set and the stamp more than the cooldown later.
  abbrev pub Advances : WakeWord lib → WakeWord lib → Type 0
  Advances s t =
      ((t.detected_latch ≡ s.detected_latch) × (t.last_fire_us ≡ s.last_fire_us))
      ⊎ ((t.detected_latch ≡ true) × (s.last_fire_us + wake_cooldown_us < t.last_fire_us))

  abbrev pub AdvancesIfOk : WakeWord lib → Outcome (WakeWord lib) → Type 0
  AdvancesIfOk s (ok t) = Advances s t
  AdvancesIfOk s invalid_state = Unit
  AdvancesIfOk s overrun = Unit
  AdvancesIfOk s null_tensor = Unit
  AdvancesIfOk s out_of_fuel = Unit

  Advances-trans : (s t u : WakeWord lib) → Advances s t → Advances t u → Advances s u
  Advances-trans s t u (inl p) (inl q) = inl (q.0 ∙ p.0, q.1 ∙ p.1)
  Advances-trans s t u (inl p) (inr q) = inr (q.0, omega arith)
  Advances-trans s t u (inr p) (inl q) = inr (q.0 ∙ p.0, omega arith)
  Advances-trans s t u (inr p) (inr q) = inr (q.0, omega arith)

  advance_further :
      (s t : WakeWord lib) (o : Outcome (WakeWord lib))
      → Advances s t
      → AdvancesIfOk t o
      → AdvancesIfOk s o
  advance_further s t (ok u) h g = Advances-trans s t u h g
  advance_further s t invalid_state h g = tt
  advance_further s t overrun h g = tt
  advance_further s t null_tensor h g = tt
  advance_further s t out_of_fuel h g = tt

  update_window-Advances :
      (s : WakeWord lib) (prob : F) (now_us : ℕ) → Advances s (update_window lib s prob now_us)
  unfolding update_window judge record_probability
  update_window-Advances s prob now_us =
      let r = record_probability lib s prob in
      if_elim (Advances s) (ltb r.prob_window_count wake_window_len) (λ _. inl (refl, refl))
        (λ _.
          if_elim (Advances s) (should_fire lib r now_us)
            (λ h. unfold fire should_fire in inr (refl, ground arith)) (λ _. inl (refl, refl)))

  after_invoke-Advances :
      (s : WakeWord lib) (status : Option ℕ) (now_us : ℕ)
      → Advances s (after_invoke lib s status now_us)
  unfolding after_invoke
  after_invoke-Advances s none now_us = inl (refl, refl)
  after_invoke-Advances s (some raw) now_us =
      update_window-Advances s (probability lib s raw) now_us

  count_slice-Advances : (s : WakeWord lib) (now_us : ℕ) → AdvancesIfOk s (count_slice lib s now_us)
  unfolding count_slice run_wake_word
  count_slice-Advances s now_us =
      let s' : WakeWord lib = record s { pending_count = s.pending_count + 1 } in
      let (interpreter', status) =
        lib.invoke s.interpreter
          (take (s.input_slices * frontend_feature_size) s.pending_features) in
      let ran = after_invoke-Advances (record s' { interpreter = interpreter' }) status now_us in
      if_elim (AdvancesIfOk s) (leb s.input_slices (s.pending_count + 1))
        (λ _. if_elim (AdvancesIfOk s) s.tensors (λ _. ran) (λ _. tt)) (λ _. inl (refl, refl))

  store_slice-Advances :
      (s : WakeWord lib) (now_us : ℕ) (o : Outcome (List ℤ))
      → AdvancesIfOk s (store_slice lib s now_us o)
  unfolding store_slice
  store_slice-Advances s now_us (ok features) =
      advance_further s (record s { pending_features = features }) _ (inl (refl, refl))
        (count_slice-Advances (record s { pending_features = features }) now_us)
  store_slice-Advances s now_us invalid_state = tt
  store_slice-Advances s now_us overrun = tt
  store_slice-Advances s now_us null_tensor = tt
  store_slice-Advances s now_us out_of_fuel = tt

  accept_slice-Advances :
      (s : WakeWord lib) (values : List ℕ) (now_us : ℕ)
      → AdvancesIfOk s (accept_slice lib s values now_us)
  unfolding accept_slice
  accept_slice-Advances s [] now_us = inl (refl, refl)
  accept_slice-Advances s (v ∷ r) now_us = store_slice-Advances s now_us _

  and_then-Advances :
      (s : WakeWord lib) (o : Outcome (WakeWord lib)) (k : WakeWord lib → Outcome (WakeWord lib))
      → AdvancesIfOk s o
      → ((t : WakeWord lib) → AdvancesIfOk t (k t))
      → AdvancesIfOk s (and_then lib o k)
  unfolding and_then
  and_then-Advances s (ok t) k h later = advance_further s t (k t) h (later t)
  and_then-Advances s invalid_state k h later = tt
  and_then-Advances s overrun k h later = tt
  and_then-Advances s null_tensor k h later = tt
  and_then-Advances s out_of_fuel k h later = tt

  process_loop-Advances :
      (fuel : ℕ) (s : WakeWord lib) (pcm : List ℤ) (clock : ℕ → ℕ)
      → AdvancesIfOk s (process_loop lib fuel s pcm clock)
  unfolding process_loop round
  process_loop-Advances fuel s [] clock = inl (refl, refl)
  process_loop-Advances zero s (x ∷ pcm) clock = tt
  process_loop-Advances (suc fuel) s (x ∷ pcm) clock =
      let (frontend', consumed, values) = lib.frontend_process_samples s.frontend (x ∷ pcm) in
      let s' : WakeWord lib = record s { frontend = frontend' } in
      let now_us = clock (length (x ∷ pcm)) in
      if_elim (AdvancesIfOk s) (consumed == 0) (λ _. inl (refl, refl))
        (λ _.
          if_elim (AdvancesIfOk s) (ltb (length (x ∷ pcm)) consumed) (λ _. tt)
            (λ _. advance_further s s' _ (inl (refl, refl)) (
              and_then-Advances s' (accept_slice lib s' values now_us)
                (λ t. process_loop lib fuel t (drop consumed (x ∷ pcm)) clock)
                (accept_slice-Advances s' values now_us)
                (λ t. process_loop-Advances fuel t (drop consumed (x ∷ pcm)) clock))))

  pub wake_word_process-Advances :
      (s : WakeWord lib) (pcm : List ℤ) (clock : ℕ → ℕ)
      → AdvancesIfOk s (wake_word_process lib s pcm clock)
  unfolding wake_word_process
  wake_word_process-Advances s pcm clock =
      if_elim (AdvancesIfOk s) s.loaded (λ _. process_loop-Advances (length pcm) s pcm clock)
        (λ _. tt)
