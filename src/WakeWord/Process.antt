-- ===== src/WakeWord/Process.antt =====
-- `run_wake_word` and `wake_word_process` of wake_word.cc. A write outside s_pending_features is
-- the outcome `overrun`, and so is a count of consumed samples above what was given. The while
-- loop runs on fuel, one round for each sample given to it.
use pipecat_voice_assistant.Prelude.{
  ℕ, zero, suc, ◌+◌, ◌*◌, Option, none, some, List, [], ◌∷◌, if◌then◌else◌, ltb, leb, ◌==◌, set,
  take, drop, length,
}
use pipecat_voice_assistant.Prelude.Int.{ℤ, pos, negsuc, ◌-ℤ◌, ltb_ℤ}
use pipecat_voice_assistant.WakeWord.{WakeLib, WakeWord, update_window}

abbrev pub frontend_feature_size : ℕ
frontend_feature_size = 40

abbrev pub ww_max_input_slices : ℕ
ww_max_input_slices = 8

-- How `wake_word_process` ends: with ESP_OK, with ESP_ERR_INVALID_STATE, or with the state at the
-- end of one of the outcomes that C does not report.
pub data Outcome (A : Type 0) : Type 0 where
  ok : A → Outcome A
  invalid_state overrun null_tensor out_of_fuel : Outcome A

module _ (lib : WakeLib) where
  open lib use {F, of_ℤ, hundredths, lt, add, mul, lround, frontend_process_samples, invoke}

  -- The clamp of the dequantised output.
  unfoldable pub probability : WakeWord lib → ℕ → F
  unfolding ◌-ℤ◌
  probability s raw =
      let prob = mul s.output_scale (of_ℤ (pos raw -ℤ s.output_zero)) in
      let prob' = if lt prob (hundredths 0) then hundredths 0 else prob in
      if lt (hundredths 100) prob' then hundredths 100 else prob'

  unfoldable pub after_invoke : WakeWord lib → Option ℕ → ℕ → WakeWord lib
  after_invoke s none now_us = s
  after_invoke s (some raw) now_us = update_window lib s (probability s raw) now_us

  unfoldable pub run_wake_word : WakeWord lib → ℕ → WakeWord lib
  run_wake_word s now_us =
      let (interpreter', status) =
        invoke s.interpreter (take (s.input_slices * frontend_feature_size) s.pending_features) in
      after_invoke (record s { interpreter = interpreter' }) status now_us

  -- `lroundf(value * s_quant_mult + s_quant_offset)`, clamped to int8_t.
  unfoldable pub quantize : WakeWord lib → ℕ → ℤ
  quantize s value =
      let v = lround (add (mul (of_ℤ (pos value)) s.quant_mult) s.quant_offset) in
      let v' = if ltb_ℤ v (negsuc 127) then negsuc 127 else v in
      if ltb_ℤ (pos 127) v' then pos 127 else v'

  -- The loop over at most so many values of a slice, from one index on.
  unfoldable pub write_slice : WakeWord lib → ℕ → ℕ → List ℕ → List ℤ → Outcome (List ℤ)
  write_slice s zero i values features = ok features
  write_slice s (suc room) i [] features = ok features
  write_slice s (suc room) i (v ∷ r) features =
      let rest = write_slice s room (i + 1) r (set features i (quantize s v)) in
      if ltb i (length features) then rest else overrun

  -- `if (++s_pending_count >= s_ww_input_slices)`.
  unfoldable pub count_slice : WakeWord lib → ℕ → Outcome (WakeWord lib)
  count_slice s now_us =
      let s' = record s { pending_count = s.pending_count + 1 } in
      if leb s.input_slices s'.pending_count
      then (if s.tensors
          then ok (record (run_wake_word s' now_us) { pending_count = 0 })
          else null_tensor)
      else ok s'

  unfoldable pub store_slice : WakeWord lib → ℕ → Outcome (List ℤ) → Outcome (WakeWord lib)
  store_slice s now_us (ok features) = count_slice (record s { pending_features = features }) now_us
  store_slice s now_us invalid_state = invalid_state
  store_slice s now_us overrun = overrun
  store_slice s now_us null_tensor = null_tensor
  store_slice s now_us out_of_fuel = out_of_fuel

  -- A round's slice, which may be empty.
  unfoldable pub accept_slice : WakeWord lib → List ℕ → ℕ → Outcome (WakeWord lib)
  accept_slice s [] now_us = ok s
  accept_slice s (v ∷ r) now_us = store_slice s now_us (
      write_slice s frontend_feature_size (s.pending_count * frontend_feature_size) (v ∷ r)
        s.pending_features)

  unfoldable pub and_then :
      Outcome (WakeWord lib) → (WakeWord lib → Outcome (WakeWord lib)) → Outcome (WakeWord lib)
  and_then (ok s) k = k s
  and_then invalid_state k = invalid_state
  and_then overrun k = overrun
  and_then null_tensor k = null_tensor
  and_then out_of_fuel k = out_of_fuel

  -- One round of `while (remaining > 0)`, and what the rounds after it do. The clock is read by
  -- what remains.
  unfoldable pub round :
      WakeWord lib
      → List ℤ
      → (ℕ → ℕ)
      → (WakeWord lib → List ℤ → Outcome (WakeWord lib))
      → Outcome (WakeWord lib)
  round s pcm clock next =
      let (frontend', consumed, values) = frontend_process_samples s.frontend pcm in
      let s' = record s { frontend = frontend' } in
      if consumed == 0
      then ok s'
      else if ltb (length pcm) consumed
      then overrun
      else (and_then (accept_slice s' values (clock (length pcm)))
          (λ t. next t (drop consumed pcm)))

  unfoldable pub process_loop : ℕ → WakeWord lib → List ℤ → (ℕ → ℕ) → Outcome (WakeWord lib)
  process_loop fuel s [] clock = ok s
  process_loop zero s (x ∷ pcm) clock = out_of_fuel
  process_loop (suc fuel) s (x ∷ pcm) clock =
      round s (x ∷ pcm) clock (λ t rest. process_loop fuel t rest clock)

  unfoldable pub wake_word_process : WakeWord lib → List ℤ → (ℕ → ℕ) → Outcome (WakeWord lib)
  wake_word_process s pcm clock =
      if s.loaded then process_loop (length pcm) s pcm clock else invalid_state
