-- ===== src/WakeWord.antt =====
-- The wake word component, firmware/components/wake_word/wake_word.cc: the probability window and
-- its fire, and the file's static variables. `WakeWord.Process` has the loop over the samples,
-- `WakeWord.Init` the initialisation.
--
-- `float`, the microfrontend, TensorFlow Lite and the clock are the record `WakeLib`, with no laws.
-- The clock counts microseconds since boot, so that the 64-bit times are natural numbers; a
-- subtraction that would be negative is 0, which fails the test against the cooldown as well. The
-- diagnostics under WAKE_DIAG_ENABLE, which is 0, are left out.
pub mod Process
pub mod Init
mod Window
mod Fires
mod Returns
mod Refused
pub mod Latch
pub mod Tests
use pipecat_voice_assistant.Prelude.{
  ℕ, zero, suc, ◌+◌, ◌-◌, ◌*◌, ◌%◌, Bool, true, false, ◌&&◌, Option, none, some, List, [], ◌∷◌,
  if◌then◌else◌, ltb, leb, set, replicate,
}
use pipecat_voice_assistant.Prelude.Int.{ℤ, pos}
use pipecat_voice_assistant.Prelude.Word.{u32}

pub record WakeLib : Type 1 where
  pub F : Type 0
  pub of_ℤ : ℤ → F
  -- The literal of so many hundredths, `0.60f`.
  pub hundredths : ℕ → F
  pub lt : F → F → Bool
  pub le : F → F → Bool
  pub add : F → F → F
  pub mul : F → F → F
  pub div : F → F → F
  -- The cast to int, and lroundf.
  pub to_int : F → ℤ
  pub lround : F → ℤ
  pub Frontend : Type 0
  -- FrontendProcessSamples: the state after it, `consumed`, and the slice's values (none when
  -- `size` is 0 or `values` is null).
  pub frontend_process_samples : Frontend → List ℤ → Frontend × ℕ × List ℕ
  pub Interpreter : Type 0
  -- Invoke on the input tensor: the first output byte, if the status is kTfLiteOk.
  pub invoke : Interpreter → List ℤ → Interpreter × Option ℕ

abbrev pub wake_window_len : ℕ
wake_window_len = 5

abbrev pub wake_min_hits : ℕ
wake_min_hits = 2

-- WAKE_COOLDOWN_MS * 1000.
abbrev pub wake_cooldown_us : ℕ
wake_cooldown_us = 2000 * 1000

module _ (lib : WakeLib) where
  open lib use {F, of_ℤ, hundredths, lt, le, add, mul, div, to_int, Frontend, Interpreter}

  pub record WakeMetrics : Type 0 where
    pub fire_seq : ℕ
    pub peak : F
    pub avg : F
    pub hits : ℕ
    pub window : List F

  -- The static variables.
  pub record WakeWord : Type 0 where
    -- Whether `s_ww` is set.
    pub loaded : Bool
    -- Whether `s_ww_input` and `s_ww_output` are.
    pub tensors : Bool
    pub frontend : Frontend
    pub interpreter : Interpreter
    pub output_scale : F
    pub output_zero : ℤ
    pub input_slices : ℕ
    pub quant_mult : F
    pub quant_offset : F
    pub pending_features : List ℤ
    pub pending_count : ℕ
    pub prob_window : List F
    pub prob_window_idx : ℕ
    pub prob_window_count : ℕ
    pub detected_latch : Bool
    pub last_prob_x1000 : ℤ
    pub metrics : WakeMetrics
    pub last_fire_us : ℕ

  -- One turn of the loop over the window.
  unfoldable pub count_hits : ℕ → List F → ℕ
  count_hits hits [] = hits
  count_hits hits (p ∷ r) = count_hits (if le (hundredths 60) p then hits + 1 else hits) r

  unfoldable pub peak_from : F → List F → F
  peak_from peak [] = peak
  peak_from peak (p ∷ r) = peak_from (if lt peak p then p else peak) r

  unfoldable pub sum_from : F → List F → F
  sum_from sum [] = sum
  sum_from sum (p ∷ r) = sum_from (add sum p) r

  unfoldable pub hits_of : List F → ℕ
  hits_of w = count_hits 0 w

  unfoldable pub peak_of : List F → F
  peak_of w = peak_from (hundredths 0) w

  unfoldable pub average_of : List F → F
  average_of w = div (sum_from (hundredths 0) w) (of_ℤ (pos wake_window_len))

  -- What precedes the early return: the probability is recorded.
  unfoldable pub record_probability : WakeWord → F → WakeWord
  record_probability s prob = record s {
    prob_window = set s.prob_window s.prob_window_idx prob;
    prob_window_idx = (s.prob_window_idx + 1) % wake_window_len;
    prob_window_count =
        if ltb s.prob_window_count wake_window_len
        then s.prob_window_count + 1
        else s.prob_window_count;
    last_prob_x1000 = to_int (mul prob (of_ℤ (pos 1000)));
  }

  -- The test of the spike cluster and the cooldown.
  unfoldable pub should_fire : WakeWord → ℕ → Bool
  should_fire s now_us =
      leb wake_min_hits (hits_of s.prob_window)
      && le (hundredths 80) (peak_of s.prob_window)
      && le (hundredths 50) (average_of s.prob_window)
      && ltb wake_cooldown_us (now_us - s.last_fire_us)

  unfoldable pub fire : WakeWord → ℕ → WakeWord
  fire s now_us = record s {
    metrics = record {
      fire_seq = u32 (s.metrics.fire_seq + 1);
      peak = peak_of s.prob_window;
      avg = average_of s.prob_window;
      hits = hits_of s.prob_window;
      window = s.prob_window;
    };
    last_fire_us = now_us;
    detected_latch = true;
    prob_window = replicate wake_window_len (hundredths 0);
    prob_window_count = 0;
  }

  unfoldable pub judge : WakeWord → ℕ → WakeWord
  judge s now_us =
      if ltb s.prob_window_count wake_window_len
      then s
      else if should_fire s now_us
      then fire s now_us
      else s

  unfoldable pub update_window : WakeWord → F → ℕ → WakeWord
  update_window s prob now_us = judge (record_probability s prob) now_us

  -- `atomic_exchange(&s_detected_latch, false)`.
  unfoldable pub wake_word_detected : WakeWord → WakeWord × Bool
  wake_word_detected s = (record s { detected_latch = false }, s.detected_latch)
