-- ===== src/WakeWord/Tests.antt =====
-- A small instance of the wake word's libraries, with probabilities in hundredths, and the theorems
-- applied to it.
use pipecat_voice_assistant.Prelude.{
  ℕ, ◌+◌, ◌*◌, ◌/◌, ◌%◌, ◌≤◌, ◌≡◌, ◌↔◌, ◌⊎◌, refl, true, false, some, List, [], ◌∷◌, ltb, leb, min,
  replicate, length, arith,
}
use pipecat_voice_assistant.Prelude.Int.{pos, negsuc, magnitude}
use pipecat_voice_assistant.WakeWord.{
  WakeLib, WakeWord, update_window, record_probability, judge, should_fire, fire, hits_of, peak_of,
  average_of, count_hits, peak_from, sum_from,
}
use pipecat_voice_assistant.WakeWord.Process.{
  overrun, wake_word_process, frontend_feature_size, ww_max_input_slices,
}
use pipecat_voice_assistant.WakeWord.Init.{InitAnswers, wake_word_init, esp_ok, esp_fail}
use pipecat_voice_assistant.WakeWord.Window.{
  shifted, Tracks, Fires, StaysQuiet, update_window-Tracks,
}
use pipecat_voice_assistant.WakeWord.Fires.{SpacedFrom, fires_from, fires_from-Spaced}
use pipecat_voice_assistant.WakeWord.Returns.{
  IsReady, Succeeds, ReadsWithin, wake_word_process-Succeeds,
}
use pipecat_voice_assistant.WakeWord.Refused.{
  Prepares, accept_all, wake_word_init-IsReady, refused_init-overruns,
}

-- Floats are hundredths; the frontend reads up to 160 samples and emits one value for them.
abbrev pub lib : WakeLib
lib = record {
  F = ℕ;
  of_ℤ = λ z. magnitude z * 100;
  hundredths = λ n. n;
  lt = ltb;
  le = leb;
  add = λ x y. x + y;
  mul = λ x y. x * y / 100;
  div = λ x y. x * 100 / y;
  to_int = λ x. pos (x / 100);
  lround = λ x. pos (x / 100);
  Frontend = ℕ;
  frontend_process_samples = λ f pcm. (f + 1, min 160 (length pcm), 7 ∷ []);
  Interpreter = ℕ;
  invoke = λ i features. (i + 1, some 90);
}

abbrev pub booted : WakeWord lib
booted = record {
  loaded = false;
  tensors = false;
  frontend = 0;
  interpreter = 0;
  output_scale = 1;
  output_zero = pos 0;
  input_slices = 1;
  quant_mult = 0;
  quant_offset = 0;
  pending_features = replicate 320 (pos 0);
  pending_count = 0;
  prob_window = 0 ∷ 0 ∷ 0 ∷ 0 ∷ 0 ∷ [];
  prob_window_idx = 0;
  prob_window_count = 0;
  detected_latch = false;
  last_prob_x1000 = pos 0;
  metrics = record { fire_seq = 0; peak = 0; avg = 0; hits = 0; window = 0 ∷ 0 ∷ 0 ∷ 0 ∷ 0 ∷ [] };
  last_fire_us = 0;
}

abbrev answers : ℕ → InitAnswers lib
answers bytes = record {
  populate_state = true;
  populated = 0;
  arena_alloc = true;
  schema_matches = true;
  ops_added = true ∷ true ∷ [];
  allocator_create = true;
  resource_vars_create = true;
  interpreter = 0;
  allocate_tensors = true;
  input_bytes = bytes;
  input_scale = 10;
  input_zero = negsuc 127;
  output_scale = 1;
  output_zero = pos 0;
  frontend_scale = 4;
}

answers-Prepares : (bytes : ℕ) → Prepares lib (answers bytes)
answers-Prepares bytes = record {
  populated = refl;
  arena = refl;
  schema = refl;
  ops = refl;
  allocator = refl;
  variables = refl;
  tensors = refl;
}

-- The window of a real capture, and one whose mean is too low.
abbrev spoken : List (ℕ × ℕ)
spoken =
    (40, 3000000)
    ∷ (87, 3030000)
    ∷ (70, 3060000)
    ∷ (30, 3090000)
    ∷ (78, 3120000)
    ∷ (90, 3150000)
    ∷ []

one_fire : fires_from lib 0 booted spoken ≡ (3120000, 5) ∷ []
unfolding update_window record_probability judge should_fire fire hits_of peak_of average_of
    count_hits peak_from sum_from
one_fire = refl

booted-Tracks : Tracks lib [] booted
unfolding shifted
booted-Tracks = record { size = refl; index = omega arith; counted = refl; register = refl }

update_window-Tracks_example :
    Fires lib (95 ∷ []) 3000000 booted (update_window lib booted 95 3000000)
    ⊎ StaysQuiet lib (95 ∷ []) 3000000 booted (update_window lib booted 95 3000000)
update_window-Tracks_example = update_window-Tracks lib [] booted 95 3000000 booted-Tracks

fires_from-Spaced_example : SpacedFrom 0 (fires_from lib 0 booted spoken)
fires_from-Spaced_example = fires_from-Spaced lib [] booted spoken booted-Tracks

wake_word_init-IsReady_example :
    (((wake_word_init lib (answers 120) booted).1 ≡ esp_ok) ↔ (
      Prepares lib (answers 120)
      × (120 % frontend_feature_size ≡ 0)
      × (120 / frontend_feature_size ≤ ww_max_input_slices)))
    × ((wake_word_init lib (answers 120) booted).1 ≡ esp_ok
        → IsReady lib (wake_word_init lib (answers 120) booted).0)
wake_word_init-IsReady_example = wake_word_init-IsReady lib (answers 120) booted refl refl

reads : ReadsWithin lib
reads f pcm = ground arith

abbrev pub ready : WakeWord lib
ready = record booted { loaded = true; tensors = true; input_slices = 3 }

ready-IsReady : IsReady lib ready
ready-IsReady = record {
  loaded = refl;
  tensors = refl;
  slices = omega arith;
  pending = omega arith;
  buffer = refl;
}

wake_word_process-Succeeds_example :
    Succeeds lib (wake_word_process lib ready (replicate 480 (pos 5)) (λ n. 3000000))
wake_word_process-Succeeds_example =
    wake_word_process-Succeeds lib ready (replicate 480 (pos 5)) (λ n. 3000000) reads ready-IsReady

abbrev nine : List (List ℕ)
nine = replicate 9 (7 ∷ [])

refused_init-overruns_example :
    ((wake_word_init lib (answers 360) booted).1 ≡ esp_fail)
    × ((wake_word_init lib (answers 360) booted).0.loaded ≡ true)
    × (accept_all lib (wake_word_init lib (answers 360) booted).0 nine 0 ≡ overrun)
refused_init-overruns_example =
    refused_init-overruns lib (answers 360) booted nine 0 (answers-Prepares 360) refl (omega arith)
      refl refl refl (tt, (tt, (tt, (tt, (tt, (tt, (tt, (tt, (tt, tt)))))))))
