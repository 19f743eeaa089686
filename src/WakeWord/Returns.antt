-- ===== src/WakeWord/Returns.antt =====
-- That `wake_word_process` returns, and keeps its buffer within bounds.
use pipecat_voice_assistant.Prelude.{
  ℕ, zero, suc, ◌+◌, ◌*◌, ◌≤◌, ◌<◌, ◌≡◌, refl, ap, ◌∙◌, true, Option, none, some, List, [], ◌∷◌,
  ltb, leb, ◌==◌, set, take, drop, length, max, length-set, length-drop, if_elim, arith,
}
use pipecat_voice_assistant.Prelude.Int.{ℤ}
use pipecat_voice_assistant.WakeWord.{
  WakeLib, WakeWord, update_window, judge, fire, record_probability,
}
use pipecat_voice_assistant.WakeWord.Process.{
  Outcome, ok, frontend_feature_size, ww_max_input_slices, write_slice, count_slice, store_slice,
  accept_slice, round, process_loop, wake_word_process, run_wake_word, after_invoke, and_then,
  quantize, probability,
}

module _ (lib : WakeLib) where
  open lib use {F, Frontend, frontend_process_samples}

  -- The module has initialised, and its next slice has room.
  pub record IsReady (s : WakeWord lib) : Type 0 where
    pub loaded : s.loaded ≡ true
    pub tensors : s.tensors ≡ true
    pub slices : s.input_slices ≤ ww_max_input_slices
    pub pending : s.pending_count < max 1 s.input_slices
    pub buffer : length s.pending_features ≡ frontend_feature_size * ww_max_input_slices

  -- FrontendProcessSamples reports no more samples as read than it was given.
  abbrev pub ReadsWithin : Type 0
  ReadsWithin = (f : Frontend) (pcm : List ℤ) → (frontend_process_samples f pcm).1 ≤ length pcm

  abbrev pub Succeeds : Outcome (WakeWord lib) → Type 0
  Succeeds r = (t : WakeWord lib) × (r ≡ ok t) × IsReady t

  -- What an inference leaves alone.
  record SameBuffer (s t : WakeWord lib) : Type 0 where
    loaded : t.loaded ≡ s.loaded
    tensors : t.tensors ≡ s.tensors
    slices : t.input_slices ≡ s.input_slices
    buffer : t.pending_features ≡ s.pending_features

  update_window-SameBuffer :
      (s : WakeWord lib) (prob : F) (now_us : ℕ) → SameBuffer s (update_window lib s prob now_us)
  unfolding update_window judge fire record_probability
  update_window-SameBuffer s prob now_us = ground arith

  after_invoke-SameBuffer :
      (s : WakeWord lib) (status : Option ℕ) (now_us : ℕ)
      → SameBuffer s (after_invoke lib s status now_us)
  unfolding after_invoke
  after_invoke-SameBuffer s none now_us = ground arith
  after_invoke-SameBuffer s (some raw) now_us =
      update_window-SameBuffer s (probability lib s raw) now_us

  run_wake_word-SameBuffer :
      (s : WakeWord lib) (now_us : ℕ) → SameBuffer s (run_wake_word lib s now_us)
  unfolding run_wake_word
  run_wake_word-SameBuffer s now_us =
      let (interpreter', status) =
        lib.invoke s.interpreter
          (take (s.input_slices * frontend_feature_size) s.pending_features) in
      let same = after_invoke-SameBuffer (record s { interpreter = interpreter' }) status now_us in
      record {
        loaded = same.loaded;
        tensors = same.tensors;
        slices = same.slices;
        buffer = same.buffer;
      }

  pub write_slice-ok :
      (s : WakeWord lib) (room i : ℕ) (values : List ℕ) (features : List ℤ)
      → i + room ≤ length features
      → (f : List ℤ) × (write_slice lib s room i values features ≡ ok f)
        × (length f ≡ length features)
  unfolding write_slice
  write_slice-ok s zero i values features h = (features, refl, refl)
  write_slice-ok s (suc room) i [] features h = (features, refl, refl)
  write_slice-ok s (suc room) i (v ∷ r) features h =
      let (f, e, n) =
        write_slice-ok s room (i + 1) r (set features i (quantize lib s v))
          (omega (arith, length-set features i (quantize lib s v))) in
      (f, ground arith, n ∙ length-set features i (quantize lib s v))

  count_slice-Succeeds :
      (s : WakeWord lib) (now_us : ℕ) → IsReady s → Succeeds (count_slice lib s now_us)
  unfolding count_slice
  count_slice-Succeeds s now_us h =
      let s' : WakeWord lib = record s { pending_count = s.pending_count + 1 } in
      let same = run_wake_word-SameBuffer s' now_us in
      if_elim Succeeds (leb s.input_slices s'.pending_count)
        (λ _.
          if_elim Succeeds s.tensors
            (λ _. (
              record (run_wake_word lib s' now_us) { pending_count = 0 },
              refl,
              record {
                loaded = same.loaded ∙ h.loaded;
                tensors = same.tensors ∙ h.tensors;
                slices = ground (arith, same.slices, h.slices);
                pending = omega arith;
                buffer = ap length same.buffer ∙ h.buffer;
              },
            ))
            (λ none. absurd (ground (arith, h.tensors))))
        (λ room. (
          s',
          refl,
          record {
            loaded = h.loaded;
            tensors = h.tensors;
            slices = h.slices;
            pending = ground arith;
            buffer = h.buffer;
          },
        ))

  accept_slice-Succeeds :
      (s : WakeWord lib) (values : List ℕ) (now_us : ℕ)
      → IsReady s
      → Succeeds (accept_slice lib s values now_us)
  unfolding accept_slice store_slice
  accept_slice-Succeeds s [] now_us h = (s, refl, h)
  accept_slice-Succeeds s (v ∷ r) now_us h =
      let (f, e, n) =
        write_slice-ok s frontend_feature_size (s.pending_count * frontend_feature_size) (v ∷ r)
          s.pending_features (omega (arith, h.pending, h.slices, h.buffer)) in
      rw e (
        count_slice-Succeeds (record s { pending_features = f }) now_us
          (record {
            loaded = h.loaded;
            tensors = h.tensors;
            slices = h.slices;
            pending = h.pending;
            buffer = n ∙ h.buffer;
          }))

  and_then-Succeeds :
      (r : Outcome (WakeWord lib)) (k : WakeWord lib → Outcome (WakeWord lib))
      → Succeeds r
      → ((t : WakeWord lib) → IsReady t → Succeeds (k t))
      → Succeeds (and_then lib r k)
  unfolding and_then
  and_then-Succeeds r k (t, e, h) later = rw e (later t h)

  round-Succeeds :
      (s : WakeWord lib) (pcm : List ℤ) (clock : ℕ → ℕ)
      (next : WakeWord lib → List ℤ → Outcome (WakeWord lib))
      → ReadsWithin
      → IsReady s
      → ((t : WakeWord lib) (rest : List ℤ)
          → length rest < length pcm
          → IsReady t
          → Succeeds (next t rest))
      → Succeeds (round lib s pcm clock next)
  unfolding round
  round-Succeeds s pcm clock next reads h later =
      let (frontend', consumed, values) = frontend_process_samples s.frontend pcm in
      let s' : WakeWord lib = record s { frontend = frontend' } in
      let h' : IsReady s' = record {
        loaded = h.loaded;
        tensors = h.tensors;
        slices = h.slices;
        pending = h.pending;
        buffer = h.buffer;
      } in
      if_elim Succeeds (consumed == 0) (λ _. (s', refl, h'))
        (λ some_read.
          if_elim Succeeds (ltb (length pcm) consumed)
            (λ over. absurd (ground (arith, reads s.frontend pcm)))
            (λ within.
              and_then-Succeeds (accept_slice lib s' values (clock (length pcm)))
                (λ t. next t (drop consumed pcm))
                (accept_slice-Succeeds s' values (clock (length pcm)) h')
                (λ t ready.
                  later t (drop consumed pcm) (ground (arith, length-drop consumed pcm)) ready)))

  process_loop-Succeeds :
      (fuel : ℕ) (s : WakeWord lib) (pcm : List ℤ) (clock : ℕ → ℕ)
      → ReadsWithin
      → IsReady s
      → length pcm ≤ fuel
      → Succeeds (process_loop lib fuel s pcm clock)
  unfolding process_loop
  process_loop-Succeeds fuel s [] clock reads h enough = (s, refl, h)
  process_loop-Succeeds zero s (x ∷ pcm) clock reads h enough = absurd (omega arith)
  process_loop-Succeeds (suc fuel) s (x ∷ pcm) clock reads h enough =
      round-Succeeds s (x ∷ pcm) clock (λ t rest. process_loop lib fuel t rest clock) reads h
        (λ t rest shorter ready.
          process_loop-Succeeds fuel t rest clock reads ready (omega (arith, shorter)))

  -- From a ready state, if the frontend reports no more samples as read than it was given, the loop
  -- over any samples ends within as many rounds as there are samples, writes inside the buffer and
  -- returns ESP_OK in a state that is ready again.
  pub wake_word_process-Succeeds :
      (s : WakeWord lib) (pcm : List ℤ) (clock : ℕ → ℕ)
      → ReadsWithin
      → IsReady s
      → Succeeds (wake_word_process lib s pcm clock)
  unfolding wake_word_process
  wake_word_process-Succeeds s pcm clock reads h =
      if_elim Succeeds s.loaded
        (λ _. process_loop-Succeeds (length pcm) s pcm clock reads h (omega arith))
        (λ none. absurd (ground (arith, h.loaded)))
