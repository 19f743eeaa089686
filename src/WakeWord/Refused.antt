-- ===== src/WakeWord/Refused.antt =====
-- What the result of `wake_word_init` says about the calls that follow.
use pipecat_voice_assistant.Prelude.{
  ℕ, zero, suc, ◌+◌, ◌*◌, ◌/◌, ◌%◌, ◌≤◌, ◌<◌, ◌≡◌, ◌↔◌, refl, ◌∙◌, true, List, [], ◌∷◌, leb, All,
  length, if_elim, arith,
}
use pipecat_voice_assistant.WakeWord.{WakeLib, WakeWord}
use pipecat_voice_assistant.WakeWord.Process.{
  Outcome, ok, overrun, frontend_feature_size, ww_max_input_slices, write_slice, count_slice,
  store_slice, accept_slice, and_then,
}
use pipecat_voice_assistant.WakeWord.Init.{
  InitAnswers, wake_word_init, load_model, take_shape, esp_ok, esp_fail, register_ww_ops,
}
use pipecat_voice_assistant.WakeWord.Returns.{IsReady, write_slice-ok}

module _ (lib : WakeLib) where
  open lib use {F}

  -- Every step before the tensors' shape is read succeeds.
  pub record Prepares (a : InitAnswers lib) : Type 0 where
    pub populated : a.populate_state ≡ true
    pub arena : a.arena_alloc ≡ true
    pub schema : a.schema_matches ≡ true
    pub ops : register_ww_ops a.ops_added ≡ true
    pub allocator : a.allocator_create ≡ true
    pub variables : a.resource_vars_create ≡ true
    pub tensors : a.allocate_tensors ≡ true

  -- The initialisation succeeds exactly when every step before does and the input tensor is a whole
  -- number of at most eight slices; the state is then ready, if the buffer was empty and whole.
  pub wake_word_init-IsReady :
      (a : InitAnswers lib) (s : WakeWord lib)
      → s.pending_count ≡ 0
      → length s.pending_features ≡ frontend_feature_size * ww_max_input_slices
      → (((wake_word_init lib a s).1 ≡ esp_ok) ↔ (
          Prepares a
          × (a.input_bytes % frontend_feature_size ≡ 0)
          × (a.input_bytes / frontend_feature_size ≤ ww_max_input_slices)))
        × ((wake_word_init lib a s).1 ≡ esp_ok → IsReady lib (wake_word_init lib a s).0)
  unfolding wake_word_init load_model take_shape
  wake_word_init-IsReady a s empty whole =
      ((λ e. ground arith, λ h. ground arith), λ e. ground arith)

  -- The rounds that a call makes for these slices.
  unfoldable pub accept_all : WakeWord lib → List (List ℕ) → ℕ → Outcome (WakeWord lib)
  accept_all s [] now_us = ok s
  accept_all s (values ∷ r) now_us =
      and_then lib (accept_slice lib s values now_us) (λ t. accept_all t r now_us)

  abbrev pub NonEmpty : List ℕ → Type 0
  NonEmpty [] = ⊥
  NonEmpty (v ∷ r) = Unit

  -- A model of more slices than the buffer holds, and the room left.
  record IsOversized (left : ℕ) (s : WakeWord lib) : Type 0 where
    slices : ww_max_input_slices < s.input_slices
    pending : s.pending_count + left ≡ ww_max_input_slices
    buffer : length s.pending_features ≡ frontend_feature_size * ww_max_input_slices

  one_more :
      (left : ℕ) (s : WakeWord lib) (values : List ℕ) (now_us : ℕ)
      → NonEmpty values
      → IsOversized (suc left) s
      → (t : WakeWord lib) × (accept_slice lib s values now_us ≡ ok t) × IsOversized left t
  unfolding accept_slice store_slice count_slice
  one_more left s [] now_us some h = absurd some
  one_more left s (v ∷ r) now_us some h =
      let (f, e, n) =
        write_slice-ok lib s frontend_feature_size (s.pending_count * frontend_feature_size) (v ∷ r)
          s.pending_features (omega (arith, h.pending, h.buffer)) in
      let stored : WakeWord lib = record s { pending_features = f } in
      let counted : WakeWord lib = record stored { pending_count = s.pending_count + 1 } in
      let Left : Outcome (WakeWord lib) → Type 0 =
        λ o. (t : WakeWord lib) × (o ≡ ok t) × IsOversized left t in
      rw e (
        if_elim Left (leb s.input_slices (s.pending_count + 1))
          (λ few. absurd (ground (arith, h.slices, h.pending)))
          (λ _. (
            counted,
            refl,
            record {
              slices = h.slices;
              pending = ground (arith, h.pending);
              buffer = n ∙ h.buffer;
            },
          )))

  full_overruns :
      (s : WakeWord lib) (values : List ℕ) (now_us : ℕ)
      → NonEmpty values
      → IsOversized 0 s
      → accept_slice lib s values now_us ≡ overrun
  unfolding accept_slice store_slice write_slice
  full_overruns s [] now_us some h = absurd some
  full_overruns s (v ∷ r) now_us some h = ground (arith, h.buffer, h.pending)

  accept_all-overruns :
      (left : ℕ) (s : WakeWord lib) (slices : List (List ℕ)) (now_us : ℕ)
      → length slices ≡ suc left
      → All NonEmpty slices
      → IsOversized left s
      → accept_all s slices now_us ≡ overrun
  unfolding accept_all and_then
  accept_all-overruns left s [] now_us n all h = absurd (omega arith)
  accept_all-overruns zero s (values ∷ r) now_us n (some, all) h =
      rw (full_overruns s values now_us some h) refl
  accept_all-overruns (suc left) s (values ∷ r) now_us n (some, all) h =
      let (t, e, h') = one_more left s values now_us some h in
      rw e (accept_all-overruns left t r now_us (omega arith) all h')

  -- An initialisation that is refused for an input tensor of more than eight slices still leaves the
  -- module loaded with the refused count, and the ninth slice that is then processed is written
  -- behind the end of the buffer.
  pub refused_init-overruns :
      (a : InitAnswers lib) (s : WakeWord lib) (slices : List (List ℕ)) (now_us : ℕ)
      → Prepares a
      → a.input_bytes % frontend_feature_size ≡ 0
      → ww_max_input_slices < a.input_bytes / frontend_feature_size
      → s.pending_count ≡ 0
      → length s.pending_features ≡ frontend_feature_size * ww_max_input_slices
      → length slices ≡ 9
      → All NonEmpty slices
      → ((wake_word_init lib a s).1 ≡ esp_fail)
        × ((wake_word_init lib a s).0.loaded ≡ true)
        × (accept_all (wake_word_init lib a s).0 slices now_us ≡ overrun)
  unfolding wake_word_init load_model take_shape
  refused_init-overruns a s slices now_us h whole over empty buffer nine some = (
    ground (arith, h.populated),
    ground (arith, h.populated),
    accept_all-overruns 8 (wake_word_init lib a s).0 slices now_us nine some
        (record { slices = ground arith; pending = ground arith; buffer = ground arith }),
  )
