-- ===== src/WakeWord/Init.antt =====
-- `wake_word_init` of wake_word.cc. What the microfrontend, the allocator and TensorFlow Lite
-- answer is the record `InitAnswers`; the settings that the function fills in are theirs to read.
use pipecat_voice_assistant.Prelude.{
  ℕ, ◌/◌, ◌%◌, Bool, true, not, if◌then◌else◌, ltb, ◌==◌, List, [], ◌∷◌, ◌&&◌,
}
use pipecat_voice_assistant.Prelude.Int.{ℤ}
use pipecat_voice_assistant.WakeWord.{WakeLib, WakeWord}
use pipecat_voice_assistant.WakeWord.Process.{frontend_feature_size, ww_max_input_slices}

pub data EspErr : Type 0 where
  esp_ok esp_fail esp_err_no_mem : EspErr

abbrev pub register_ww_ops : List Bool → Bool
register_ww_ops [] = true
register_ww_ops (added ∷ r) = added && register_ww_ops r

module _ (lib : WakeLib) where
  open lib use {F, Frontend, Interpreter, of_ℤ, div}

  pub record InitAnswers : Type 0 where
    pub populate_state : Bool
    pub populated : Frontend
    pub arena_alloc : Bool
    pub schema_matches : Bool
    -- The status of each `Add…` call of register_ww_ops, in order.
    pub ops_added : List Bool
    pub allocator_create : Bool
    pub resource_vars_create : Bool
    pub interpreter : Interpreter
    pub allocate_tensors : Bool
    pub input_bytes : ℕ
    pub input_scale : F
    pub input_zero : ℤ
    pub output_scale : F
    pub output_zero : ℤ
    -- The literal 0.0390625f.
    pub frontend_scale : F

  -- From `s_ww_input_slices = …` on.
  unfoldable pub take_shape : InitAnswers → WakeWord lib → WakeWord lib × EspErr
  take_shape a s =
      let s' = record s { input_slices = a.input_bytes / frontend_feature_size } in
      if ltb ww_max_input_slices s'.input_slices then (s', esp_fail) else (
        record s' {
          quant_mult = div a.frontend_scale a.input_scale;
          quant_offset = of_ℤ a.input_zero;
        },
        esp_ok,
      )

  -- From `s_ww = &ww_interp` on.
  unfoldable pub load_model : InitAnswers → WakeWord lib → WakeWord lib × EspErr
  load_model a s =
      let s' = record s {
        loaded = true;
        interpreter = a.interpreter;
        output_scale = a.output_scale;
        output_zero = a.output_zero;
      } in
      if not a.allocate_tensors
      then (s', esp_fail)
      else if not (a.input_bytes % frontend_feature_size == 0)
      then (record s' { tensors = true }, esp_fail)
      else take_shape a (record s' { tensors = true })

  unfoldable pub wake_word_init : InitAnswers → WakeWord lib → WakeWord lib × EspErr
  wake_word_init a s =
      let s' = record s { frontend = a.populated } in
      if not a.populate_state
      then (s', esp_fail)
      else if not a.arena_alloc
      then (s', esp_err_no_mem)
      else if not a.schema_matches
      then (s', esp_fail)
      else if not (register_ww_ops a.ops_added)
      then (s', esp_fail)
      else if not a.allocator_create
      then (s', esp_fail)
      else if not a.resource_vars_create
      then (s', esp_fail)
      else load_model a s'
