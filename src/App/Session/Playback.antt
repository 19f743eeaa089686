-- ===== src/App/Session/Playback.antt =====
-- An iteration of `playbackTask` of session.cpp. `synth_chirp` of domain/chirp.hpp, which is
-- floating point, and the answer of xStreamBufferReceive are inputs; AudioIo::write is the list of
-- the buffers it was given, each of them stereo: left and right sample in turn.
use pipecat_voice_assistant.Prelude.{
  ℕ, zero, suc, ◌-◌, ◌^◌, Bool, Option, none, some, List, [], ◌∷◌, ◌++◌, if◌then◌else◌, ltb, ◌==◌,
  length, take, drop, replicate,
}
use pipecat_voice_assistant.Prelude.Int.{ℤ, pos, ◌*ℤ◌}
use pipecat_voice_assistant.Domain.LedFsm.{LedInputs}
use pipecat_voice_assistant.App.Ui.{tick}
use pipecat_voice_assistant.App.Session.{Session, Chirp}
use pipecat_voice_assistant.App.Session.Capture.{frames_per_packet}

pub record PlaybackInput : Type 0 where
  -- Whether the scratch buffer was allocated, and the synthesised samples of a chirp.
  pub chirp_buf : Bool
  pub synth_chirp : Chirp → List ℤ
  -- What was received, and what is left in the buffer.
  pub received : List ℤ
  pub left : List ℤ
  -- The clocks, pdTICKS_TO_MS, and the button.
  pub now : ℕ
  pub us : ℤ
  pub ticks_to_ms : ℕ → ℕ
  pub muted : Bool

-- Mono to stereo, in the high half of 32 bits, on the left channel.
unfoldable pub widen : List ℤ → List ℤ
unfolding ◌*ℤ◌
widen [] = []
widen (s ∷ r) = s *ℤ pos (2 ^ 16) ∷ pos 0 ∷ widen r

-- The buffers of a chirp, at most a packet each; a round takes at least a sample.
unfoldable pub chirp_writes : ℕ → List ℤ → List (List ℤ)
chirp_writes fuel [] = []
chirp_writes zero (s ∷ r) = []
chirp_writes (suc fuel) (s ∷ r) =
    widen (take frames_per_packet (s ∷ r)) ∷ chirp_writes fuel (drop frames_per_packet (s ∷ r))

unfoldable pub chirps : PlaybackInput → Option Chirp → List (List ℤ)
chirps i none = []
chirps i (some c) =
    let pcm = i.synth_chirp c in if i.chirp_buf then chirp_writes (length pcm) pcm else []

-- A packet of silence where nothing was received, and silence behind a short one.
unfoldable pub padded : List ℤ → List ℤ
padded mono =
    let frames = length mono in
    if frames == 0
    then replicate frames_per_packet (pos 0)
    else if ltb frames frames_per_packet
    then mono ++ replicate (frames_per_packet - frames) (pos 0)
    else mono

abbrev pub received_of : PlaybackInput → Option (List ℤ) → List ℤ
received_of i none = []
received_of i (some buf) = i.received

abbrev pub left_in : PlaybackInput → Option (List ℤ) → Option (List ℤ)
left_in i none = none
left_in i (some buf) = some i.left

abbrev pub led_inputs : PlaybackInput → Session → LedInputs
led_inputs i s = record {
  now = pos (i.ticks_to_ms i.now);
  last_inbound_audio = pos (i.ticks_to_ms s.last_rx_frame_tick);
  last_mic_active = pos (i.ticks_to_ms s.last_mic_active_tick);
  connected = s.connected;
  muted = i.muted;
  conversation_active = s.conversation_active;
}

-- The writes, and the session after it.
unfoldable pub playback_step : PlaybackInput → Session → List (List ℤ) × Session
playback_step i s = (
  chirps i s.chirp_pending ++ (widen (padded (received_of i s.playback_buf)) ∷ []),
  record s {
    chirp_pending = none;
    playback_buf = left_in i s.playback_buf;
    ui = tick s.ui (led_inputs i s) i.us;
  },
)
