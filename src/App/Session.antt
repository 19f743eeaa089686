-- ===== src/App/Session.antt =====
-- The session, firmware/components/pv_app/include/app/session.hpp and src/session.cpp: its shared
-- fields and libpeer's callbacks. The tasks are in the modules below: `Session.Main` the main loop,
-- `Session.Capture` the microphone loop, `Session.Steps` their interleaving.
--
-- A tick is a uint32_t. `Platform` has what FreeRTOS supplies: `pdMS_TO_TICKS` and the send into the
-- playback stream buffer. A time is read at most once in a callback here; the source reads the tick
-- counter twice in `Completed`. Log lines and the metrics copied next to a snapshot are left out.
pub mod Main
pub mod Capture
pub mod Steps
pub mod Turn
pub mod Attempts
pub mod Verdict
pub mod Ended
pub mod Uplink
pub mod Wav
pub mod Upload
pub mod Playback
pub mod Frames
pub mod Control
pub mod Lifecycle
pub mod Safety
mod Tests
use pipecat_voice_assistant.Prelude.{
  ℕ, ◌+◌, ◌*◌, ◌/◌, ◌%◌, ◌^◌, Bool, true, false, not, ◌&&◌, ◌||◌, Option, none, some, List, [], ◌∷◌,
  ◌++◌, Bytes, if◌then◌else◌, ltb, leb, ◌==◌, take, max,
}
use pipecat_voice_assistant.Prelude.Int.{ℤ}
use pipecat_voice_assistant.Prelude.Word.{u32}
use pipecat_voice_assistant.Domain.LedFsm.{LedState}
use pipecat_voice_assistant.Domain.SessionFsm.{SessionState, SessionEvent, on_event}
use pipecat_voice_assistant.Domain.G722.Codec.{G722Codec, g722_decode}
use pipecat_voice_assistant.Domain.EnergyGate.{peak_abs_i16}
use pipecat_voice_assistant.App.Ui.{Ui, set_led}

-- PeerState of transport/peer.hpp.
pub data PeerState : Type 0 where
  new checking ice_connected completed failed disconnected closed : PeerState

pub data Chirp : Type 0 where
  wake end : Chirp

pub record PeerIceServer : Type 0 where
  pub url : Bytes
  pub username : Bytes
  pub credential : Bytes

-- transport::Peer: the answer parked for its next tick, the one that libpeer has been given, and the
-- packets of `sendAudio`, the newest last.
pub record Peer : Type 0 where
  pub ice : List PeerIceServer
  pub pending_answer : Option Bytes
  pub remote_description : Option Bytes
  pub sent : List Bytes

pub record Platform : Type 0 where
  pub pd_ms_to_ticks : ℕ → ℕ
  -- The buffer after `xStreamBufferSend` of the samples.
  pub stream_send : List ℤ → List ℤ → List ℤ

pub record Session : Type 0 where
  pub ice : List PeerIceServer
  pub ui : Ui
  pub fsm : SessionState
  pub g722_enc : G722Codec
  pub g722_dec : G722Codec
  pub peer : Option Peer
  pub playback_buf : Option (List ℤ)
  pub wake_pcm : Option (List ℤ)
  pub wake_pcm_len : ℕ
  pub wake_capture_seq : ℕ
  pub connected : Bool
  pub last_peer_state : Option PeerState
  pub reconnects : ℕ
  pub rx_audio_pkts : ℕ
  pub rx_audio_last_peak : ℕ
  pub rx_audio_max_peak : ℕ
  pub last_rx_pkt_tick : ℕ
  pub peer_dead : Bool
  pub conversation_active : Bool
  pub bot_replied : Bool
  pub chirp_pending : Option Chirp
  pub turn_deadline : ℕ
  pub last_rx_frame_tick : ℕ
  pub last_mic_active_tick : ℕ

abbrev pub connect_timeout_ms : ℕ
connect_timeout_ms = 12000

abbrev pub media_dead_ms : ℕ
media_dead_ms = 5000

abbrev pub max_reconnects_per_turn : ℕ
max_reconnects_per_turn = 3

abbrev pub speaking_pcm_threshold : ℕ
speaking_pcm_threshold = 1000

abbrev pub mic_active_rms_threshold : ℕ
mic_active_rms_threshold = 4000

abbrev pub echo_guard_ms : ℕ
echo_guard_ms = 400

abbrev pub await_response_ms : ℕ
await_response_ms = 20000

abbrev pub post_response_silence_ms : ℕ
post_response_silence_ms = 15000

abbrev pub max_decoded_samples : ℕ
max_decoded_samples = 2048

module _ {ℓ} {A : Type ℓ} where
  abbrev pub is_some : Option A → Bool
  is_some none = false
  is_some (some a) = true

-- The three groups of `case`s of `onPeerState`.
pub data PeerPhase : Type 0 where
  coming_up up lost : PeerPhase

abbrev pub peer_phase : PeerState → PeerPhase
peer_phase new = coming_up
peer_phase checking = coming_up
peer_phase ice_connected = coming_up
peer_phase completed = up
peer_phase failed = lost
peer_phase disconnected = lost
peer_phase closed = lost

module _ (pl : Platform) where
  unfoldable pub deadline_after : ℕ → ℕ → ℕ
  deadline_after now ms = u32 (now + pl.pd_ms_to_ticks ms)

  unfoldable pub on_phase : PeerPhase → ℕ → ℤ → Session → Session
  on_phase coming_up now us s = record s { ui = set_led s.ui LedState.negotiating us }
  on_phase up now us s = record s {
    connected = true;
    last_rx_frame_tick = 0;
    last_rx_pkt_tick = now;
    peer_dead = false;
    turn_deadline = deadline_after now await_response_ms;
    fsm = on_event s.fsm SessionEvent.peer_live;
  }
  on_phase lost now us s = record s {
    connected = false;
    peer_dead = true;
    reconnects = u32 (s.reconnects + 1);
    ui = set_led s.ui LedState.negotiating us;
    fsm = on_event s.fsm SessionEvent.peer_lost;
  }

  unfoldable pub on_peer_state : PeerState → ℕ → ℤ → Session → Session
  on_peer_state p now us s = on_phase (peer_phase p) now us (record s { last_peer_state = some p })

  -- The last `if` of `onInboundAudio`: a loud packet is the bot's speech.
  unfoldable pub heard_bot : ℕ → ℕ → Session → Session
  heard_bot peak now s =
      if leb speaking_pcm_threshold peak
      then record s {
        last_rx_frame_tick = now;
        bot_replied = true;
        turn_deadline = deadline_after now post_response_silence_ms;
      }
      else s

  -- `onInboundAudio` behind its guards.
  unfoldable pub play_packet : Bytes → ℕ → List ℤ → Session → Session
  play_packet payload now buffered s =
      let (dec, pcm) = g722_decode s.g722_dec (take (max_decoded_samples / 2) payload) in
      let peak = peak_abs_i16 pcm in
      heard_bot peak now (record s {
        last_rx_pkt_tick = now;
        g722_dec = dec;
        playback_buf = some (pl.stream_send buffered pcm);
        rx_audio_pkts = u32 (s.rx_audio_pkts + 1);
        rx_audio_last_peak = peak;
        rx_audio_max_peak = max peak s.rx_audio_max_peak;
      })

  -- The guard on the stream buffer, `buffer`.
  unfoldable pub play_into : Bytes → ℕ → Session → Option (List ℤ) → Session
  play_into payload now s none = s
  play_into payload now s (some buffered) = play_packet payload now buffered s

  unfoldable pub on_inbound_audio : Bytes → ℕ → Session → Session
  on_inbound_audio [] now s = s
  on_inbound_audio (b ∷ payload) now s = play_into (b ∷ payload) now s s.playback_buf

unfoldable pub publish_answer : Bytes → Session → Option Peer → Session
publish_answer sdp s none = record s { conversation_active = false }
publish_answer sdp s (some p) = record s { peer = some (record p { pending_answer = some sdp }) }

-- `answer` is what `signaling_.sendOffer` returns.
unfoldable pub on_local_sdp : Option Bytes → Session → Session
on_local_sdp none s = record s { conversation_active = false }
on_local_sdp (some sdp) s = publish_answer sdp s s.peer
