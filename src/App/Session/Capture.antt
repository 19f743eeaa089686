-- ===== src/App/Session/Capture.antt =====
-- The microphone loop of firmware/components/pv_app/src/session.cpp, one iteration of `captureTask`
-- behind the two gain stages, in two parts: up to the packet in the backlog, and the send section
-- that the lock protects. The frames that the gain stages (`domain::scale_to_i16`, floating point)
-- make, the wake engine's verdict and the mute button are its input.
use pipecat_voice_assistant.Prelude.{
  ℕ, zero, suc, ◌+◌, Bool, true, false, not, ◌&&◌, Option, none, some, List, [], ◌∷◌, ◌++◌, Bytes,
  if◌then◌else◌, ltb, leb, ◌==◌, replicate,
}
use pipecat_voice_assistant.Prelude.Int.{ℤ, pos}
use pipecat_voice_assistant.Prelude.Word.{u32, sub32}
use pipecat_voice_assistant.Domain.LedFsm.{LedState}
use pipecat_voice_assistant.Domain.EnergyGate.{rms_i16}
use pipecat_voice_assistant.Domain.G722.Codec.{g722_init, g722_encode}
use pipecat_voice_assistant.App.Ui.{set_led}
use pipecat_voice_assistant.App.DropRing
use pipecat_voice_assistant.App.DropRing.{DropRing}
use pipecat_voice_assistant.App.Session.{
  Peer, Platform, Session, Chirp, deadline_after, echo_guard_ms, mic_active_rms_threshold,
  await_response_ms,
}

abbrev pub frames_per_packet : ℕ
frames_per_packet = 320

abbrev pub ring_pkts : ℕ
ring_pkts = 400

abbrev pub wake_capture_samples : ℕ
wake_capture_samples = 48000

abbrev pub zero_pcm : List ℤ
zero_pcm = replicate frames_per_packet (pos 0)

pub record CaptureInput : Type 0 where
  pub mono_uplink : List ℤ
  pub mono_wake : List ℤ
  pub now : ℕ
  pub us : ℤ
  pub detected : Bool
  pub muted : Bool

-- The rings of the task; each is missing where its allocation failed.
pub record CaptureLocals : Type 0 where
  pub ring : Option (DropRing Bytes)
  pub cap_ring : Option (DropRing ℤ)

module _ {ℓ} {A : Type ℓ} where
  abbrev pub option_map : (A → A) → Option A → Option A
  option_map f none = none
  option_map f (some a) = some (f a)

module _ (pl : Platform) where
  unfoldable pub bot_speaking : ℕ → Session → Bool
  bot_speaking now s =
      not (s.last_rx_frame_tick == 0)
      && ltb (sub32 now s.last_rx_frame_tick) (pl.pd_ms_to_ticks echo_guard_ms)

  unfoldable pub note_mic : CaptureInput → Session → Session
  note_mic i s =
      if not (bot_speaking i.now s) && leb mic_active_rms_threshold (rms_i16 i.mono_wake)
      then record s {
        last_mic_active_tick = i.now;
        turn_deadline =
            if s.conversation_active && not s.bot_replied
            then deadline_after pl i.now await_response_ms
            else s.turn_deadline;
      }
      else s

  unfoldable pub snapshot_into : Session → Option (DropRing ℤ) → Option (List ℤ) → Session
  snapshot_into s (some ring) (some _) = record s {
    wake_pcm = some (DropRing.snapshot wake_capture_samples ring);
    wake_pcm_len = ring.count;
    wake_capture_seq = u32 (s.wake_capture_seq + 1);
  }
  snapshot_into s _ _ = s

  -- `if (cap_ring && wake_pcm_)`.
  unfoldable pub snapshot_wake : CaptureLocals → Session → Session
  snapshot_wake c s = snapshot_into s c.cap_ring s.wake_pcm

  -- The idle to active edge of a turn, and its deadline.
  unfoldable pub arm_turn : CaptureInput → CaptureLocals → Session → CaptureLocals × Session
  arm_turn i c s =
      if s.conversation_active
      then (c, record s { turn_deadline = deadline_after pl i.now await_response_ms })
      else (
        record c { ring = option_map (DropRing.clear ring_pkts) c.ring },
        record s {
          conversation_active = true;
          ui = set_led s.ui LedState.wake_ack i.us;
          g722_enc = g722_init;
          bot_replied = false;
          chirp_pending = some Chirp.wake;
          turn_deadline = deadline_after pl i.now await_response_ms;
        },
      )

  unfoldable pub on_wake : CaptureInput → CaptureLocals → Session → CaptureLocals × Session
  on_wake i c s = if i.detected then arm_turn i c (snapshot_wake c s) else (c, s)

  unfoldable pub expire : ℕ → Session → Session
  expire now s =
      if s.conversation_active && ltb s.turn_deadline now
      then record s { conversation_active = false; chirp_pending = some Chirp.end }
      else s

  -- The frame that goes to the encoder.
  unfoldable pub uplink_frame : CaptureInput → Bool → List ℤ
  uplink_frame i speaking = if not speaking && not i.muted then i.mono_uplink else zero_pcm

  -- Encoding and `ring_push`; `speaking` was read at the top of the iteration.
  unfoldable pub encode_frame :
      CaptureInput → Bool → CaptureLocals → Session → CaptureLocals × Session × Option Bytes
  encode_frame i speaking c s =
      let (enc, wire) = g722_encode s.g722_enc (uplink_frame i speaking) in
      (
        record c { ring = option_map (λ r. DropRing.push ring_pkts r wire) c.ring },
        record s { g722_enc = enc },
        some wire,
      )

  -- The rolling buffer takes the frame.
  unfoldable pub heard_frame : CaptureInput → CaptureLocals → CaptureLocals
  heard_frame i c = record c {
    cap_ring = option_map (λ r. DropRing.push_all wake_capture_samples r i.mono_uplink) c.cap_ring;
  }

  -- An iteration up to the send section; no packet means that it ends there.
  unfoldable pub capture_frame :
      CaptureInput → CaptureLocals → Session → CaptureLocals × Session × Option Bytes
  capture_frame i c s =
      let (c', s') = on_wake i (heard_frame i c) (note_mic i s) in
      let live = expire i.now s' in
      if live.conversation_active
      then encode_frame i (bot_speaking i.now s) c' live
      else (c', live, none)

unfoldable pub send_audio : Peer → Bytes → Peer
send_audio p packet = record p { sent = p.sent ++ (packet ∷ []) }

-- `while (budget-- > 0 && ring_pop(pkt)) peer_->sendAudio(pkt, sizeof pkt);`
unfoldable pub flush : ℕ → DropRing Bytes → Peer → DropRing Bytes × Peer
flush zero r p = (r, p)
flush (suc budget) r p = elim (DropRing.pop ring_pkts [] r) [
  | none ↦ (r, p)
  | some (packet, r') ↦ flush budget r' (send_audio p packet)
]

unfoldable pub budget : DropRing Bytes → ℕ
budget r = if ltb 1 r.count then 3 else 1

unfoldable pub send_to :
    Bytes
    → CaptureLocals
    → Session
    → Option Peer
    → Option (DropRing Bytes)
    → CaptureLocals × Session
send_to wire c s none ring = (c, s)
send_to wire c s (some p) none = (c, record s { peer = some (send_audio p wire) })
send_to wire c s (some p) (some r) =
    let (r', p') = flush (budget r) r p in
    (record c { ring = some r' }, record s { peer = some p' })

-- The send section. `peer_` is looked at again under the lock.
unfoldable pub send_section : Bytes → CaptureLocals → Session → CaptureLocals × Session
send_section wire c s = if s.connected then send_to wire c s s.peer c.ring else (c, s)
