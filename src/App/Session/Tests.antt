-- ===== src/App/Session/Tests.antt =====
-- Runs of the session, and the theorems applied to them.
use pipecat_voice_assistant.Prelude.{
  ◌+◌, ◌/◌, ◌≤◌, ◌≡◌, refl, true, false, not, ◌&&◌, ◌||◌, none, some, [], ◌∷◌, ◌++◌, Bytes,
  if◌then◌else◌, ltb, replicate, length, min, arith,
}
use pipecat_voice_assistant.Prelude.Int.{pos}
use pipecat_voice_assistant.Domain.LedFsm.{LedState}
use pipecat_voice_assistant.Domain.SessionFsm.{SessionState}
use pipecat_voice_assistant.Domain.G722.Codec.{g722_init, g722_encode}
use pipecat_voice_assistant.App.DropRing.{DropRing}
use pipecat_voice_assistant.App.Session.{
  Platform, Session, Peer, PeerState, is_some, max_reconnects_per_turn,
}
use pipecat_voice_assistant.App.Session.Main.{MainInput, state_change, main_init, main_step}
use pipecat_voice_assistant.App.Session.Capture.{
  CaptureInput, CaptureLocals, zero_pcm, bot_speaking, capture_frame, send_section,
}
use pipecat_voice_assistant.App.Session.Steps.{
  System, IsInitial, Reachable, start, next, main_iteration, microphone_frame, after_main,
  after_frame,
}
use pipecat_voice_assistant.App.Session.Safety.{Reachable-safety}
use pipecat_voice_assistant.App.Session.Turn.{Gone}
use pipecat_voice_assistant.App.Session.Ended.{session_after, ended_turn-disconnects}
use pipecat_voice_assistant.App.Session.Verdict.{Verdict, main_step-Verdict}
use pipecat_voice_assistant.App.Session.Attempts.{attempts, attempts_bounded}
use pipecat_voice_assistant.App.Session.Control.{turn_on, deadline, encoder, capture_frame_turn}
use pipecat_voice_assistant.App.Session.Uplink.{
  waiting, IsBacklog, sent_by, backlog_of, send_section_ordered,
}

-- FreeRTOS at 100 Hz, and a stream buffer that takes everything.
abbrev pub platform : Platform
platform = record { pd_ms_to_ticks = λ ms. ms / 10; stream_send = λ buffered pcm. buffered ++ pcm }

abbrev pub idle_session : Session
idle_session = record {
  ice = [];
  ui = record {
    last_pushed = LedState.off;
    hold_until_us = pos 0;
    override_until_us = pos 0;
    force = false;
    ring = [];
  };
  fsm = SessionState.idle;
  g722_enc = g722_init;
  g722_dec = g722_init;
  peer = none;
  playback_buf = some [];
  wake_pcm = none;
  wake_pcm_len = 0;
  wake_capture_seq = 0;
  connected = false;
  last_peer_state = none;
  reconnects = 0;
  rx_audio_pkts = 0;
  rx_audio_last_peak = 0;
  rx_audio_max_peak = 0;
  last_rx_pkt_tick = 0;
  peer_dead = false;
  conversation_active = false;
  bot_replied = false;
  chirp_pending = none;
  turn_deadline = 0;
  last_rx_frame_tick = 0;
  last_mic_active_tick = 0;
}

abbrev some_peer : Peer
some_peer = record { ice = []; pending_answer = none; remote_description = none; sent = [] }

-- In a turn, connected, with the last packet at tick 1000.
abbrev live_session : Session
live_session = record idle_session {
  peer = some some_peer;
  connected = true;
  conversation_active = true;
  last_rx_pkt_tick = 1000;
  turn_deadline = 3000;
}

abbrev no_locals : CaptureLocals
no_locals = record { ring = none; cap_ring = none }

abbrev powered_on : System
powered_on = record { main = main_init; capture = no_locals; session = idle_session; packet = none }

abbrev wake_frame : CaptureInput
wake_frame = record {
  mono_uplink = pos 0 ∷ pos 100 ∷ [];
  mono_wake = [];
  now = 1000;
  us = pos 10000000;
  detected = true;
  muted = false;
}

abbrev connects : MainInput
connects = record {
  now = 1001;
  us = pos 10010000;
  bring_up = record {
    fetched_ice = [];
    created = true;
    sdp_fired = true;
    answer = some (118 ∷ []);
    offer = true;
  };
  events = state_change PeerState.completed 1001 (pos 10010000) ∷ [];
}

powered_on-IsInitial : IsInitial powered_on
powered_on-IsInitial = record {
  no_peer = refl;
  not_connected = refl;
  no_turn = refl;
  idle_fsm = refl;
  main_start = refl;
  no_packet = refl;
}

abbrev woken : System
woken = after_frame platform wake_frame powered_on

abbrev connected_system : System
connected_system = after_main platform connects woken

connected-Reachable : Reachable platform connected_system
connected-Reachable =
    next woken connected_system
      (next powered_on woken (start powered_on powered_on-IsInitial)
        (microphone_frame powered_on wake_frame refl))
      (main_iteration woken connects)

Reachable-safety_example :
    (connected_system.session.connected ≡ true → is_some connected_system.session.peer ≡ true)
    × (connected_system.main.reconnects ≤ max_reconnects_per_turn)
    × (connected_system.session.fsm ≡ SessionState.idle)
Reachable-safety_example = Reachable-safety platform connected_system connected-Reachable

abbrev ended_session : Session
ended_session = record live_session { conversation_active = false }

ended_turn-disconnects_example :
    Gone platform (session_after platform (connects ∷ connects ∷ []) main_init ended_session)
    × (attempts platform (connects ∷ connects ∷ []) main_init ended_session ≡ 0)
ended_turn-disconnects_example =
    ended_turn-disconnects platform connects (connects ∷ []) main_init ended_session (λ _. refl)
      refl

-- 6000 ms without a packet.
abbrev later : MainInput
later = record connects { now = 1600; events = [] }

main_step-Verdict_example :
    Verdict platform later.now main_init live_session
      (main_step platform later main_init live_session)
main_step-Verdict_example = main_step-Verdict platform later main_init live_session refl refl

attempts_bounded_example :
    attempts platform (later ∷ connects ∷ later ∷ []) main_init live_session
    ≤ max_reconnects_per_turn + 1
attempts_bounded_example =
    attempts_bounded platform (later ∷ connects ∷ later ∷ []) main_init live_session

capture_frame_turn_example :
    let (c', s', packet) = capture_frame platform wake_frame no_locals idle_session in
    let on =
      turn_on platform wake_frame idle_session
      && not (ltb (deadline platform wake_frame idle_session) wake_frame.now) in
    let frame =
      if bot_speaking platform wake_frame.now idle_session || wake_frame.muted
      then zero_pcm
      else wake_frame.mono_uplink in
    (s'.conversation_active ≡ on)
    × (s'.turn_deadline ≡ deadline platform wake_frame idle_session)
    × (packet ≡ (
        if on then some (g722_encode (encoder platform wake_frame idle_session) frame).1 else none))
capture_frame_turn_example = capture_frame_turn platform wake_frame no_locals idle_session

-- Two packets wait, the older one in the last slot.
abbrev backlog : DropRing Bytes
backlog = record {
  slots = (7 ∷ 8 ∷ []) ∷ replicate 398 [] ++ ((5 ∷ 6 ∷ []) ∷ []);
  head = 399;
  count = 2;
}

backlog-IsBacklog : IsBacklog backlog
backlog-IsBacklog = record { full_size = refl; inside = ground arith; counted = ground arith }

send_section_ordered_example :
    let (c', s') = send_section [] (record { ring = some backlog; cap_ring = none }) live_session in
    (sent_by s'.peer ++ backlog_of c'.ring ≡ [] ++ waiting backlog)
    × (length (sent_by s'.peer) ≡ 0 + (if true then min 3 (length (waiting backlog)) else 0))
send_section_ordered_example =
    send_section_ordered [] (record { ring = some backlog; cap_ring = none }) live_session backlog
      refl backlog-IsBacklog
