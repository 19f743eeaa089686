-- ===== src/App/Session/Steps.antt =====
-- The main loop and the microphone loop, which run on two cores, as one system. A step is an
-- iteration of the main loop, an iteration of the microphone loop up to its send section, or that
-- send section; steps of the main loop may come between the two parts.
use pipecat_voice_assistant.Prelude.{◌≡◌, false, Option, none, some, Bytes}
use pipecat_voice_assistant.Domain.SessionFsm.{SessionState}
use pipecat_voice_assistant.App.Session.{Platform, Session}
use pipecat_voice_assistant.App.Session.Main.{MainInput, MainLocals, main_init, main_step}
use pipecat_voice_assistant.App.Session.Capture.{
  CaptureInput, CaptureLocals, capture_frame, send_section,
}

-- `packet` is the encoded frame of a microphone iteration that has not reached its send section.
pub record System : Type 0 where
  pub main : MainLocals
  pub capture : CaptureLocals
  pub session : Session
  pub packet : Option Bytes

-- The system that `start` leaves: no peer and no turn, and the main loop at its first iteration.
pub record IsInitial (y : System) : Type 0 where
  pub no_peer : y.session.peer ≡ none
  pub not_connected : y.session.connected ≡ false
  pub no_turn : y.session.conversation_active ≡ false
  pub idle_fsm : y.session.fsm ≡ SessionState.idle
  pub main_start : y.main ≡ main_init
  pub no_packet : y.packet ≡ none

module _ (pl : Platform) where
  abbrev pub after_main : MainInput → System → System
  after_main i y =
      let (m, s) = main_step pl i y.main y.session in record y { main = m; session = s }

  abbrev pub after_frame : CaptureInput → System → System
  after_frame i y =
      let (c, s, packet) = capture_frame pl i y.capture y.session in
      record y { capture = c; session = s; packet = packet }

  abbrev pub after_send : Bytes → System → System
  after_send wire y =
      let (c, s) = send_section wire y.capture y.session in
      record y { capture = c; session = s; packet = none }

  pub data Step : System → System → Type 0 where
    main_iteration : (y : System) (i : MainInput) → Step y (after_main i y)
    microphone_frame : (y : System) (i : CaptureInput) → y.packet ≡ none → Step y (after_frame i y)
    microphone_send :
        (y : System) (wire : Bytes) → y.packet ≡ some wire → Step y (after_send wire y)

  pub data Reachable : System → Type 0 where
    start : (y : System) → IsInitial y → Reachable y
    next : (y z : System) → Reachable y → Step y z → Reachable z
