-- ===== src/Domain/SessionFsm/Tests.antt =====
-- The theorems on the session machine at concrete runs.
use pipecat_voice_assistant.Prelude.{◌≡◌, refl, List, [], ◌∷◌}
use pipecat_voice_assistant.Domain.SessionFsm.{
  idle, live, SessionEvent, wifi_up, signaling_started, peer_live, peer_lost, retry_tick, on_event,
  run,
}

abbrev reconnect_trace : List SessionEvent
reconnect_trace =
    wifi_up ∷ signaling_started ∷ peer_live ∷ peer_lost ∷ retry_tick ∷ signaling_started ∷ peer_live
    ∷ []

reconnects : run idle reconnect_trace ≡ live
unfolding run on_event
reconnects = refl
