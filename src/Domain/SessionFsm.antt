-- ===== src/Domain/SessionFsm.antt =====
-- The session lifecycle machine, firmware/components/pv_domain/include/domain/session_fsm.hpp and
-- src/session_fsm.cpp: the two enums and `SessionFsm::onEvent`, branch for branch. The class has
-- one field, so a state is the whole object.
mod Diagram
mod Tests
use pipecat_voice_assistant.Prelude.{Bool, true, false, List, [], ◌∷◌, if◌then◌else◌}

pub data SessionState : Type 0 where
  idle connecting negotiating live reconnecting : SessionState

pub data SessionEvent : Type 0 where
  wifi_up wifi_down signaling_started peer_live peer_lost retry_tick : SessionEvent

-- The three states in which `PeerLost` has an effect.
abbrev pub session_up : SessionState → Bool
session_up negotiating = true
session_up live = true
session_up reconnecting = true
session_up _ = false

-- The `switch` on the state, reached by the events that are not handled at the top.
unfoldable pub switch_state : SessionState → SessionEvent → SessionState
switch_state idle wifi_up = connecting
switch_state connecting signaling_started = negotiating
switch_state negotiating peer_live = live
switch_state reconnecting retry_tick = connecting
switch_state s _ = s

unfoldable pub on_event : SessionState → SessionEvent → SessionState
unfolding switch_state
on_event s wifi_down = idle
on_event s peer_lost = if session_up s then reconnecting else s
on_event s ev = switch_state s ev

-- A run of events, in order.
pub run : SessionState → List SessionEvent → SessionState
run s [] = s
run s (e ∷ es) = run (on_event s e) es
